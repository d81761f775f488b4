-- ===== src/Tests/Sessions.antt =====
-- Logins and sessions, run and witnessed.
use workforce_platform.Base.{ℕ, ◌↔◌, ◌+◌, true, none, [], ◌∷◌, ◌≡◌, refl, arith}
use workforce_platform.Base.Rows.{find_where, exists_where, count_where}
use workforce_platform.Schema.{Text, Role}
use workforce_platform.Errors.{ok, err, login_transaction_unusable}
use workforce_platform.Sessions.{
  LoginRow, SessionRow, AuthDb, login_row, consume_row, consume_login_transaction, read_session,
  revoke_row, revoke_sessions_for_principal,
}
use workforce_platform.Sessions.Authority.{consumed_once}
use workforce_platform.Sessions.Reading.{MayUse, read_session_iff}

abbrev pub hash : Text → Text
hash t = t + 1000

abbrev login : LoginRow
login = login_row 5 61 62 63 0 100

abbrev pub ours : SessionRow
ours = record {
  id_hash = 1071;
  org_id = 1;
  principal_id = 2;
  issuer = 3;
  subject = 4;
  csrf_token = 5;
  expires_at = 200;
  revoked_at = none;
}

abbrev pub theirs : SessionRow
theirs = record ours { id_hash = 1072; principal_id = 9; subject = 6 }

abbrev pub portal : AuthDb
portal = record {
  login_transactions = login ∷ [];
  sessions = ours ∷ theirs ∷ [];
  identity_links =
      record {
        issuer = 3;
        subject = 4;
        org_id = 1;
        principal_id = 2;
        created_at = 1;
        created_by = 9;
        active = true;
      }
      ∷ record {
        issuer = 3;
        subject = 6;
        org_id = 1;
        principal_id = 9;
        created_at = 1;
        created_by = 9;
        active = true;
      }
      ∷ [];
  organizations = record { id = 1; name = 10 } ∷ [];
  domain_events = [];
  principals =
      record { org_id = 1; id = 2; name = 11; role = Role.approver; active = true }
      ∷ record { org_id = 1; id = 9; name = 12; role = Role.admin; active = true }
      ∷ [];
}

abbrev entered : AuthDb
entered = record portal { login_transactions = consume_row 6 login ∷ [] }

enters : consume_login_transaction 6 61 portal ≡ ok (login, entered)
unfolding consume_login_transaction find_where
enters = refl

consumed_once_example : consume_login_transaction 8 61 entered ≡ err login_transaction_unusable
consumed_once_example = consumed_once 6 8 61 login portal entered (omega arith) enters

abbrev undisturbed : ℕ → AuthDb → AuthDb
undisturbed n d = d

reads : read_session hash undisturbed 10 71 portal ≡ ok ours
unfolding read_session find_where exists_where
reads = refl

read_session_iff_example :
    (read_session hash undisturbed 10 71 portal ≡ ok ours)
    ↔ MayUse hash undisturbed 10 71 portal ours
unfolding find_where
read_session_iff_example = read_session_iff hash undisturbed 10 71 portal ours (refl, (refl, tt))

abbrev closed : AuthDb
closed = record portal { sessions = revoke_row 11 ours ∷ theirs ∷ [] }

closes : revoke_sessions_for_principal 11 1 2 portal ≡ ok (1, closed)
unfolding revoke_sessions_for_principal count_where
closes = refl

still_reads : read_session hash undisturbed 12 72 closed ≡ ok theirs
unfolding read_session find_where exists_where
still_reads = refl
