-- ===== src/Sessions/Authority.antt =====
-- Logins of internal/store/sessions.go, and the row that ReadSession finds.
use workforce_platform.Base.{
  ℕ, ◌≤◌, Bool, true, false, ◌&&◌, none, some, List, [], ◌∷◌, ◌==◌, ◌≡◌, refl, sym, ◌∙◌, subst, inl,
  inr, arith, Bool-cases, Option-cases,
}
use workforce_platform.Base.Rows.{All, find_where, update_where, All-find}
use workforce_platform.Schema.{Ident, Text, Time}
use workforce_platform.Errors.{ok, err, login_transaction_unusable, session_invalid}
use workforce_platform.Sessions.{
  LoginRow, SessionRow, AuthDb, is_unset, is_usable, consume_row, consumed,
  consume_login_transaction, is_open_session, authorized, read_session, revoke_row, revoke_where,
  revoke_session, revoke_sessions_for_principal,
}

none_usable :
    (now later : Time) (state : Text) (ls : List LoginRow)
    → now ≤ later
    → find_where (is_usable later state) (update_where (is_usable now state) (consume_row now) ls)
      ≡ none
unfolding find_where
none_usable now later state [] h = refl
none_usable now later state (l ∷ ls) h = ground (arith, h, none_usable now later state ls h)

-- A login transaction that has been consumed is not consumed again, at the same time or later.
pub consumed_once :
    (now later : Time) (state : Text) (l : LoginRow) (d e : AuthDb)
    → now ≤ later
    → consume_login_transaction now state d ≡ ok (l, e)
    → consume_login_transaction later state e ≡ err login_transaction_unusable
unfolding consume_login_transaction
consumed_once now later state l d e h c =
    elim (Option-cases (find_where (is_usable now state) d.login_transactions)) [
      | inl none_such ↦ absurd (ground (arith, none_such, c))
      | inr (x, found) ↦
          let is_e : consumed now state d ≡ e = ground (arith, found, c) in
          subst (λ e. consume_login_transaction later state e ≡ err login_transaction_unusable) is_e
            (rw (none_usable now later state d.login_transactions h) refl)
    ]

authorized-eq-ok :
    (between : ℕ → AuthDb → AuthDb) (x s : SessionRow) (d : AuthDb)
    → authorized between (some x) d ≡ ok s
    → some x ≡ some s
authorized-eq-ok between x s d e = ground arith

-- No row that a revocation is for is left open.
revoked_lem :
    (q : SessionRow → Bool) (now : Time) (ss : List SessionRow)
    → All
        (λ s. q s && is_unset s.revoked_at ≡ false)
        (update_where (λ s. q s && is_unset s.revoked_at) (revoke_row now) ss)
revoked_lem q now [] = tt
revoked_lem q now (s ∷ ss) = (ground arith, revoked_lem q now ss)

module _ (hash : Text → Text) (between : ℕ → AuthDb → AuthDb) where
  -- A session that ReadSession returns is one that its first query found.
  pub read_session_found :
      (now : Time) (token : Text) (d : AuthDb) (s : SessionRow)
      → read_session hash between now token d ≡ ok s
      → find_where (is_open_session hash now token) d.sessions ≡ some s
  unfolding read_session
  read_session_found now token d s r =
      elim (Option-cases (find_where (is_open_session hash now token) d.sessions)) [
        | inl none_such ↦ absurd (ground (arith, none_such, r))
        | inr (x, found) ↦
            found ∙ authorized-eq-ok between x s (between 1 d) (ground (arith, found, r))
      ]

  opened :
      (now : Time) (token : Text) (ss : List SessionRow) (s : SessionRow)
      → find_where (is_open_session hash now token) ss ≡ some s
      → is_open_session hash now token s ≡ true
  unfolding find_where
  opened now token [] s e = ground arith
  opened now token (x ∷ xs) s e = ground (arith, opened now token xs s, e)

  -- After a revocation no read returns a session that it was for.
  pub revoke_where_lem :
      (q : SessionRow → Bool) (now later : Time) (token : Text) (d : AuthDb) (s : SessionRow)
      → read_session hash between later token (revoke_where q now d) ≡ ok s
      → q s ≡ false
  revoke_where_lem q now later token d s r =
      let found = read_session_found later token (revoke_where q now d) s r in
      ground (
        arith,
        All-find (λ s. q s && is_unset s.revoked_at ≡ false) (is_open_session hash later token)
            (revoke_where q now d).sessions s (revoked_lem q now d.sessions) found,
        opened later token (revoke_where q now d).sessions s found,
      )

  -- RevokeSession ends the session: its cookie is refused at any time.
  revoked_session_refused :
      (now later : Time) (token : Text) (d : AuthDb)
      → read_session hash between later token (revoke_session hash now token d)
        ≡ err session_invalid
  unfolding revoke_session read_session
  revoked_session_refused now later token d =
      elim (Option-cases (
        find_where (is_open_session hash later token) (revoke_session hash now token d).sessions)) [
          | inl none_such ↦ elim (Bool-cases (token == 0)) [
            | inl empty ↦ rw empty refl
            | inr some_text ↦ rw (some_text, none_such) refl
          ]
          | inr (s, found) ↦ absurd (
              ground (
                arith,
                opened later token (revoke_session hash now token d).sessions s found,
                All-find (λ s. s.id_hash == hash token && is_unset s.revoked_at ≡ false)
                    (is_open_session hash later token) (revoke_session hash now token d).sessions s
                    (revoked_lem (λ s. s.id_hash == hash token) now d.sessions) found,
              ))
        ]

  -- After RevokeSessionsForPrincipal no cookie gives a session of that principal in that organization,
  -- at any time.
  revoked_principal_refused :
      (now later : Time) (org principal : Ident) (token : Text) (n : ℕ) (d e : AuthDb)
      (s : SessionRow)
      → revoke_sessions_for_principal now org principal d ≡ ok (n, e)
      → read_session hash between later token e ≡ ok s
      → (s.org_id == org && s.principal_id == principal) ≡ false
  unfolding revoke_sessions_for_principal
  revoked_principal_refused now later org principal token n d e s c r =
      revoke_where_lem (λ s. s.org_id == org && s.principal_id == principal) now later token d s
        (subst (λ e. read_session hash between later token e ≡ ok s) (sym is_e) r)
    where
      is_e : revoke_where (λ s. s.org_id == org && s.principal_id == principal) now d ≡ e
      is_e = ground (arith, c)
