-- ===== src/Sessions/Reading.antt =====
-- Exactly when ReadSession of internal/store/sessions.go gives authority.
use workforce_platform.Base.{
  ℕ, ◌<◌, ◌≢◌, ◌↔◌, true, false, ◌&&◌, Option, none, some, ◌==◌, ltb, ◌≡◌, refl, ◌∙◌, subst, inl,
  inr, arith, Bool-cases, Option-cases,
}
use workforce_platform.Base.Rows.{IsKeyed, find_row, find_where}
use workforce_platform.Base.Keys.{find_where_row, find_where_key}
use workforce_platform.Base.Any.{Any, Any-exists, exists-Any}
use workforce_platform.Schema.{Text, Time}
use workforce_platform.Errors.{ok}
use workforce_platform.Sessions.Authority.{read_session_found}
use workforce_platform.Sessions.{
  SessionRow, LinkRow, Member, AuthDb, is_unset, is_active_member, link_of, links_to, authorized,
  is_open_session, read_session,
}

-- The principal of the session, active.
abbrev pub IsHolder : SessionRow → Member → Type 0
IsHolder s m = (m.org_id ≡ s.org_id) × (m.id ≡ s.principal_id) × (m.active ≡ true)

-- The account that the session was made for is linked, actively, to its principal.
abbrev pub IsLinked : SessionRow → AuthDb → Type 0
IsLinked s d =
    (l : LinkRow) × (find_where (λ l. l.issuer == s.issuer && l.subject == s.subject)
        d.identity_links
      ≡ some l)
    × (l.active ≡ true)
    × (l.org_id ≡ s.org_id)
    × (l.principal_id ≡ s.principal_id)

links_to-IsLinked : (s : SessionRow) (d : AuthDb) → links_to s (link_of s d) ≡ true → IsLinked s d
links_to-IsLinked s d h = elim (Option-cases (link_of s d)) [
  | inl no_row ↦ absurd (ground (arith, no_row, h))
  | inr (l, found) ↦
      let here : links_to s (some l) ≡ true = subst (λ o. links_to s o ≡ true) found h in
      (l, found, ground (arith, here), ground (arith, here), ground (arith, here))
]

IsLinked-links_to : (s : SessionRow) (d : AuthDb) → IsLinked s d → links_to s (link_of s d) ≡ true
IsLinked-links_to s d (l, found, active, org, principal) =
    rw found (ground (arith, active, org, principal))

-- What the queries of ReadSession ask: that there is a cookie; that its hash has a row, which is neither
-- revoked nor over; then, of the database as it is by then, that the principal is active; and at last
-- that the account is linked.
abbrev pub MayUse :
    (Text → Text) → (ℕ → AuthDb → AuthDb) → Time → Text → AuthDb → SessionRow → Type 0
MayUse hash between now token d s =
    (token ≢ 0)
    × (find_row (λ s. s.id_hash) (hash token) d.sessions ≡ some s)
    × (s.revoked_at ≡ none)
    × (now < s.expires_at)
    × Any (IsHolder s) (between 1 d).principals
    × IsLinked s (between 2 (between 1 d))

member-Any :
    (s : SessionRow) (d : AuthDb)
    → is_active_member s.org_id s.principal_id d ≡ true
    → Any (IsHolder s) d.principals
member-Any s d h =
    Any-exists (λ m. m.org_id == s.org_id && (m.id == s.principal_id && m.active)) (IsHolder s)
      (λ m e. (ground (arith, e), ground (arith, e), ground (arith, e))) d.principals h

Any-member :
    (s : SessionRow) (d : AuthDb)
    → Any (IsHolder s) d.principals
    → is_active_member s.org_id s.principal_id d ≡ true
Any-member s d h =
    exists-Any (λ m. m.org_id == s.org_id && (m.id == s.principal_id && m.active)) (IsHolder s)
      (λ m (a, b, c). ground (arith, a, b, c)) d.principals h

unset : (o : Option Time) → is_unset o ≡ true → o ≡ none
unset none h = refl
unset (some t) h = cc

authorized-parts :
    (between : ℕ → AuthDb → AuthDb) (s : SessionRow) (d : AuthDb)
    → authorized between (some s) d ≡ ok s
    → (is_active_member s.org_id s.principal_id d ≡ true)
      × (links_to s (link_of s (between 2 d)) ≡ true)
authorized-parts between s d r = elim (Bool-cases (is_active_member s.org_id s.principal_id d)) [
  | inl active ↦ elim (Bool-cases (links_to s (link_of s (between 2 d)))) [
    | inl linked_there ↦ (active, linked_there)
    | inr not_linked ↦ absurd (ground (arith, active, not_linked, r))
  ]
  | inr inactive ↦ absurd (ground (arith, inactive, r))
]

module _ (hash : Text → Text) (between : ℕ → AuthDb → AuthDb) (now : Time) (token : Text)
    (d : AuthDb) (s : SessionRow) (u : IsKeyed (λ s. s.id_hash) d.sessions) where
  MayUse-read_session :
      read_session hash between now token d ≡ ok s → MayUse hash between now token d s
  unfolding read_session
  MayUse-read_session r =
      let found = read_session_found hash between now token d s r in
      let (row, is_open) =
        find_where_row (λ s. s.id_hash) (hash token)
          (λ s. is_unset s.revoked_at && ltb now s.expires_at) d.sessions s u found in
      let (member, link) = authorized-parts between s (between 1 d) (ground (arith, found, r)) in
      (
        λ e. ground (arith, e, r),
        row,
        unset s.revoked_at (ground (arith, is_open)),
        ground (arith, is_open),
        member-Any s (between 1 d) member,
        links_to-IsLinked s (between 2 (between 1 d)) link,
      )

  read_session-MayUse :
      MayUse hash between now token d s → read_session hash between now token d ≡ ok s
  unfolding read_session
  read_session-MayUse (given, row, kept, on_time, member, link) =
      rw
        (
          not_empty,
          first_query,
          Any-member s (between 1 d) member,
          IsLinked-links_to s (between 2 (between 1 d)) link,
        )
        refl
    where
      not_empty : (token == 0) ≡ false
      not_empty = ground (arith, given)

      first_query : find_where (is_open_session hash now token) d.sessions ≡ some s
      first_query =
          find_where_key (λ s. s.id_hash) (hash token)
            (λ s. is_unset s.revoked_at && ltb now s.expires_at) d.sessions s u row
          ∙ ground (arith, kept, on_time)

  -- ReadSession returns a session exactly if the cookie is not empty and the row under its hash is this
  -- session, not revoked and not yet over; the principal is then active, when that is asked; and the
  -- account of the session is then linked, actively, to that principal of that organization. The hashes
  -- of the sessions are unique; what other transactions do between the queries is free.
  pub read_session_iff :
      (read_session hash between now token d ≡ ok s) ↔ MayUse hash between now token d s
  read_session_iff = (MayUse-read_session, read_session-MayUse)
