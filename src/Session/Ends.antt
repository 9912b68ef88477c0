-- ===== src/Session/Ends.antt =====
-- A terminal that is logged out or revoked cannot go on.
use wenyouzhan.Common.{
  ℕ, ◌≡◌, ◌⊎◌, sym, inl, inr, Bool, true, Option-cases, some, List, [], ◌∷◌, ◌==◌, arith,
  find_first-satisfies, if◌then◌else◌,
}
use wenyouzhan.Exception.{Result-cases, BusinessException, ok, err}
use wenyouzhan.Store.{Store}
use wenyouzhan.Store.Rows.{RefreshToken}
use wenyouzhan.Session.{in_family, is_live, revoke}
use wenyouzhan.Session.Counts.{live_count, revoke_where_none}
use wenyouzhan.Session.Refresh.{refresh, replayed, token_of}
use wenyouzhan.Session.Rotation.{find_first-revoke}
use wenyouzhan.Session.Terminals.{
  logout, revoke_some, revoke_session, is_token, is_terminal, latest,
}

-- After a logout, the refresh token that was given up is refused at any time.
pub logout-refresh :
    (hash : ℕ → ℕ) (web_days mobile_days now later u raw raw' : ℕ) (s s' : Store) (t : RefreshToken)
    → token_of (hash raw) s ≡ some t
    → t.user_id ≡ u
    → logout hash now u raw s ≡ (ok tt, s')
    → (e : BusinessException) × ((refresh hash web_days mobile_days later raw raw' s').0 ≡ err e)
unfolding logout revoke_some refresh replayed
logout-refresh hash web_days mobile_days now later u raw raw' s s' t found mine h =
    let same =
      find_first-satisfies (λ (x : RefreshToken). x.token_hash == hash raw) s.refresh_tokens t
        found in
    let rest = find_first-revoke (hash raw) (is_token u (hash raw)) now s.refresh_tokens t found in
    let after : token_of (hash raw) s'
        ≡ some (if is_live (is_token u (hash raw)) t then revoke now t else t) =
      ground arith in
    elim (Result-cases (refresh hash web_days mobile_days later raw raw' s').0) [
      | inl (x, fine) ↦ absurd (ground arith)
      | inr (e, bad) ↦ (e, bad)
    ]

same-satisfies : (p : RefreshToken → Bool) (x t : RefreshToken) → x ≡ t → p x ≡ true → p t ≡ true
same-satisfies p x t e h = rw (sym e) h

latest-satisfies :
    (p : RefreshToken → Bool) (rows : List RefreshToken) (t : RefreshToken)
    → latest p rows ≡ some t
    → p t ≡ true
unfolding latest
latest-satisfies p [] t h = cc
latest-satisfies p (x ∷ rows) t h = elim (Option-cases (latest p rows)) [
  | inl gone ↦ ground (arith, same-satisfies p x t)
  | inr (y, found) ↦
      ground (arith, same-satisfies p x t, same-satisfies p y t, latest-satisfies p rows y found)
]

-- A terminal that its user ends, by its id or by that of one of its tokens, has no live token left.
pub revoke_session_ends :
    (now u session_id : ℕ) (s s' : Store)
    → revoke_session now u session_id s ≡ (ok tt, s')
    → (t : RefreshToken) × (t.user_id ≡ u)
      × ((t.family ≡ session_id) ⊎ (t.id ≡ session_id))
      × (live_count (in_family u t.family) s' ≡ 0)
unfolding revoke_session revoke_some
revoke_session_ends now u session_id s s' h =
    elim (Option-cases (latest (is_terminal u session_id) s.refresh_tokens)) [
      | inl gone ↦ absurd (ground arith)
      | inr (t, found) ↦
          let hit = latest-satisfies (is_terminal u session_id) s.refresh_tokens t found in
          (
            t,
            ground arith,
            ground arith,
            ground (arith, revoke_where_none (in_family u t.family) now s),
          )
    ]
