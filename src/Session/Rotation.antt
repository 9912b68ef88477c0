-- ===== src/Session/Rotation.antt =====
-- Refresh tokens are used once, and a token that was stolen ends its terminal.
use wenyouzhan.Common.{
  ℕ, ◌+◌, ◌≤◌, ◌<◌, ◌≡◌, refl, sym, inl, inr, Bool, Bool-cases, Option-cases, none, some, List, [],
  ◌∷◌, ◌==◌, arith, find_first, find_first-insert-some, update_where, tables, if◌then◌else◌,
}
use wenyouzhan.ErrorCode.{token_theft_detected}
use wenyouzhan.Exception.{Result-cases, BusinessException, ok, err, unauthorized_error}
use wenyouzhan.Store.{Store}
use wenyouzhan.Store.Rows.{RefreshToken}
use wenyouzhan.Access.Sanctions.{sanction_failure, sanction_of}
use wenyouzhan.Session.{
  in_family, has_id, is_live, revoke, create_token, revoke_where, new_token, Tokens,
}
use wenyouzhan.Session.Counts.{live_count, revoke_where_none, revoke_where_le}
use wenyouzhan.Session.Refresh.{
  refresh, refresh_live, rotate, replayed, token_of, next_session, replay_grace,
}

-- A row that is found by a hash is found by it after a revocation, revoked if that selects it.
pub find_first-revoke :
    (key : ℕ) (q : RefreshToken → Bool) (now : ℕ) (rows : List RefreshToken) (t : RefreshToken)
    → find_first (λ x. x.token_hash == key) rows ≡ some t
    → find_first (λ x. x.token_hash == key) (update_where (is_live q) (revoke now) rows)
      ≡ some (if is_live q t then revoke now t else t)
unfolding tables
find_first-revoke key q now [] t h = cc
find_first-revoke key q now (x ∷ rows) t h = elim (Bool-cases (x.token_hash == key)) [
  | inl hit ↦ elim (Bool-cases (is_live q x)) [
    | inl live ↦ (let e : x ≡ t = ground arith in rw (live, hit, sym e) (rw live refl))
    | inr dead ↦ (let e : x ≡ t = ground arith in rw (dead, hit, sym e) (rw dead refl))
  ]
  | inr miss ↦ ground (arith, find_first-revoke key q now rows t)
]

refresh_cases :
    (hash : ℕ → ℕ) (web_days mobile_days now raw raw' : ℕ) (s s' : Store) (r : Tokens)
    → refresh hash web_days mobile_days now raw raw' s ≡ (ok r, s')
    → (t : RefreshToken) × (token_of (hash raw) s ≡ some t)
      × (t.revoked_at ≡ none)
      × (now < t.expires_at)
      × (r.sub ≡ t.user_id)
      × (r.sid ≡ t.family)
      × (s'
          ≡ create_token now
              (next_session hash web_days mobile_days now raw' t)
              (revoke_where (has_id t.id) now s))
unfolding refresh refresh_live replayed rotate
refresh_cases hash web_days mobile_days now raw raw' s s' r h =
    elim (Option-cases (token_of (hash raw) s)) [
      | inl gone ↦ absurd (ground arith)
      | inr (t, found) ↦
          (t, found, ground arith, ground arith, ground arith, ground arith, ground arith)
    ]

-- After a rotation the old token is still found, as a revoked one.
token_of-rotated :
    (hash : ℕ → ℕ) (web_days mobile_days now raw raw' : ℕ) (s s' : Store) (r : Tokens)
    → refresh hash web_days mobile_days now raw raw' s ≡ (ok r, s')
    → (t : RefreshToken) × (token_of (hash raw) s' ≡ some (revoke now t))
      × (r.sub ≡ t.user_id)
      × (r.sid ≡ t.family)
token_of-rotated hash web_days mobile_days now raw raw' s s' r h =
    let (t, found, live, _, who, which, after) =
      refresh_cases hash web_days mobile_days now raw raw' s s' r h in
    let mid = revoke_where (has_id t.id) now s in
    let found' : token_of (hash raw) mid ≡ some (revoke now t) =
      ground (arith, find_first-revoke (hash raw) (has_id t.id) now s.refresh_tokens t found) in
    (
      t,
      rw after (
          find_first-insert-some (λ (x : RefreshToken). x.token_hash == hash raw) mid.refresh_tokens
            (new_token now mid.next_id (next_session hash web_days mobile_days now raw' t))
            (revoke now t) found'),
      who,
      which,
    )

-- A refresh token is good for one rotation: after it, the same token is refused at any time, and
-- the refused call makes no token live.
pub refresh_used_once :
    (hash : ℕ → ℕ) (web_days mobile_days now later raw raw' raw'' : ℕ) (s s' : Store) (r : Tokens)
    → refresh hash web_days mobile_days now raw raw' s ≡ (ok r, s')
    → ((e : BusinessException) × ((refresh hash web_days mobile_days later raw raw'' s').0 ≡ err e))
      × ((p : RefreshToken → Bool)
          → live_count p (refresh hash web_days mobile_days later raw raw'' s').1 ≤ live_count p s')
unfolding refresh replayed
refresh_used_once hash web_days mobile_days now later raw raw' raw'' s s' r h =
    let (t, found, who, which) = token_of-rotated hash web_days mobile_days now raw raw' s s' r h in
    (
      elim (Result-cases (refresh hash web_days mobile_days later raw raw'' s').0) [
        | inl (x, fine) ↦ absurd (ground arith)
        | inr (e, bad) ↦ (e, bad)
      ],
      λ p. ground (arith, revoke_where_le p (in_family t.user_id t.family) later s'),
    )

-- A token that is presented again more than ten seconds after its rotation counts as stolen: the
-- call is refused as such, and no token of its terminal is live after it. A user under a sanction
-- is refused for that instead.
pub refresh_theft :
    (hash : ℕ → ℕ) (web_days mobile_days now later raw raw' raw'' : ℕ) (s s' : Store) (r : Tokens)
    → refresh hash web_days mobile_days now raw raw' s ≡ (ok r, s')
    → now + replay_grace < later
    → sanction_failure (sanction_of later r.sub s') ≡ none
    → let again = refresh hash web_days mobile_days later raw raw'' s' in
      (again.0 ≡ err (unauthorized_error token_theft_detected))
      × (live_count (in_family r.sub r.sid) again.1 ≡ 0)
unfolding refresh replayed
refresh_theft hash web_days mobile_days now later raw raw' raw'' s s' r h late clean =
    let (t, found, who, which) = token_of-rotated hash web_days mobile_days now raw raw' s s' r h in
    let clean' : sanction_failure (sanction_of later t.user_id s') ≡ none = rw (sym who) clean in
    rw (who, which)
      (ground arith, ground (arith, revoke_where_none (in_family t.user_id t.family) later s'))
