-- ===== src/Session/Counts.antt =====
-- What revocations and new rows do to the number of live tokens.
use wenyouzhan.Common.{
  ℕ, suc, ◌+◌, ◌≤◌, ◌≡◌, refl, inl, inr, Bool, true, Bool-cases, some, List, [], ◌∷◌, arith,
  if◌then◌else◌, count_where, count_where-insert, find_first, update_where, tables,
}
use wenyouzhan.Store.{Store}
use wenyouzhan.Store.Rows.{RefreshToken}
use wenyouzhan.Session.{is_live, revoke, revoke_where, PreparedSession, create_token, new_token}

-- The live tokens that a test selects.
abbrev pub live_count : (RefreshToken → Bool) → Store → ℕ
live_count p s = count_where (is_live p) s.refresh_tokens

rows-revoke_le :
    (p q : RefreshToken → Bool) (now : ℕ) (rows : List RefreshToken)
    → count_where (is_live p) (update_where (is_live q) (revoke now) rows)
      ≤ count_where (is_live p) rows
unfolding tables
rows-revoke_le p q now [] = omega arith
rows-revoke_le p q now (t ∷ rows) = ground (arith, rows-revoke_le p q now rows)

-- A revocation makes no token live.
pub revoke_where_le :
    (p q : RefreshToken → Bool) (now : ℕ) (s : Store)
    → live_count p (revoke_where q now s) ≤ live_count p s
revoke_where_le p q now s = rows-revoke_le p q now s.refresh_tokens

rows-revoke_none :
    (p : RefreshToken → Bool) (now : ℕ) (rows : List RefreshToken)
    → count_where (is_live p) (update_where (is_live p) (revoke now) rows) ≡ 0
unfolding tables
rows-revoke_none p now [] = refl
rows-revoke_none p now (t ∷ rows) = ground (arith, rows-revoke_none p now rows)

-- Of the tokens that it selects, it leaves none live.
pub revoke_where_none :
    (p : RefreshToken → Bool) (now : ℕ) (s : Store) → live_count p (revoke_where p now s) ≡ 0
revoke_where_none p now s = rows-revoke_none p now s.refresh_tokens

rows-revoke_one :
    (key p q : RefreshToken → Bool) (now : ℕ) (rows : List RefreshToken) (t : RefreshToken)
    → find_first key rows ≡ some t
    → is_live q t ≡ true
    → p t ≡ true
    → suc (count_where (is_live p) (update_where (is_live q) (revoke now) rows))
      ≤ count_where (is_live p) rows
unfolding tables
rows-revoke_one key p q now [] t h k l = cc
rows-revoke_one key p q now (x ∷ rows) t h k l = elim (Bool-cases (key x)) [
  | inl hit ↦ (let e : x ≡ t = ground arith in rw e (ground (arith, rows-revoke_le p q now rows)))
  | inr miss ↦
      (let rest = rows-revoke_one key p q now rows t (ground arith) k l in ground (arith, rest))
]

-- The revocation of a token that is found and live takes it from the count.
pub revoke_where_one :
    (key p q : RefreshToken → Bool) (now : ℕ) (s : Store) (t : RefreshToken)
    → find_first key s.refresh_tokens ≡ some t
    → is_live q t ≡ true
    → p t ≡ true
    → suc (live_count p (revoke_where q now s)) ≤ live_count p s
revoke_where_one key p q now s t = rows-revoke_one key p q now s.refresh_tokens t

pub live_count-create_token :
    (p : RefreshToken → Bool) (now : ℕ) (session : PreparedSession) (s : Store)
    → live_count p (create_token now session s)
      ≡ live_count p s + (if p (new_token now s.next_id session) then 1 else 0)
live_count-create_token p now session s =
    ground
      (arith, count_where-insert (is_live p) s.refresh_tokens (new_token now s.next_id session))
