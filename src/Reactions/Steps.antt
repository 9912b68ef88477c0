-- ===== src/Reactions/Steps.antt =====
-- Likes and unlikes keep the counters.
use wenyouzhan.Common.{
  ℕ, ◌≡◌, ◌⊎◌, sym, inl, inr, true, false, Bool-cases, Option-cases, arith, has_row,
}
use mathlib.Core.Path.{subst}
use wenyouzhan.Exception.{Result-cases, ok}
use wenyouzhan.Store.{Store}
use wenyouzhan.Store.Rows.{Thread}
use wenyouzhan.Access.Threads.{live_thread}
use wenyouzhan.Reactions.{likes_row, write_like, like, write_unlike, unlike}
use wenyouzhan.Reactions.Counting.{LikesCounted, write_like-LikesCounted, write_unlike-LikesCounted}

-- One committed like or one that is taken back.
pub data Reaction : Store → Store → Type 0 where
  likes : (id u e : ℕ) (s s' : Store) (n : ℕ) → like id u e s ≡ ok (n, s') → Reaction s s'
  unlikes : (id u e : ℕ) (s s' : Store) (n : ℕ) → unlike id u e s ≡ ok (n, s') → Reaction s s'

like_cases :
    (id u e : ℕ) (s s' : Store) (n : ℕ)
    → like id u e s ≡ ok (n, s')
    → (s' ≡ s)
      ⊎ ((has_row (likes_row id u) s.likes ≡ false)
          × (o : ℕ) × (r : Thread) × (write_like id o u e s ≡ ok (r, s')))
unfolding like
like_cases id u e s s' n h = elim (Option-cases (live_thread id s)) [
  | inl gone ↦ absurd (ground arith)
  | inr (t, found) ↦ elim (Bool-cases (has_row (likes_row id u) s.likes)) [
    | inl known ↦ inl (ground arith)
    | inr new ↦ elim (Result-cases (write_like id t.owner_id u e s)) [
      | inl ((r, s2), w) ↦
          (let same : s2 ≡ s' = ground arith in inr (new, t.owner_id, r, rw (sym same) w))
      | inr (x, w) ↦ absurd (ground arith)
    ]
  ]
]

unlike_cases :
    (id u e : ℕ) (s s' : Store) (n : ℕ)
    → unlike id u e s ≡ ok (n, s')
    → (s' ≡ s)
      ⊎ ((has_row (likes_row id u) s.likes ≡ true)
          × (r : Thread) × (write_unlike id u e s ≡ ok (r, s')))
unfolding unlike
unlike_cases id u e s s' n h = elim (Option-cases (live_thread id s)) [
  | inl gone ↦ absurd (ground arith)
  | inr (t, found) ↦ elim (Bool-cases (has_row (likes_row id u) s.likes)) [
    | inr absent ↦ inl (ground arith)
    | inl known ↦ elim (Result-cases (write_unlike id u e s)) [
      | inl ((r, s2), w) ↦ (let same : s2 ≡ s' = ground arith in inr (known, r, rw (sym same) w))
      | inr (x, w) ↦ absurd (ground arith)
    ]
  ]
]

-- However users like threads and take their likes back, the counter of each thread is the number
-- of its likes, and no user likes a thread twice.
pub Reaction-LikesCounted : {s s' : Store} → LikesCounted s → Reaction s s' → LikesCounted s'
Reaction-LikesCounted h (likes id u e s s' n call) = elim (like_cases id u e s s' n call) [
  | inl same ↦ subst LikesCounted (sym same) h
  | inr (new, o, r, w) ↦ write_like-LikesCounted id o u e s s' r h new w
]
Reaction-LikesCounted h (unlikes id u e s s' n call) = elim (unlike_cases id u e s s' n call) [
  | inl same ↦ subst LikesCounted (sym same) h
  | inr (known, r, w) ↦ write_unlike-LikesCounted id u e s s' r h known w
]
