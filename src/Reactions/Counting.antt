-- ===== src/Reactions/Counting.antt =====
-- The counter of a thread is the number of its likes.
use wenyouzhan.Common.{
  ℕ, ◌+◌, ◌≤◌, ◌≡◌, refl, inl, inr, Bool, true, false, Bool-cases, Option-cases, some, List, [],
  ◌∷◌, ◌==◌, arith, has_row, count_where, count_where-insert, insert, remove_where, update_first,
  find_first, find_first-satisfies, find_first-update_first_self, tables, if◌then◌else◌,
}
use wenyouzhan.Exception.{ok}
use wenyouzhan.Store.{Store}
use wenyouzhan.Store.Rows.{Thread, ThreadLike}
use wenyouzhan.Reactions.{is_thread, likes_row, count_up, count_down, write_like, write_unlike}

abbrev pub likes_thread : ℕ → ThreadLike → Bool
likes_thread id x = x.thread_id == id

-- The counter of each thread is the number of its likes, and a user likes a thread at most once.
abbrev pub LikesCounted : Store → Type 0
LikesCounted s =
    ((id : ℕ) (t : Thread)
      → find_first (is_thread id) s.threads ≡ some t
      → t.like_count ≡ count_where (likes_thread id) s.likes)
    × ((id u : ℕ) → count_where (likes_row id u) s.likes ≤ 1)

find_first-other :
    (id k : ℕ) (f : Thread → Thread) (rows : List Thread)
    → ((x : Thread) → (f x).id ≡ x.id)
    → (id == k) ≡ false
    → find_first (is_thread k) (update_first (is_thread id) f rows) ≡ find_first (is_thread k) rows
unfolding tables
find_first-other id k f [] same apart = refl
find_first-other id k f (x ∷ rows) same apart =
    ground (arith, same x, find_first-other id k f rows same apart)

count_where-absent :
    (p : ThreadLike → Bool) (rows : List ThreadLike)
    → has_row p rows ≡ false
    → count_where p rows ≡ 0
unfolding tables
count_where-absent p [] h = refl
count_where-absent p (x ∷ rows) h = ground (arith, count_where-absent p rows)

count_where-present :
    (p : ThreadLike → Bool) (rows : List ThreadLike)
    → has_row p rows ≡ true
    → 1 ≤ count_where p rows
unfolding tables
count_where-present p [] h = cc
count_where-present p (x ∷ rows) h = ground (arith, count_where-present p rows)

-- A removal takes away what it selects and what is counted both.
count_where-remove :
    (id k u : ℕ) (rows : List ThreadLike)
    → count_where (likes_thread k) (remove_where (likes_row id u) rows)
        + (if id == k then count_where (likes_row id u) rows else 0)
      ≡ count_where (likes_thread k) rows
unfolding tables
count_where-remove id k u [] = ground arith
count_where-remove id k u (x ∷ rows) = ground (arith, count_where-remove id k u rows)

count_where-remove_le :
    (p q : ThreadLike → Bool) (rows : List ThreadLike)
    → count_where p (remove_where q rows) ≤ count_where p rows
unfolding tables
count_where-remove_le p q [] = omega arith
count_where-remove_le p q (x ∷ rows) = ground (arith, count_where-remove_le p q rows)

-- The row that an id finds after the update of one thread.
found_same :
    (id : ℕ) (f : Thread → Thread) (rows : List Thread) (w : Thread)
    → ((x : Thread) → (f x).id ≡ x.id)
    → find_first (is_thread id) rows ≡ some w
    → find_first (is_thread id) (update_first (is_thread id) f rows) ≡ some (f w)
found_same id f rows w same found =
    let hit = find_first-satisfies (is_thread id) rows w found in
    let hit' : is_thread id (f w) ≡ true = rw (same w) hit in
    find_first-update_first_self (is_thread id) f rows w hit' found

row_in_thread :
    (id u k v : ℕ) (rows : List ThreadLike)
    → likes_row k v (record { thread_id = id; user_id = u }) ≡ true
    → count_where (likes_row k v) rows ≡ count_where (likes_row id u) rows
row_in_thread id u k v rows h =
    let e : id ≡ k = ground arith in let f : u ≡ v = ground arith in rw (e, f) refl

pub write_like-LikesCounted :
    (id o u e : ℕ) (s s' : Store) (r : Thread)
    → LikesCounted s
    → has_row (likes_row id u) s.likes ≡ false
    → write_like id o u e s ≡ ok (r, s')
    → LikesCounted s'
unfolding write_like
write_like-LikesCounted id o u e s s' r (counts, once) new h =
    elim (Option-cases (find_first (is_thread id) s.threads)) [
      | inl gone ↦ absurd (ground arith)
      | inr (w, found) ↦
          let x : ThreadLike = record { thread_id = id; user_id = u } in
          let threads : s'.threads ≡ update_first (is_thread id) count_up s.threads =
            ground arith in
          let likes : s'.likes ≡ insert x s.likes = ground arith in
          (
            λ k t there. elim (Bool-cases (id == k)) [
              | inl same ↦
                  (let e : id ≡ k = ground arith in
                    ground (
                      arith,
                      counts id w found,
                      found_same id count_up s.threads w (λ y. refl) found,
                      count_where-insert (likes_thread id) s.likes x,
                    ))
              | inr other ↦ ground (
                arith,
                counts k t,
                find_first-other id k count_up s.threads (λ y. refl) other,
                count_where-insert (likes_thread k) s.likes x,
              )
            ],
            λ k v. ground (
              arith,
              once k v,
              row_in_thread id u k v s.likes,
              count_where-absent (likes_row id u) s.likes new,
              count_where-insert (likes_row k v) s.likes x,
            ),
          )
    ]

pub write_unlike-LikesCounted :
    (id u e : ℕ) (s s' : Store) (r : Thread)
    → LikesCounted s
    → has_row (likes_row id u) s.likes ≡ true
    → write_unlike id u e s ≡ ok (r, s')
    → LikesCounted s'
unfolding write_unlike
write_unlike-LikesCounted id u e s s' r (counts, once) known h =
    elim (Option-cases (find_first (is_thread id) s.threads)) [
      | inl gone ↦ absurd (ground arith)
      | inr (w, found) ↦
          let threads : s'.threads ≡ update_first (is_thread id) count_down s.threads =
            ground arith in
          let likes : s'.likes ≡ remove_where (likes_row id u) s.likes = ground arith in
          (
            λ k t there. elim (Bool-cases (id == k)) [
              | inl same ↦
                  (let e : id ≡ k = ground arith in
                    ground (
                      arith,
                      counts id w found,
                      once id u,
                      count_where-present (likes_row id u) s.likes known,
                      found_same id count_down s.threads w (λ y. refl) found,
                      count_where-remove id id u s.likes,
                    ))
              | inr other ↦ ground (
                arith,
                counts k t,
                find_first-other id k count_down s.threads (λ y. refl) other,
                count_where-remove id k u s.likes,
              )
            ],
            λ k v.
                ground
                  (arith, once k v, count_where-remove_le (likes_row k v) (likes_row id u) s.likes),
          )
    ]
