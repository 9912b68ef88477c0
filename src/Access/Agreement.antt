-- ===== src/Access/Agreement.antt =====
-- The point lookup and the list filters of threads agree.
use wenyouzhan.Common.{
  Bool-cases, has_row, inl, inr, ◌&&◌, ℕ, ◌≡◌, ◌↔◌, ◌==◌, List, Option, true, false, none, some,
  arith, find_first, find_first-satisfies,
}
use wenyouzhan.Exception.{ok}
use wenyouzhan.Store.{Store}
use wenyouzhan.Store.Rows.{Thread}
use wenyouzhan.Access.Blocks.{visible_user, is_blocked_pair, contains, blocks_row, distinct}
use wenyouzhan.Access.Sets.{contains-distinct, contains-keep, has_row-or}
use wenyouzhan.Access.Threads.{
  assert_accessible, assert_visible, accessible_thread, receives, filter_accessible_user_ids,
  published_thread_visible,
}

-- The lookup of one thread lets a viewer (or a visitor) read exactly the threads that the list
-- filter of accessible threads selects.
pub assert_accessible-eq-ok_iff :
    (id : ℕ) (viewer : Option ℕ) (s : Store) (t : Thread)
    → find_first (λ x. x.id == id) s.threads ≡ some t
    → (assert_accessible id viewer false false s ≡ ok tt) ↔ (accessible_thread viewer t s ≡ true)
unfolding assert_accessible assert_visible accessible_thread visible_user
assert_accessible-eq-ok_iff id viewer s t found =
    let same = find_first-satisfies (λ (x : Thread). x.id == id) s.threads t found in
    elim viewer [ none ↦ ground arith | some v ↦ ground arith ]

-- What the list filter of published threads selects is what the filter of accessible threads
-- selects, less the viewer's own drafts.
pub published_thread_visible-eq :
    (viewer : Option ℕ) (t : Thread) (s : Store)
    → published_thread_visible viewer t s ≡ (accessible_thread viewer t s && t.published)
unfolding published_thread_visible accessible_thread
published_thread_visible-eq none t s = ground arith
published_thread_visible-eq (some v) t s = ground arith

receives_iff :
    (id : ℕ) (t : Thread) (b : ℕ) (s : Store)
    → find_first (λ x. x.id == id) s.threads ≡ some t
    → t.deleted_at ≡ none
    → is_blocked_pair t.owner_id t.owner_id s ≡ false
    → has_row (λ u. u.id == t.owner_id) s.users ≡ true
    → (receives t id s b ≡ true) ↔ (
        (has_row (λ u. u.id == b) s.users ≡ true)
        × (assert_accessible id (some b) false false s ≡ ok tt))
unfolding assert_accessible assert_visible visible_user
receives_iff id t b s found alive apart there = elim (Bool-cases (b == t.owner_id)) [
  | inl same ↦
      (let e : b ≡ t.owner_id = ground arith in
        rw e (
          ground (
            arith,
            has_row-or (blocks_row t.owner_id t.owner_id) (blocks_row t.owner_id t.owner_id)
                s.blocks,
          )))
  | inr other ↦ ground arith
]

-- Who is told of an event in a thread: of the candidates, exactly the existing users who can read
-- the thread at that moment. It takes from the database that the thread's owner exists and does
-- not block themselves.
pub filter_accessible_user_ids-exact :
    (id : ℕ) (t : Thread) (b : ℕ) (ids : List ℕ) (s : Store)
    → find_first (λ x. x.id == id) s.threads ≡ some t
    → t.deleted_at ≡ none
    → is_blocked_pair t.owner_id t.owner_id s ≡ false
    → has_row (λ u. u.id == t.owner_id) s.users ≡ true
    → (contains b (filter_accessible_user_ids id ids s) ≡ true) ↔ (
        (contains b ids ≡ true)
        × (has_row (λ u. u.id == b) s.users ≡ true)
        × (assert_accessible id (some b) false false s ≡ ok tt))
unfolding filter_accessible_user_ids
filter_accessible_user_ids-exact id t b ids s found alive apart there = ground (
  arith,
  receives_iff id t b s found alive apart there,
  contains-keep (receives t id s) b (distinct ids),
  contains-distinct b ids,
)
