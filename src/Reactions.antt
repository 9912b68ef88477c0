-- ===== src/Reactions.antt =====
-- Likes of threads (src/threads/thread-reaction.service.ts). The title and the names in the event
-- are left out.
pub mod Counting
pub mod Steps
use wenyouzhan.Common.{
  ℕ, ◌+◌, ◌-◌, Bool, true, false, not, ◌&&◌, Option, none, some, List, [], ◌∷◌, ◌==◌, has_row,
  insert, remove_where, update_first, find_first,
}
use wenyouzhan.ErrorCode.{thread_not_found, bad_request}
use wenyouzhan.Exception.{ok, err, not_found_error, bad_request_error}
use wenyouzhan.Store.{Store, Tx, pure, gets, reads, or_throw, throw_if, enqueue, ◌>>=◌, ◌>>◌}
use wenyouzhan.Store.Keys.{thread_liked_key, thread_unliked_key}
use wenyouzhan.Store.Rows.{Thread, ThreadLike, OutboxRow, thread_liked_event, thread_unliked_event}
use wenyouzhan.Access.Threads.{live_thread, assert_accessible, lock_interaction}
use wenyouzhan.Economy.{record_missing}

abbrev pub is_thread : ℕ → Thread → Bool
is_thread id t = t.id == id

abbrev pub likes_row : ℕ → ℕ → ThreadLike → Bool
likes_row id user_id x = x.thread_id == id && x.user_id == user_id

abbrev pub count_up : Thread → Thread
count_up t = record t { like_count = t.like_count + 1 }

-- The column is an integer. Here the count stops at 0, which `LikesCounted` rules out.
abbrev pub count_down : Thread → Thread
count_down t = record t { like_count = t.like_count - 1 }

abbrev pub liked : ℕ → ℕ → ℕ → ℕ → OutboxRow
liked id owner_id user_id event_id = record {
  event_key = thread_liked_key id user_id event_id;
  payload = thread_liked_event event_id id owner_id user_id;
}

abbrev pub unliked : ℕ → ℕ → ℕ → OutboxRow
unliked id user_id event_id = record {
  event_key = thread_unliked_key id user_id event_id;
  payload = thread_unliked_event event_id id;
}

-- The writes of a like that is new: `thread.update` gives the new row.
unfoldable pub write_like : ℕ → ℕ → ℕ → ℕ → Tx Thread
write_like id owner_id user_id event_id s = elim (find_first (is_thread id) s.threads) [
  | none ↦ err record_missing
  | some t ↦ ok (
    count_up t,
    enqueue (liked id owner_id user_id event_id) (record s {
      likes = insert (record { thread_id = id; user_id = user_id }) s.likes;
      threads = update_first (is_thread id) count_up s.threads;
    }),
  )
]

-- `like`; it gives the count. `event_id` is what `randomUUID` gives.
unfoldable pub like : ℕ → ℕ → ℕ → Tx ℕ
like id user_id event_id = do
  reads (assert_accessible id (some user_id) true false)
  thread ← or_throw (← gets (live_thread id)) (not_found_error thread_not_found)
  throw_if (not thread.published) (bad_request_error bad_request)
  reads (lock_interaction id user_id [])
  known ← gets (λ s. has_row (likes_row id user_id) s.likes)
  elim known [
    | true ↦ pure thread.like_count
    | false ↦ do updated ← write_like id thread.owner_id user_id event_id; pure updated.like_count
  ]

-- The writes of a like that is taken back.
unfoldable pub write_unlike : ℕ → ℕ → ℕ → Tx Thread
write_unlike id user_id event_id s = elim (find_first (is_thread id) s.threads) [
  | none ↦ err record_missing
  | some t ↦ ok (
    count_down t,
    enqueue (unliked id user_id event_id) (record s {
      likes = remove_where (likes_row id user_id) s.likes;
      threads = update_first (is_thread id) count_down s.threads;
    }),
  )
]

-- `unlike`
unfoldable pub unlike : ℕ → ℕ → ℕ → Tx ℕ
unlike id user_id event_id = do
  reads (assert_accessible id (some user_id) false true)
  thread ← or_throw (← gets (live_thread id)) (not_found_error thread_not_found)
  throw_if (not thread.published) (bad_request_error bad_request)
  known ← gets (λ s. has_row (likes_row id user_id) s.likes)
  elim known [
    | false ↦ pure thread.like_count
    | true ↦ do updated ← write_unlike id user_id event_id; pure updated.like_count
  ]
