-- ===== src/Invites/Joining.antt =====
-- Who joins a thread by an invitation.
use wenyouzhan.Common.{ℕ, ◌≡◌, true, some, ◌==◌, find_first}
use wenyouzhan.Store.{Store}
use wenyouzhan.Store.Rows.{Thread, ThreadInvite}
use wenyouzhan.Invites.{has_token, is_open_to_invites}

-- The invitation of the token, its thread, and that the thread can be joined.
abbrev pub Invited : ℕ → Store → Thread → Type 0
Invited token s t =
    (i : ThreadInvite) × (find_first (has_token token) s.invites ≡ some i)
    × (find_first (λ (x : Thread). x.id == i.thread_id) s.threads ≡ some t)
    × (is_open_to_invites t ≡ true)
