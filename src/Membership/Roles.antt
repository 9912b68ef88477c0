-- ===== src/Membership/Roles.antt =====
-- Who may change roles, and what no change of the participants alters.
use wenyouzhan.Common.{
  ℕ, ◌≡◌, refl, sym, inl, inr, Bool, false, ◌&&◌, Bool-cases, Option-cases, none, some, List, [],
  ◌∷◌, ◌==◌, arith, count_where, count_where-insert, insert, update_first, find_first, tables,
}
use mathlib.Core.Path.{subst}
use wenyouzhan.Exception.{Result-cases, ok}
use wenyouzhan.Store.{Store}
use wenyouzhan.Store.Keys.{MemberRole}
use wenyouzhan.Store.Rows.{ThreadMember}
use wenyouzhan.Access.Threads.{member_of, assert_can_manage}
use wenyouzhan.Membership.{
  is_row, new_member, join, UpdateMemberDto, new_role, apply_dto, change_member, update_member,
  unmark, exit_member, announce_role, kept_subscriptions, is_owner,
}

announce_role-members :
    (th a t e : ℕ) (old new : MemberRole) (s s' : Store)
    → announce_role th a t e old new s ≡ ok (tt, s')
    → s'.members ≡ s.members
unfolding announce_role
announce_role-members th a t e old new s s' h = ground arith

abbrev written : ℕ → ℕ → UpdateMemberDto → Store → Store
written th target dto s = record s {
  members = update_first (is_row th target) (apply_dto dto) s.members;
  subscriptions = kept_subscriptions dto th target s.subscriptions;
}

-- What a change of a participant found and wrote.
change_member_lem :
    (th target : ℕ) (dto : UpdateMemberDto) (actor event_id : ℕ) (s s' : Store) (r : ThreadMember)
    → change_member th target dto actor event_id s ≡ ok (r, s')
    → (t : ThreadMember) × (member_of th target s ≡ some t)
      × (is_owner t.role ≡ false)
      × (r ≡ apply_dto dto t)
      × (s'.members ≡ update_first (is_row th target) (apply_dto dto) s.members)
unfolding change_member
change_member_lem th target dto actor event_id s s' r h =
    elim (Option-cases (member_of th target s)) [
      | inl gone ↦ absurd (ground arith)
      | inr (t, found) ↦
          let mid = written th target dto s in
          let end = announce_role th actor target event_id t.role (new_role dto t) mid in
          (
            t,
            found,
            ground arith,
            ground arith,
            elim (Result-cases end) [
              | inl ((_, s2), e) ↦ ground (
                arith,
                announce_role-members th actor target event_id t.role (new_role dto t) mid s2 e,
              )
              | inr (x, e) ↦ absurd (ground arith)
            ],
          )
    ]

update_member-changes :
    (th target : ℕ) (dto : UpdateMemberDto) (actor event_id : ℕ) (s s' : Store) (r : ThreadMember)
    → update_member th target dto actor event_id s ≡ ok (r, s')
    → change_member th target dto actor event_id s ≡ ok (r, s')
unfolding update_member
update_member-changes th target dto actor event_id s s' r h =
    elim (Result-cases (assert_can_manage th actor s)) [
      | inr (x, e) ↦ absurd (ground arith)
      | inl (a, e) ↦ ground arith
    ]

-- One committed change of the participants.
pub data Change : Store → Store → Type 0 where
  joined : (th u : ℕ) (s s' : Store) → join th u s ≡ ok (tt, s') → Change s s'
  updated :
      (th target : ℕ) (dto : UpdateMemberDto) (actor event_id : ℕ) (s s' : Store) (r : ThreadMember)
      → update_member th target dto actor event_id s ≡ ok (r, s')
      → Change s s'
  exited :
      (th u : ℕ) (s s' : Store) (r : ThreadMember) → exit_member th u s ≡ ok (r, s') → Change s s'

-- A test of rows that an update of a found row leaves as it is.
count_where-update_first :
    (p q : ThreadMember → Bool) (f : ThreadMember → ThreadMember) (rows : List ThreadMember)
    → ((x : ThreadMember) → find_first p rows ≡ some x → q (f x) ≡ q x)
    → count_where q (update_first p f rows) ≡ count_where q rows
unfolding tables
count_where-update_first p q f [] k = refl
count_where-update_first p q f (x ∷ rows) k = elim (Bool-cases (p x)) [
  | inl hit ↦ (let same : q (f x) ≡ q x = k x (rw hit refl) in rw (hit, same) refl)
  | inr miss ↦
      (let rest = count_where-update_first p q f rows (λ y e. k y (rw miss e)) in
        rw (miss, rest) refl)
]

join_lem :
    (th u : ℕ) (s s' : Store)
    → join th u s ≡ ok (tt, s')
    → (member_of th u s ≡ none) × (s'.members ≡ insert (new_member s.next_id th u) s.members)
unfolding join
join_lem th u s s' h = ground arith

exit_member_lem :
    (th u : ℕ) (s s' : Store) (r : ThreadMember)
    → exit_member th u s ≡ ok (r, s')
    → (t : ThreadMember) × (member_of th u s ≡ some t)
      × (is_owner t.role ≡ false)
      × (s'.members ≡ update_first (is_row th u) unmark s.members)
unfolding exit_member
exit_member_lem th u s s' r h = elim (Option-cases (member_of th u s)) [
  | inl gone ↦ absurd (ground arith)
  | inr (t, found) ↦ (t, found, ground arith, ground arith)
]

-- The rows that make a user the owner of a thread.
abbrev pub owns : ℕ → ℕ → ThreadMember → Bool
owns th user m = m.thread_id == th && (m.user_id == user && is_owner m.role)

new_role-not_owner :
    (dto : UpdateMemberDto) (m : ThreadMember)
    → is_owner m.role ≡ false
    → is_owner (new_role dto m) ≡ false
new_role-not_owner dto m h = ground arith

update_first-owns :
    (p : ThreadMember → Bool) (f : ThreadMember → ThreadMember) (th user : ℕ)
    (rows : List ThreadMember) (t : ThreadMember)
    → find_first p rows ≡ some t
    → owns th user (f t) ≡ owns th user t
    → count_where (owns th user) (update_first p f rows) ≡ count_where (owns th user) rows
update_first-owns p f th user rows t found same =
    count_where-update_first p (owns th user) f rows (λ x e.
      let sm : x ≡ t = ground arith in
      subst (λ y. owns th user (f y) ≡ owns th user y) (sym sm) same)

-- No user becomes the owner of a thread or ceases to be it by anyone's joining or leaving, or by any
-- change that is made to a participant: the user has as many owner's rows of the thread as before.
pub Change-owners :
    {s s' : Store}
    → Change s s'
    → (th user : ℕ) → count_where (owns th user) s'.members ≡ count_where (owns th user) s.members
Change-owners (joined th u s s' e) k user =
    let (_, rows) = join_lem th u s s' e in
    ground (arith, count_where-insert (owns k user) s.members (new_member s.next_id th u))
Change-owners (updated th target dto actor event_id s s' r e) k user =
    let (t, found, low, _, rows) =
      change_member_lem th target dto actor event_id s s' r
        (update_member-changes th target dto actor event_id s s' r e) in
    rw rows (
      update_first-owns (is_row th target) (apply_dto dto) k user s.members t found
        (ground (arith, new_role-not_owner dto t low)))
Change-owners (exited th u s s' r e) k user =
    let (t, found, low, rows) = exit_member_lem th u s s' r e in
    rw rows (update_first-owns (is_row th u) unmark k user s.members t found refl)
