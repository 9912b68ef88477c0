-- ===== src/Progression/Accounts.antt =====
-- Experience, levels and gains agree after every grant and reversal.
use wenyouzhan.Common.{
  ℕ, ◌+◌, ◌-◌, ◌⊎◌, ◌≡◌, refl, List, Option, none, some, arith, All, ◌==◌, is_some, Bool-cases,
  Option-cases, inl, inr, find_first, update_first, insert, find_first-update_first_self,
  All-update_first, sum_of, sum_of-update_first, find_first-satisfies, false,
  find_first-update_first_other, if◌then◌else◌,
}
use wenyouzhan.Exception.{ok}
use wenyouzhan.Store.{Store}
use wenyouzhan.Store.Keys.{reversal_key}
use wenyouzhan.Store.Rows.{User}
use wenyouzhan.Progression.Rules.{Progression, experience_rules, level_for_experience}
use wenyouzhan.Progression.Grants.{grant_cases}
use wenyouzhan.Common.Int.{pos_part}
use wenyouzhan.Store.Keys.{reversal_key}
use wenyouzhan.Store.Rows.{ExperienceEvent}
use wenyouzhan.Common.{List, Bool-cases, is_some, insert, ◌-◌, find_first, find_first-insert-some}
use wenyouzhan.Progression.{
  reversible, event_by_key, reversal_event, reverse, reverse_event, GrantExperienceInput,
  GrantExperienceResult, grant_in_transaction, user_by_id, event_by_key, set_experience,
}

-- A stored level is the level of the stored experience.
abbrev pub LevelsMatch : Store → Type 0
LevelsMatch s = All (λ u. u.level ≡ level_for_experience u.experience) s.users

-- Every grant, made or refused, keeps each user's level in step with the experience.
pub grant-LevelsMatch :
    (now : ℕ) (i : GrantExperienceInput) (s s' : Store) (r : GrantExperienceResult)
    → LevelsMatch s
    → grant_in_transaction now i s ≡ ok (r, s')
    → LevelsMatch s'
grant-LevelsMatch now i s s' r h e = elim (grant_cases now i s s' r e) [
  | inl (_, _, same, _) ↦ rw same h
  | inr (u, _, _, _, _, users, _, _) ↦ rw users (All-update_first _ _ _ s.users (λ v _ _. refl) h)
]

-- A grant raises the experience of its user, and all users' experience together, by the gain that it
-- reports, which is the rule's gain if the grant was made and 0 if not; every user with another id
-- is found with the row of before.
pub grant_experience :
    (now : ℕ) (i : GrantExperienceInput) (s s' : Store) (r : GrantExperienceResult) (u : User)
    → grant_in_transaction now i s ≡ ok (r, s')
    → user_by_id i.user_id s ≡ some u
    → (r.delta ≡ (if r.granted_now then (experience_rules i.grant_type).delta else 0))
      × (sum_of (λ v. v.experience) s'.users ≡ sum_of (λ v. v.experience) s.users + r.delta)
      × ((u' : User) × (user_by_id i.user_id s' ≡ some u')
          × (u'.experience ≡ u.experience + r.delta))
      × ((k : ℕ) → (k == i.user_id) ≡ false → user_by_id k s' ≡ user_by_id k s)
grant_experience now i s s' r u e found = elim (grant_cases now i s s' r e) [
  | inl (not_made, none_gained, same, _) ↦ (
    ground arith,
    rw same (omega arith),
    (u, rw same found, omega arith),
    λ k other. rw same refl,
  )
  | inr (v, found', _, made, gain, users, _, _) ↦ (
    ground arith,
    rw users (
        ground (
          arith,
          sum_of-update_first (λ (w : User). w.experience) (λ w. w.id == i.user_id)
              (set_experience (v.experience + (experience_rules i.grant_type).delta)) s.users v,
        )),
    (
      set_experience (v.experience + (experience_rules i.grant_type).delta) v,
      rw users (
          find_first-update_first_self (λ (w : User). w.id == i.user_id) _ s.users v
            (find_first-satisfies (λ (w : User). w.id == i.user_id) s.users v found') found'),
      ground arith,
    ),
    λ k other. rw users (
        find_first-update_first_other (λ (w : User). w.id == i.user_id) (λ (w : User). w.id == k) _
          s.users λ w hit. (ground arith, ground arith)),
  )
]

reverse_users :
    (now event_id : ℕ) (s s' : Store) (p : Option Progression)
    → reverse now event_id s ≡ ok (p, s')
    → (s'.users ≡ s.users)
      ⊎ ((o : ExperienceEvent) × (u : User) × (s'.users
            ≡ update_first
                (λ v. v.id == o.user_id)
                (set_experience (u.experience - pos_part o.delta))
                s.users))
unfolding reverse reverse_event
reverse_users now event_id s s' p e =
    elim (Option-cases (find_first (λ e. e.id == event_id) s.experience_events)) [
      | inl missing ↦ inl (ground arith)
      | inr (o, found) ↦ elim (Option-cases (user_by_id o.user_id s)) [
        | inl gone ↦ inl (ground arith)
        | inr (u, there) ↦ elim (Bool-cases (reversible o)) [
          | inl open_event ↦ elim (Bool-cases (is_some (event_by_key (reversal_key event_id) s))) [
            | inl known ↦ inl (ground arith)
            | inr new ↦ inr (o, u, ground arith)
          ]
          | inr closed ↦ inl (ground arith)
        ]
      ]
    ]

-- A reversal, made or not, keeps each user's level in step with the experience.
pub reverse-LevelsMatch :
    (now event_id : ℕ) (s s' : Store) (p : Option Progression)
    → LevelsMatch s
    → reverse now event_id s ≡ ok (p, s')
    → LevelsMatch s'
reverse-LevelsMatch now event_id s s' p h e = elim (reverse_users now event_id s s' p e) [
  | inl same ↦ rw same h
  | inr (o, u, users) ↦ rw users (All-update_first _ _ _ s.users (λ v _ _. refl) h)
]

marked_row :
    (now event_id : ℕ) (rows : List ExperienceEvent) (o x : ExperienceEvent)
    → find_first (λ e. e.id == event_id) rows ≡ some o
    → find_first
        (λ e. e.id == event_id)
        (insert x
          (update_first (λ e. e.id == event_id) (λ e. record e { reversed_at = some now }) rows))
      ≡ some (record o { reversed_at = some now })
marked_row now event_id rows o x found =
    find_first-insert-some (λ (e : ExperienceEvent). e.id == event_id) _ x _
      (find_first-update_first_self (λ (e : ExperienceEvent). e.id == event_id) _ rows o
        (find_first-satisfies (λ (e : ExperienceEvent). e.id == event_id) rows o found) found)

-- After a call of `reverse` that answers with a progression, every later call for the same event
-- leaves the database as it is.
pub reverse_once :
    (now later event_id : ℕ) (s s' : Store) (p : Progression)
    → reverse now event_id s ≡ ok (some p, s')
    → (q : Option Progression) × (reverse later event_id s' ≡ ok (q, s'))
unfolding reverse reverse_event
reverse_once now later event_id s s' p e =
    elim (Option-cases (find_first (λ e. e.id == event_id) s.experience_events)) [
      | inl missing ↦ absurd (ground arith)
      | inr (o, found) ↦ elim (Bool-cases (is_some (event_by_key (reversal_key event_id) s))) [
        | inl known ↦ (some p, ground arith)
        | inr new ↦ (
          none,
          ground (
            arith,
            marked_row now event_id s.experience_events o (reversal_event now event_id o s.next_id)
                found,
          ),
        )
      ]
    ]
