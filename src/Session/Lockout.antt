-- ===== src/Session/Lockout.antt =====
-- Wrong passwords lock an account, a right one opens a session.
use wenyouzhan.Common.{
  ℕ, ◌+◌, ◌≤◌, ◌<◌, ◌≡◌, refl, inl, inr, Bool, true, false, Option-cases, none, some, List, [], ◌∷◌,
  ◌==◌, arith, length, All, find_first-satisfies, find_first-update_first_self, find_first,
}
use wenyouzhan.ErrorCode.{account_locked}
use wenyouzhan.Exception.{Result, ok, err, unauthorized_error}
use wenyouzhan.Store.{Store}
use wenyouzhan.Store.Rows.{User, RefreshToken}
use wenyouzhan.Progression.{user_by_id}
use wenyouzhan.Access.Sanctions.{sanction_failure, sanction_of}
use wenyouzhan.Session.{PreparedSession, in_slot, is_live, Tokens, tokens_of}
use wenyouzhan.Session.Counts.{live_count}
use wenyouzhan.Session.Opened.{IsRowOf, pass_login-found, pass_login-ok}
use wenyouzhan.Session.Login.{
  login_transaction, fail_login, is_locked, count_failure, lock_time, set_user,
}

set_user-at :
    (id a : ℕ) (f : User → User) (u : User) (s : Store)
    → a ≡ id
    → user_by_id id s ≡ some u
    → (f u).id ≡ u.id
    → user_by_id id (set_user a f s) ≡ some (f u)
set_user-at id a f u s e found keeps =
    let same = find_first-satisfies (λ (x : User). x.id == id) s.users u found in
    let hit : (f u).id == id ≡ true = rw keeps same in
    rw e (find_first-update_first_self (λ (x : User). x.id == id) f s.users u hit found)

-- The row that is found by an id, after its update.
set_user-found :
    (id : ℕ) (f : User → User) (u : User) (s : Store)
    → user_by_id id s ≡ some u
    → (f u).id ≡ u.id
    → user_by_id id (set_user u.id f s) ≡ some (f u)
set_user-found id f u s found keeps =
    let same = find_first-satisfies (λ (x : User). x.id == id) s.users u found in
    set_user-at id u.id f u s (ground arith) found keeps

module _ (hash lower trim : ℕ → ℕ) (verify : ℕ → ℕ → Bool) (web_days mobile_days : ℕ) where
  -- A login by a guess, an instant and a password.
  abbrev pub guess : PreparedSession → ℕ × ℕ → Store → Result Tokens × Store
  guess session (now, password) s =
      login_transaction hash lower trim verify web_days mobile_days now password session s

  abbrev pub guesses : PreparedSession → List (ℕ × ℕ) → Store → Store
  guesses session [] s = s
  guesses session (g ∷ gs) s = guesses session gs (guess session g s).1

  abbrev pub Wrong : User → ℕ × ℕ → Type 0
  Wrong u (now, password) = verify u.password password ≡ false

  guess-Wrong :
      (session : PreparedSession) (now password : ℕ) (u : User) (s : Store)
      → user_by_id session.user_id s ≡ some u
      → u.deleted_at ≡ none
      → u.locked_until ≡ none
      → verify u.password password ≡ false
      → user_by_id session.user_id (guess session (now, password) s).1
        ≡ some (count_failure now (u.failed_login_attempts + 1) u)
  unfolding login_transaction fail_login
  guess-Wrong session now password u s found alive free wrong = ground (
    arith,
    set_user-found session.user_id (count_failure now (u.failed_login_attempts + 1)) u s found refl,
  )

  guesses-Wrong :
      (session : PreparedSession) (gs : List (ℕ × ℕ)) (u : User) (s : Store)
      → user_by_id session.user_id s ≡ some u
      → u.deleted_at ≡ none
      → u.locked_until ≡ none
      → All (Wrong u) gs
      → u.failed_login_attempts + length gs ≤ 4
      → (v : User) × (user_by_id session.user_id (guesses session gs s) ≡ some v)
        × (v.deleted_at ≡ none)
        × (v.locked_until ≡ none)
        × (v.password ≡ u.password)
        × (v.failed_login_attempts ≡ u.failed_login_attempts + length gs)
  guesses-Wrong session [] u s found alive free wrong few =
      (u, found, alive, free, refl, omega arith)
  guesses-Wrong session ((now, password) ∷ gs) u s found alive free wrong few =
      let next = count_failure now (u.failed_login_attempts + 1) u in
      let (v, there, alive', free', same, count) =
        guesses-Wrong session gs next (guess session (now, password) s).1
          (guess-Wrong session now password u s found alive free wrong.0) alive (ground arith)
          wrong.1 (omega arith) in
      (v, there, alive', free', same, omega arith)

  locked_guess :
      (session : PreparedSession) (now password until : ℕ) (u : User) (s : Store)
      → user_by_id session.user_id s ≡ some u
      → u.deleted_at ≡ none
      → u.locked_until ≡ some until
      → now < until
      → guess session (now, password) s ≡ (err (unauthorized_error account_locked), s)
  unfolding login_transaction
  locked_guess session now password until u s found alive locked soon = ground arith

  -- Five wrong passwords in a row lock an account with no failures before: until 15 minutes after
  -- the fifth, every login, with the right password too, is refused as locked and writes nothing.
  pub login_lockout :
      (session : PreparedSession) (gs : List (ℕ × ℕ)) (fifth later password password' : ℕ)
      (u : User) (s : Store)
      → user_by_id session.user_id s ≡ some u
      → u.deleted_at ≡ none
      → u.locked_until ≡ none
      → u.failed_login_attempts ≡ 0
      → length gs ≡ 4
      → All (Wrong u) gs
      → verify u.password password ≡ false
      → later < fifth + lock_time
      → let locked = (guess session (fifth, password) (guesses session gs s)).1 in
        guess session (later, password') locked ≡ (err (unauthorized_error account_locked), locked)
  login_lockout session gs fifth later password password' u s found alive free none_yet four wrong
        last soon =
      let (v, there, alive', free', same, count) =
        guesses-Wrong session gs u s found alive free wrong (omega arith) in
      let locked = (guess session (fifth, password) (guesses session gs s)).1 in
      let fifth_failure =
        guess-Wrong session fifth password v (guesses session gs s) there alive' free'
          (rw same last) in
      let lock : (count_failure fifth (v.failed_login_attempts + 1) v).locked_until
          ≡ some (fifth + lock_time) =
        ground arith in
      locked_guess session later password' (fifth + lock_time) _ locked fifth_failure alive' lock
        soon

  -- A login that succeeds was made by an account that is there, not locked and not under a sanction,
  -- with its password; the only live token of the user's terminal on the platform is then the new session's:
  -- the row has its token's hash, its family, its beginning and its end.
  pub login_sound :
      (session : PreparedSession) (now password : ℕ) (s s' : Store) (r : Tokens)
      → guess session (now, password) s ≡ (ok r, s')
      → (u : User) × (user_by_id session.user_id s ≡ some u)
        × (u.deleted_at ≡ none)
        × (is_locked now u ≡ false)
        × (verify u.password password ≡ true)
        × (sanction_failure (sanction_of now u.id s) ≡ none)
        × (r ≡ tokens_of session)
        × (live_count (in_slot session.user_id session.platform) s' ≡ 1)
        × ((t : RefreshToken) × (find_first
                (is_live (in_slot session.user_id session.platform))
                s'.refresh_tokens
              ≡ some t)
            × IsRowOf session t)
  unfolding login_transaction fail_login
  login_sound session now password s s' r h = elim (Option-cases (user_by_id session.user_id s)) [
    | inl gone ↦ absurd (ground arith)
    | inr (u, found) ↦ (
      u,
      found,
      ground arith,
      ground arith,
      ground arith,
      ground (arith, pass_login-ok now session u s s' r),
      ground (arith, pass_login-ok now session u s s' r),
      ground (arith, pass_login-ok now session u s s' r),
      pass_login-found now session u s s' r (ground arith),
    )
  ]
