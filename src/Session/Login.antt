-- ===== src/Session/Login.antt =====
-- `login` (src/auth/auth-session.service.ts).
use wenyouzhan.Common.{
  ℕ, ◌+◌, Bool, false, ◌||◌, Option, none, some, ◌==◌, is_some, ltb, leb, if◌then◌else◌, find_first,
  update_first,
}
use wenyouzhan.ErrorCode.{login_failed, account_locked}
use wenyouzhan.Exception.{Result, ok, err, unauthorized_error}
use wenyouzhan.Store.{Store}
use wenyouzhan.Store.Keys.{ClientPlatform}
use wenyouzhan.Store.Rows.{User}
use wenyouzhan.Progression.{user_by_id}
use wenyouzhan.Access.Sanctions.{sanction_failure, sanction_of}
use wenyouzhan.Session.{PreparedSession, prepare_session, replace_session, Tokens, tokens_of}

abbrev pub is_user : ℕ → User → Bool
is_user id u = u.id == id

abbrev pub set_user : ℕ → (User → User) → Store → Store
set_user id f s = record s { users = update_first (is_user id) f s.users }

-- 15 minutes.
abbrev pub lock_time : ℕ
lock_time = 900_000

abbrev pub is_locked : ℕ → User → Bool
is_locked now u = elim u.locked_until [ none ↦ false | some until ↦ ltb now until ]

abbrev pub count_failure : ℕ → ℕ → User → User
count_failure now attempts u = record u {
  failed_login_attempts = attempts;
  locked_until = if leb 5 attempts then some (now + lock_time) else u.locked_until;
}

abbrev pub clear_failures : User → User
clear_failures u = record u { failed_login_attempts = 0; locked_until = none }

-- The wrong password's writes and code.
unfoldable pub fail_login : ℕ → User → Store → Result Tokens × Store
fail_login now u s = (
  err (
      unauthorized_error
        (if leb 5 (u.failed_login_attempts + 1) then account_locked else login_failed)),
  set_user u.id (count_failure now (u.failed_login_attempts + 1)) s,
)

-- The right password's: a sanction is looked at first.
unfoldable pub pass_login : ℕ → PreparedSession → User → Store → Result Tokens × Store
pass_login now session u s = elim (sanction_failure (sanction_of now u.id s)) [
  | some code ↦ (err (unauthorized_error code), s)
  | none ↦ (
    ok (tokens_of session),
    replace_session now session (record s {
      users =
          if ltb 0 u.failed_login_attempts || is_some u.locked_until
          then update_first (is_user u.id) clear_failures s.users
          else s.users;
    }),
  )
]

-- `verify` is `argon2.verify`, `lower` and `trim` are the text functions of that name.
module _ (hash lower trim : ℕ → ℕ) (verify : ℕ → ℕ → Bool) (web_days mobile_days : ℕ) where
  abbrev pub account_user : ℕ → Store → Option User
  account_user account s =
      find_first (λ u. u.email == lower (trim account) || u.username == trim account) s.users

  -- The transaction.
  unfoldable pub login_transaction : ℕ → ℕ → PreparedSession → Store → Result Tokens × Store
  login_transaction now password session s = elim (user_by_id session.user_id s) [
    | none ↦ (err (unauthorized_error login_failed), s)
    | some u ↦
        if is_some u.deleted_at
        then (err (unauthorized_error login_failed), s)
        else if is_locked now u
        then (err (unauthorized_error account_locked), s)
        else if verify u.password password
        then pass_login now session u s
        else fail_login now u s
  ]

  unfoldable pub login :
      ℕ → ℕ → ℕ → Option ℕ → ClientPlatform → ℕ → ℕ → Store → Result Tokens × Store
  login now account password device_info platform raw family s = elim (account_user account s) [
    | none ↦ (err (unauthorized_error login_failed), s)
    | some initial ↦
        login_transaction now password
          (prepare_session hash web_days mobile_days now initial.id device_info platform raw family)
          s
  ]
