-- ===== src/Tests/Session.antt =====
-- A login, its rotation, a replay, five wrong passwords and a logout, and the theorems at them.
use wenyouzhan.Common.{
  ℕ, ◌+◌, ◌≡◌, ◌≤◌, refl, Bool, true, false, none, some, List, [], ◌∷◌, ◌==◌, arith, tables,
  find_first,
}
use wenyouzhan.ErrorCode.{account_locked, token_theft_detected}
use wenyouzhan.Exception.{Result, BusinessException, ok, err, unauthorized_error}
use wenyouzhan.Store.{Store}
use wenyouzhan.Store.Keys.{web, mobile}
use wenyouzhan.Store.Rows.{RefreshToken, User}
use wenyouzhan.Progression.{user_by_id}
use wenyouzhan.Access.Sanctions.{active_sanction, sanction_failure, sanction_of}
use wenyouzhan.Session.{
  is_live, create_session, refresh_ttl, replace_session, Tokens, tokens_of, PreparedSession,
  prepare_session, in_slot, in_family,
}
use wenyouzhan.Session.Login.{login, login_transaction, pass_login, fail_login, is_locked}
use wenyouzhan.Session.Refresh.{refresh, refresh_live, replayed, rotate}
use wenyouzhan.Session.Terminals.{logout, revoke_session, revoke_some, latest}
use wenyouzhan.Session.Counts.{live_count}
use wenyouzhan.Session.Slots.{OneTerminal, login-OneTerminal, refresh-OneTerminal}
use wenyouzhan.Session.Rotation.{refresh_used_once, refresh_theft}
use wenyouzhan.Session.Opened.{IsRowOf}
use wenyouzhan.Session.Lockout.{guess, guesses, login_lockout, login_sound}
use wenyouzhan.Session.Ends.{logout-refresh}
use wenyouzhan.Tests.Sample.{db, user}

code : Unit {0}
unfolding active_sanction sanction_failure create_session refresh_ttl replace_session login
    login_transaction pass_login fail_login refresh refresh_live replayed rotate logout
    revoke_session revoke_some latest tables
code = tt

abbrev hash : ℕ → ℕ
hash x = x + 1

abbrev same : ℕ → ℕ
same x = x

abbrev verify : ℕ → ℕ → Bool
verify digest password = digest == password

abbrev now : ℕ
now = 1785513600000

abbrev no_tokens : Tokens
no_tokens = record { sub = 0; sid = 0; refresh_token = 0 }

abbrev tokens_or : Result Tokens → Tokens
tokens_or (ok r) = r
tokens_or (err _) = no_tokens

db-OneTerminal : OneTerminal db
unfolding tables
db-OneTerminal u p = omega arith

-- User 10 has the name 510 and the password 710.
abbrev signed_in : Result Tokens × Store
unfolding code
signed_in = login hash same same verify 7 30 now 510 710 none web 1 2 db

signed_in_values : (signed_in.0 ≡ ok (record { sub = 10; sid = 2; refresh_token = 1 }))
unfolding code
signed_in_values = refl

signed_in-OneTerminal : OneTerminal signed_in.1
unfolding signed_in code
signed_in-OneTerminal =
    login-OneTerminal hash same same verify 7 30 now 510 710 none web 1 2 db db-OneTerminal

login-OneTerminal_example : OneTerminal signed_in.1
unfolding signed_in code
login-OneTerminal_example =
    login-OneTerminal hash same same verify 7 30 now 510 710 none web 1 2 db db-OneTerminal

abbrev rotated : Result Tokens × Store
unfolding code
rotated = refresh hash 7 30 (now + 1000) 1 5 signed_in.1

rotated_lem : refresh hash 7 30 (now + 1000) 1 5 signed_in.1 ≡ (ok (tokens_or rotated.0), rotated.1)
unfolding code
rotated_lem = refl

refresh-OneTerminal_example : OneTerminal rotated.1
unfolding rotated code
refresh-OneTerminal_example =
    refresh-OneTerminal hash 7 30 (now + 1000) 1 5 signed_in.1 signed_in-OneTerminal

refresh_used_once_example :
    ((e : BusinessException) × ((refresh hash 7 30 (now + 2000) 1 6 rotated.1).0 ≡ err e))
    × ((p : RefreshToken → Bool)
        → live_count p (refresh hash 7 30 (now + 2000) 1 6 rotated.1).1 ≤ live_count p rotated.1)
refresh_used_once_example =
    refresh_used_once hash 7 30 (now + 1000) (now + 2000) 1 5 6 signed_in.1 rotated.1
      (tokens_or rotated.0) rotated_lem

refresh_theft_example :
    ((refresh hash 7 30 (now + 12000) 1 6 rotated.1).0
      ≡ err (unauthorized_error token_theft_detected))
    × (live_count (in_family 10 2) (refresh hash 7 30 (now + 12000) 1 6 rotated.1).1 ≡ 0)
unfolding code
refresh_theft_example =
    refresh_theft hash 7 30 (now + 1000) (now + 12000) 1 5 6 signed_in.1 rotated.1
      (tokens_or rotated.0) rotated_lem (omega arith) refl

abbrev session : PreparedSession
session = prepare_session hash 7 30 now 10 none mobile 8 9

abbrev four : List (ℕ × ℕ)
four = (now, 1) ∷ (now + 10, 2) ∷ (now + 20, 3) ∷ (now + 30, 4) ∷ []

abbrev locked : Store
locked =
    (guess hash same same verify 7 30 session (now + 40, 5)
      (guesses hash same same verify 7 30 session four db)).1

login_lockout_example :
    guess hash same same verify 7 30 session (now + 50, 710) locked
    ≡ (err (unauthorized_error account_locked), locked)
unfolding tables
login_lockout_example =
    login_lockout hash same same verify 7 30 session four (now + 40) (now + 50) 5 710 (user 10 49 1)
      db refl refl refl refl refl (refl, (refl, (refl, (refl, tt)))) refl (omega arith)

abbrev phone : Result Tokens × Store
unfolding code
phone = guess hash same same verify 7 30 session (now, 710) signed_in.1

phone_lem :
    guess hash same same verify 7 30 session (now, 710) signed_in.1
    ≡ (ok (tokens_or phone.0), phone.1)
unfolding code
phone_lem = refl

login_sound_example :
    (u : User) × (user_by_id 10 signed_in.1 ≡ some u)
    × (u.deleted_at ≡ none)
    × (is_locked now u ≡ false)
    × (verify u.password 710 ≡ true)
    × (sanction_failure (sanction_of now u.id signed_in.1) ≡ none)
    × (tokens_or phone.0 ≡ tokens_of session)
    × (live_count (in_slot 10 mobile) phone.1 ≡ 1)
    × ((t : RefreshToken) × (find_first (is_live (in_slot 10 mobile)) phone.1.refresh_tokens
          ≡ some t)
        × IsRowOf session t)
login_sound_example =
    login_sound hash same same verify 7 30 session now 710 signed_in.1 phone.1 (tokens_or phone.0)
      phone_lem

abbrev logged_out : Store
unfolding code
logged_out = (logout hash (now + 5) 10 1 signed_in.1).1

logged_out_lem : logout hash (now + 5) 10 1 signed_in.1 ≡ (ok tt, logged_out)
unfolding code
logged_out_lem = refl

abbrev token : RefreshToken
token = record {
  id = 1000;
  user_id = 10;
  token_hash = 2;
  family = 2;
  platform = web;
  device_info = none;
  session_started_at = now;
  expires_at = now + 604800000;
  revoked_at = none;
  created_at = now;
}

logout-refresh_example :
    (e : BusinessException) × ((refresh hash 7 30 (now + 9) 1 7 logged_out).0 ≡ err e)
unfolding code
logout-refresh_example =
    logout-refresh hash 7 30 (now + 5) (now + 9) 10 1 7 signed_in.1 logged_out token refl refl
      logged_out_lem

abbrev ended : Store
unfolding code
ended = (revoke_session (now + 5) 10 1000 signed_in.1).1

ended_lem : revoke_session (now + 5) 10 1000 signed_in.1 ≡ (ok tt, ended)
unfolding code
ended_lem = refl
