-- ===== src/Session/Opened.antt =====
-- The row that a login leaves live.
use wenyouzhan.Common.{
  ℕ, ◌≡◌, refl, Bool, true, ◌||◌, none, some, List, [], ◌∷◌, arith, is_some, ltb, update_first,
  update_where, find_first, find_first-insert-none, tables, if◌then◌else◌,
}
use wenyouzhan.Exception.{ok}
use wenyouzhan.Store.{Store}
use wenyouzhan.Store.Keys.{ClientPlatform, web, mobile}
use wenyouzhan.Store.Rows.{User, RefreshToken}
use wenyouzhan.Access.Sanctions.{sanction_failure, sanction_of}
use wenyouzhan.Session.{
  PreparedSession, in_slot, is_live, new_token, revoke, same_platform, replace_session,
  revoke_where, Tokens, tokens_of,
}
use wenyouzhan.Session.Counts.{live_count, revoke_where_none, live_count-create_token}
use wenyouzhan.Session.Login.{pass_login, is_user, clear_failures}

revoked_absent :
    (p : RefreshToken → Bool) (now : ℕ) (rows : List RefreshToken)
    → find_first (is_live p) (update_where (is_live p) (revoke now) rows) ≡ none
unfolding tables
revoked_absent p now [] = refl
revoked_absent p now (t ∷ rows) = ground (arith, revoked_absent p now rows)

same_platform_self : (p : ClientPlatform) → same_platform p p ≡ true
same_platform_self web = refl
same_platform_self mobile = refl

replace_session-one :
    (now : ℕ) (session : PreparedSession) (s : Store)
    → live_count (in_slot session.user_id session.platform) (replace_session now session s) ≡ 1
unfolding replace_session
replace_session-one now session s =
    let mine = in_slot session.user_id session.platform in
    let mid = revoke_where mine now s in
    ground (
      arith,
      same_platform_self session.platform,
      revoke_where_none mine now s,
      live_count-create_token mine now session mid,
    )

-- The new session's row is the live one that is found for the terminal.
replace_session-found :
    (now : ℕ) (session : PreparedSession) (s : Store)
    → find_first
        (is_live (in_slot session.user_id session.platform))
        (replace_session now session s).refresh_tokens
      ≡ some (new_token now s.next_id session)
unfolding replace_session
replace_session-found now session s =
    let mine = in_slot session.user_id session.platform in
    let mid = revoke_where mine now s in
    ground (
      arith,
      same_platform_self session.platform,
      find_first-insert-none (is_live mine) mid.refresh_tokens (new_token now s.next_id session)
          (revoked_absent mine now s.refresh_tokens),
    )

-- The new session's row: its token's hash, its family, its beginning and its end.
abbrev pub IsRowOf : PreparedSession → RefreshToken → Type 0
IsRowOf session t =
    (t.user_id ≡ session.user_id)
    × (t.platform ≡ session.platform)
    × (t.token_hash ≡ session.token_hash)
    × (t.family ≡ session.family)
    × (t.session_started_at ≡ session.session_started_at)
    × (t.expires_at ≡ session.expires_at)

pub pass_login-found :
    (now : ℕ) (session : PreparedSession) (u : User) (s s' : Store) (r : Tokens)
    → pass_login now session u s ≡ (ok r, s')
    → (t : RefreshToken) × (find_first
          (is_live (in_slot session.user_id session.platform))
          s'.refresh_tokens
        ≡ some t)
      × IsRowOf session t
unfolding pass_login
pass_login-found now session u s s' r h =
    let cleared =
      if ltb 0 u.failed_login_attempts || is_some u.locked_until
      then update_first (is_user u.id) clear_failures s.users
      else s.users in
    let done = record s { users = cleared } in
    (
      new_token now s.next_id session,
      ground (arith, replace_session-found now session done),
      (refl, refl, refl, refl, refl, refl),
    )

pub pass_login-ok :
    (now : ℕ) (session : PreparedSession) (u : User) (s s' : Store) (r : Tokens)
    → pass_login now session u s ≡ (ok r, s')
    → (sanction_failure (sanction_of now u.id s) ≡ none)
      × (r ≡ tokens_of session)
      × (live_count (in_slot session.user_id session.platform) s' ≡ 1)
unfolding pass_login
pass_login-ok now session u s s' r h =
    let cleared =
      if ltb 0 u.failed_login_attempts || is_some u.locked_until
      then update_first (is_user u.id) clear_failures s.users
      else s.users in
    ground (arith, replace_session-one now session (record s { users = cleared }))
