-- ===== src/Session/Terminals.antt =====
-- `logout`, `listSessions` and `revokeSession` (src/auth/auth-session.service.ts).
use wenyouzhan.Common.{
  ℕ, Bool, ◌&&◌, ◌||◌, Option, none, some, List, [], ◌∷◌, ◌==◌, is_value, is_none, ltb, leb,
  if◌then◌else◌, count_where,
}
use wenyouzhan.ErrorCode.{session_not_found}
use wenyouzhan.Exception.{Result, ok, err, unauthorized_error}
use wenyouzhan.Store.{Store}
use wenyouzhan.Store.Keys.{ClientPlatform}
use wenyouzhan.Store.Rows.{RefreshToken}
use wenyouzhan.Session.{is_live, revoke_where, in_family}

abbrev pub is_token : ℕ → ℕ → RefreshToken → Bool
is_token user_id token_hash t = t.user_id == user_id && t.token_hash == token_hash

-- `revokedAt: null` under a condition, and the error where no row has it.
unfoldable pub revoke_some : (RefreshToken → Bool) → ℕ → Store → Result (Unit {0}) × Store
revoke_some p now s =
    if count_where (is_live p) s.refresh_tokens == 0
    then (err (unauthorized_error session_not_found), s)
    else (ok tt, revoke_where p now s)

-- `logout`
module _ (hash : ℕ → ℕ) where
  unfoldable pub logout : ℕ → ℕ → ℕ → Store → Result (Unit {0}) × Store
  logout now user_id raw s = revoke_some (is_token user_id (hash raw)) now s

-- `orderBy: { createdAt: 'desc' }` with a limit of one row.
unfoldable pub latest : (RefreshToken → Bool) → List RefreshToken → Option RefreshToken
latest p [] = none
latest p (t ∷ ts) =
    let rest = latest p ts in
    if p t
    then elim rest [
      | none ↦ some t
      | some x ↦ if ltb t.created_at x.created_at then some x else some t
    ]
    else rest

abbrev pub is_terminal : ℕ → ℕ → RefreshToken → Bool
is_terminal user_id session_id t =
    t.user_id == user_id && (t.family == session_id || t.id == session_id)

-- `revokeSession`
unfoldable pub revoke_session : ℕ → ℕ → ℕ → Store → Result (Unit {0}) × Store
revoke_session now user_id session_id s =
    elim (latest (is_terminal user_id session_id) s.refresh_tokens) [
      | none ↦ (err (unauthorized_error session_not_found), s)
      | some t ↦ revoke_some (in_family user_id t.family) now s
    ]

pub record SessionView : Type 0 where
  pub id : ℕ
  pub platform : ClientPlatform
  pub device_info : Option ℕ
  pub is_current : Bool
  pub signed_in_at : ℕ
  pub last_active_at : ℕ
  pub expires_at : ℕ
  pub created_at : ℕ

abbrev pub session_view : Option ℕ → Option ℕ → RefreshToken → SessionView
session_view current_id current_hash t = record {
  id = t.family;
  platform = t.platform;
  device_info = t.device_info;
  is_current = is_value current_id t.family || is_value current_hash t.token_hash;
  signed_in_at = t.session_started_at;
  last_active_at = t.created_at;
  expires_at = t.expires_at;
  created_at = t.session_started_at;
}

-- Newest first.
unfoldable pub insert_by_age : SessionView → List SessionView → List SessionView
insert_by_age v [] = v ∷ []
insert_by_age v (w ∷ ws) =
    let rest = insert_by_age v ws in
    if leb w.last_active_at v.last_active_at then v ∷ w ∷ ws else w ∷ rest

abbrev pub is_active_session : ℕ → ℕ → RefreshToken → Bool
is_active_session now user_id t =
    t.user_id == user_id && (is_none t.revoked_at && ltb now t.expires_at)

unfoldable pub views : ℕ → ℕ → Option ℕ → Option ℕ → List RefreshToken → List SessionView
views now user_id current_id current_hash [] = []
views now user_id current_id current_hash (t ∷ ts) =
    let rest = views now user_id current_id current_hash ts in
    if is_active_session now user_id t
    then insert_by_age (session_view current_id current_hash t) rest
    else rest

-- `listSessions`; the hash of the current refresh token, where there is one.
unfoldable pub list_sessions : ℕ → ℕ → Option ℕ → Option ℕ → Store → List SessionView
list_sessions now user_id current_id current_hash s =
    views now user_id current_id current_hash s.refresh_tokens
