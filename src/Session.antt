-- ===== src/Session.antt =====
-- Login sessions (src/auth/auth-session.service.ts). A call of the service takes the instant at
-- which it runs, which stands for every `new Date()` in it. A transaction that finds a fault
-- commits what it wrote and the error is thrown after it, so a call gives its answer and the
-- database that it leaves. Row locks are left out.
pub mod Login
pub mod Refresh
pub mod Terminals
pub mod Counts
pub mod Slots
pub mod Rotation
pub mod Opened
pub mod Lockout
pub mod Ends
use wenyouzhan.Common.{
  ℕ, ◌+◌, ◌*◌, Bool, true, false, ◌&&◌, Option, none, some, List, ◌==◌, is_none, count_where,
  insert, update_where,
}
use wenyouzhan.Exception.{Result, ok, err, unauthorized_error}
use wenyouzhan.Store.{Store}
use wenyouzhan.Store.Keys.{ClientPlatform, web, mobile}
use wenyouzhan.Store.Rows.{RefreshToken}
use wenyouzhan.Access.Sanctions.{sanction_failure, sanction_of}

-- The answer of a call and the database after it.
abbrev pub Ended : Type 0 → Type 0
Ended A = Result A × Store

abbrev pub day : ℕ
day = 86_400_000

-- `refreshTtl`, with the two configured numbers of days.
unfoldable pub refresh_ttl : ℕ → ℕ → ClientPlatform → ℕ
refresh_ttl web_days mobile_days web = web_days * day
refresh_ttl web_days mobile_days mobile = mobile_days * day

abbrev pub same_platform : ClientPlatform → ClientPlatform → Bool
same_platform web web = true
same_platform mobile mobile = true
same_platform web mobile = false
same_platform mobile web = false

pub record PreparedSession : Type 0 where
  pub user_id : ℕ
  pub family : ℕ
  pub raw_refresh_token : ℕ
  pub token_hash : ℕ
  pub platform : ClientPlatform
  pub device_info : Option ℕ
  pub session_started_at : ℕ
  pub expires_at : ℕ

-- `revokedAt: null` with a further condition.
abbrev pub is_live : (RefreshToken → Bool) → RefreshToken → Bool
is_live p t = p t && is_none t.revoked_at

abbrev pub revoke : ℕ → RefreshToken → RefreshToken
revoke now t = record t { revoked_at = some now }

-- `updateMany({ where: { ..., revokedAt: null }, data: { revokedAt: new Date() } })`
abbrev pub revoke_where : (RefreshToken → Bool) → ℕ → Store → Store
revoke_where p now s = record s {
  refresh_tokens = update_where (is_live p) (revoke now) s.refresh_tokens;
}

-- The terminal's slot: the tokens of a user on a platform.
abbrev pub in_slot : ℕ → ClientPlatform → RefreshToken → Bool
in_slot user_id platform t = t.user_id == user_id && same_platform t.platform platform

abbrev pub in_family : ℕ → ℕ → RefreshToken → Bool
in_family user_id family t = t.user_id == user_id && t.family == family

abbrev pub has_id : ℕ → RefreshToken → Bool
has_id id t = t.id == id

-- A new row; its `createdAt` is the instant of the call.
abbrev pub new_token : ℕ → ℕ → PreparedSession → RefreshToken
new_token now id session = record {
  id = id;
  user_id = session.user_id;
  token_hash = session.token_hash;
  family = session.family;
  platform = session.platform;
  device_info = session.device_info;
  session_started_at = session.session_started_at;
  expires_at = session.expires_at;
  revoked_at = none;
  created_at = now;
}

abbrev pub create_token : ℕ → PreparedSession → Store → Store
create_token now session s = record s {
  refresh_tokens = insert (new_token now s.next_id session) s.refresh_tokens;
  next_id = s.next_id + 1;
}

-- `replaceSession`
unfoldable pub replace_session : ℕ → PreparedSession → Store → Store
replace_session now session s =
    create_token now session (revoke_where (in_slot session.user_id session.platform) now s)

-- What `signAsync` signs, and the raw refresh token.
pub record Tokens : Type 0 where
  pub sub : ℕ
  pub sid : ℕ
  pub refresh_token : ℕ

abbrev pub tokens_of : PreparedSession → Tokens
tokens_of session = record {
  sub = session.user_id;
  sid = session.family;
  refresh_token = session.raw_refresh_token;
}

-- `hash` is SHA-256; the days come from the configuration; the two UUIDs are arguments.
module _ (hash : ℕ → ℕ) (web_days mobile_days : ℕ) where
  -- `prepareSession`
  abbrev pub prepare_session : ℕ → ℕ → Option ℕ → ClientPlatform → ℕ → ℕ → PreparedSession
  prepare_session now user_id device_info platform raw family = record {
    user_id = user_id;
    family = family;
    raw_refresh_token = raw;
    token_hash = hash raw;
    platform = platform;
    device_info = device_info;
    session_started_at = now;
    expires_at = now + refresh_ttl web_days mobile_days platform;
  }

  -- `createSession`: here the error is thrown inside the transaction.
  unfoldable pub create_session : ℕ → ℕ → Option ℕ → ClientPlatform → ℕ → ℕ → Store → Ended Tokens
  create_session now user_id device_info platform raw family s =
      let session = prepare_session now user_id device_info platform raw family in
      elim (sanction_failure (sanction_of now user_id s)) [
        | some code ↦ (err (unauthorized_error code), s)
        | none ↦ (ok (tokens_of session), replace_session now session s)
      ]
