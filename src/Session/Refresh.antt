-- ===== src/Session/Refresh.antt =====
-- `refresh` (src/auth/auth-session.service.ts).
use wenyouzhan.Common.{
  ℕ, ◌+◌, ◌-◌, Bool, false, Option, none, some, ◌==◌, is_some, ltb, leb, if◌then◌else◌, find_first,
  count_where,
}
use wenyouzhan.ErrorCode.{
  token_invalid, token_theft_detected, token_revoked, token_expired, account_deactivated,
}
use wenyouzhan.Exception.{Result, ok, err, unauthorized_error}
use wenyouzhan.Store.{Store}
use wenyouzhan.Store.Rows.{RefreshToken}
use wenyouzhan.Progression.{user_by_id}
use wenyouzhan.Access.Sanctions.{sanction_failure, sanction_of}
use wenyouzhan.Session.{
  PreparedSession, Tokens, tokens_of, refresh_ttl, is_live, revoke_where, in_family, has_id,
  create_token,
}

-- `REFRESH_REPLAY_GRACE`
abbrev pub replay_grace : ℕ
replay_grace = 10_000

abbrev pub token_of : ℕ → Store → Option RefreshToken
token_of token_hash s = find_first (λ t. t.token_hash == token_hash) s.refresh_tokens

-- `record.user.deletedAt`; the foreign key keeps the user's row there.
abbrev pub user_deleted : ℕ → Store → Bool
user_deleted user_id s = elim (user_by_id user_id s) [
  | none ↦ false
  | some u ↦ is_some u.deleted_at
]

abbrev pub revoke_family : ℕ → RefreshToken → Store → Store
revoke_family now t s = revoke_where (in_family t.user_id t.family) now s

-- `Date.now() - revokedAt > REFRESH_REPLAY_GRACE`; a revocation is never in the future.
abbrev pub outside_grace : ℕ → ℕ → Bool
outside_grace now at = ltb replay_grace (now - at)

-- A token that is revoked already: a replay.
unfoldable pub replayed : ℕ → ℕ → RefreshToken → Store → Result Tokens × Store
replayed now at t s =
    if outside_grace now at
    then (err (unauthorized_error token_theft_detected), revoke_family now t s)
    else (err (unauthorized_error token_revoked), s)

-- `hash` is SHA-256; the days come from the configuration; the new UUID is an argument.
module _ (hash : ℕ → ℕ) (web_days mobile_days : ℕ) where
  -- The next token of the same terminal.
  abbrev pub next_session : ℕ → ℕ → RefreshToken → PreparedSession
  next_session now raw' t = record {
    user_id = t.user_id;
    family = t.family;
    raw_refresh_token = raw';
    token_hash = hash raw';
    platform = t.platform;
    device_info = t.device_info;
    session_started_at = t.session_started_at;
    expires_at = now + refresh_ttl web_days mobile_days t.platform;
  }

  -- From the conditional revocation on.
  unfoldable pub rotate : ℕ → ℕ → RefreshToken → Store → Result Tokens × Store
  rotate now raw' t s =
      if count_where (is_live (has_id t.id)) s.refresh_tokens == 0
      then (err (unauthorized_error token_revoked), revoke_family now t s)
      else (
        ok (tokens_of (next_session now raw' t)),
        create_token now (next_session now raw' t) (revoke_where (has_id t.id) now s),
      )

  -- A token that is not revoked.
  unfoldable pub refresh_live : ℕ → ℕ → RefreshToken → Store → Result Tokens × Store
  refresh_live now raw' t s =
      if leb t.expires_at now
      then (err (unauthorized_error token_expired), revoke_where (has_id t.id) now s)
      else if user_deleted t.user_id s
      then (err (unauthorized_error account_deactivated), revoke_family now t s)
      else rotate now raw' t s

  -- The transaction on the record that it finds. The lookup before it gives the same error
  -- where there is none.
  unfoldable pub refresh : ℕ → ℕ → ℕ → Store → Result Tokens × Store
  refresh now raw raw' s = elim (token_of (hash raw) s) [
    | none ↦ (err (unauthorized_error token_invalid), s)
    | some t ↦ elim (sanction_failure (sanction_of now t.user_id s)) [
      | some code ↦ (err (unauthorized_error code), revoke_family now t s)
      | none ↦ elim t.revoked_at [
        | some at ↦ replayed now at t s
        | none ↦ refresh_live now raw' t s
      ]
    ]
  ]
