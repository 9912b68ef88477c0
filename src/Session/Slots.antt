-- ===== src/Session/Slots.antt =====
-- A user has at most one live terminal on each platform.
use wenyouzhan.Common.{
  ℕ, ◌≤◌, ◌≡◌, refl, inl, inr, Bool, true, Bool-cases, Option-cases, Option, none, some, ◌==◌,
  arith, update_first, ltb, is_some, ◌||◌, if◌then◌else◌,
}
use wenyouzhan.Store.{Store}
use wenyouzhan.Store.Keys.{ClientPlatform, web, mobile}
use wenyouzhan.Store.Rows.{RefreshToken, User}
use wenyouzhan.Progression.{user_by_id}
use wenyouzhan.Session.{
  PreparedSession, in_slot, in_family, has_id, same_platform, replace_session, revoke_where,
  new_token, create_session, prepare_session,
}
use wenyouzhan.Session.Counts.{
  live_count, revoke_where_le, revoke_where_none, revoke_where_one, live_count-create_token,
}
use wenyouzhan.Session.Login.{
  login, login_transaction, pass_login, fail_login, account_user, is_user, clear_failures,
}
use wenyouzhan.Session.Refresh.{refresh, refresh_live, rotate, replayed, token_of, next_session}
use wenyouzhan.Session.Terminals.{revoke_some}

abbrev pub OneTerminal : Store → Type 0
OneTerminal s = (u : ℕ) (p : ClientPlatform) → live_count (in_slot u p) s ≤ 1

pub same_platform_sound : (p q : ClientPlatform) → same_platform p q ≡ true → p ≡ q
same_platform_sound web web h = refl
same_platform_sound mobile mobile h = refl
same_platform_sound web mobile h = cc
same_platform_sound mobile web h = cc

revoke_where-OneTerminal :
    (q : RefreshToken → Bool) (now : ℕ) (s : Store)
    → OneTerminal s
    → OneTerminal (revoke_where q now s)
revoke_where-OneTerminal q now s h u p = omega (arith, h u p, revoke_where_le (in_slot u p) q now s)

replace_session-OneTerminal :
    (now : ℕ) (session : PreparedSession) (s : Store)
    → OneTerminal s
    → OneTerminal (replace_session now session s)
unfolding replace_session
replace_session-OneTerminal now session s h u p =
    let mine = in_slot session.user_id session.platform in
    let t = revoke_where mine now s in
    elim (Bool-cases (in_slot u p (new_token now t.next_id session))) [
      | inl same ↦
          (let who : session.user_id ≡ u = ground arith in
            let where_ : session.platform ≡ p =
              same_platform_sound session.platform p (ground arith) in
            let gone : live_count (in_slot u p) t ≡ 0 =
              rw (who, where_) (revoke_where_none (in_slot u p) now s) in
            ground (arith, gone, live_count-create_token (in_slot u p) now session t))
      | inr other ↦ ground (
        arith,
        h u p,
        live_count-create_token (in_slot u p) now session t,
        revoke_where_le (in_slot u p) mine now s,
      )
    ]

-- A session that is created replaces the user's terminal on its platform, so that each user keeps
-- at most one live terminal on each platform.
pub create_session-OneTerminal :
    (hash : ℕ → ℕ) (web_days mobile_days now u : ℕ) (device : Option ℕ) (p : ClientPlatform)
    (raw family : ℕ) (s : Store)
    → OneTerminal s
    → OneTerminal (create_session hash web_days mobile_days now u device p raw family s).1
unfolding create_session
create_session-OneTerminal hash web_days mobile_days now u device p raw family s h v q = ground (
  arith,
  h v q,
  replace_session-OneTerminal now
      (prepare_session hash web_days mobile_days now u device p raw family) s h v q,
)

pass_login-OneTerminal :
    (now : ℕ) (session : PreparedSession) (u : User) (s : Store)
    → OneTerminal s
    → OneTerminal (pass_login now session u s).1
unfolding pass_login
pass_login-OneTerminal now session u s h v q =
    let cleared =
      if ltb 0 u.failed_login_attempts || is_some u.locked_until
      then update_first (is_user u.id) clear_failures s.users
      else s.users in
    ground
      (arith, h v q, replace_session-OneTerminal now session (record s { users = cleared }) h v q)

login_transaction-OneTerminal :
    (hash lower trim : ℕ → ℕ) (verify : ℕ → ℕ → Bool) (web_days mobile_days now password : ℕ)
    (session : PreparedSession) (s : Store)
    → OneTerminal s
    → OneTerminal
        (login_transaction hash lower trim verify web_days mobile_days now password session s).1
unfolding login_transaction fail_login
login_transaction-OneTerminal hash lower trim verify web_days mobile_days now password session s h v
      q =
    elim (Option-cases (user_by_id session.user_id s)) [
      | inl gone ↦ ground (arith, h v q)
      | inr (u, found) ↦ ground (arith, h v q, pass_login-OneTerminal now session u s h v q)
    ]

-- A login, whether it succeeds or fails, keeps each user at no more than one live terminal on each
-- platform.
pub login-OneTerminal :
    (hash lower trim : ℕ → ℕ) (verify : ℕ → ℕ → Bool)
    (web_days mobile_days now account password : ℕ) (device : Option ℕ) (p : ClientPlatform)
    (raw family : ℕ) (s : Store)
    → OneTerminal s
    → OneTerminal
        (login hash lower trim verify web_days mobile_days now account password device p raw family
          s).1
unfolding login
login-OneTerminal hash lower trim verify web_days mobile_days now account password device p raw
      family s h v q =
    elim (Option-cases (account_user hash lower trim verify web_days mobile_days account s)) [
      | inl gone ↦ ground (arith, h v q)
      | inr (w, found) ↦ ground (
        arith,
        login_transaction-OneTerminal hash lower trim verify web_days mobile_days now password
            (prepare_session hash web_days mobile_days now w.id device p raw family) s h v q,
      )
    ]

rotate-OneTerminal :
    (hash : ℕ → ℕ) (web_days mobile_days now raw' key : ℕ) (t : RefreshToken) (s : Store)
    → token_of key s ≡ some t
    → t.revoked_at ≡ none
    → OneTerminal s
    → OneTerminal (rotate hash web_days mobile_days now raw' t s).1
unfolding rotate
rotate-OneTerminal hash web_days mobile_days now raw' key t s found live h v q =
    let fresh = next_session hash web_days mobile_days now raw' t in
    ground (
      arith,
      h v q,
      revoke_where_le (in_slot v q) (has_id t.id) now s,
      revoke_where_le (in_slot v q) (in_family t.user_id t.family) now s,
      revoke_where_one (λ (x : RefreshToken). x.token_hash == key) (in_slot v q) (has_id t.id) now s
          t found (ground arith),
      live_count-create_token (in_slot v q) now fresh (revoke_where (has_id t.id) now s),
    )

-- A refresh, whether it rotates the token or refuses, keeps each user at no more than one live
-- terminal on each platform: the old token is revoked before its successor appears.
pub refresh-OneTerminal :
    (hash : ℕ → ℕ) (web_days mobile_days now raw raw' : ℕ) (s : Store)
    → OneTerminal s
    → OneTerminal (refresh hash web_days mobile_days now raw raw' s).1
unfolding refresh refresh_live replayed
refresh-OneTerminal hash web_days mobile_days now raw raw' s h v q =
    elim (Option-cases (token_of (hash raw) s)) [
      | inl gone ↦ ground (arith, h v q)
      | inr (t, found) ↦ ground (
        arith,
        h v q,
        revoke_where_le (in_slot v q) (in_family t.user_id t.family) now s,
        revoke_where_le (in_slot v q) (has_id t.id) now s,
        λ (live : t.revoked_at ≡ none).
            rotate-OneTerminal hash web_days mobile_days now raw' (hash raw) t s found live h v q,
      )
    ]

revoke_some-OneTerminal :
    (p : RefreshToken → Bool) (now : ℕ) (s : Store)
    → OneTerminal s
    → OneTerminal (revoke_some p now s).1
unfolding revoke_some
revoke_some-OneTerminal p now s h v q = ground (arith, h v q, revoke_where_le (in_slot v q) p now s)
