-- ===== src/Access/Sanctions.antt =====
-- Sanctions in force (src/access/account-status.ts).
use wenyouzhan.Common.{
  ℕ, Bool, true, false, ◌&&◌, Option, none, some, ◌==◌, leb, ltb, is_none, find_first,
}
use wenyouzhan.ErrorCode.{ErrorCode, account_banned, account_suspended}
use wenyouzhan.Store.{Store}
use wenyouzhan.Store.Keys.{ban, suspension, SanctionType}
use wenyouzhan.Store.Rows.{UserSanction}

abbrev lasts : SanctionType → Option ℕ → ℕ → Bool
lasts ban ends now = true
lasts suspension none now = false
lasts suspension (some ends) now = ltb now ends

-- `activeSanctionWhere(now)`; `endsAt: { gt: now }` does not hold of NULL.
unfoldable pub active_sanction : ℕ → UserSanction → Bool
active_sanction now x = is_none x.revoked_at && (leb x.starts_at now && lasts x.kind x.ends_at now)

-- `sanctionFailure`: the code of the refusal.
unfoldable pub sanction_failure : Option UserSanction → Option ErrorCode
sanction_failure none = none
sanction_failure (some x) = elim x.kind [
  | ban ↦ some account_banned
  | suspension ↦ some account_suspended
]

-- The sanction that the session service reads: the first active one of the user.
abbrev pub sanction_of : ℕ → ℕ → Store → Option UserSanction
sanction_of now user_id s =
    find_first (λ x. x.user_id == user_id && active_sanction now x) s.sanctions
