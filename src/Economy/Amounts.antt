-- ===== src/Economy/Amounts.antt =====
-- Tip amounts (src/economy/economy.constants.ts and `parseAmount` of economy.service.ts).
use wenyouzhan.Common.{
  ℕ, ◌+◌, ◌-◌, ◌*◌, ◌/◌, ◌≤◌, ◌<◌, ◌≡◌, ◌↔◌, Option, none, some, ◌||◌, if◌then◌else◌, arith,
}
use wenyouzhan.Common.Int.{ℤ, pos, ltb_ℤ, pos_part}
use wenyouzhan.ErrorCode.{invalid_wenyou_amount}
use wenyouzhan.Exception.{Result, ok, err, bad_request_error}

pub record TipSplit : Type 0 where
  pub recipient_amount : ℕ
  pub platform_amount : ℕ

unfoldable pub split_tip_amount : ℕ → TipSplit
split_tip_amount gross = record {
  recipient_amount = gross * 85 / 100;
  platform_amount = gross - gross * 85 / 100;
}

abbrev pub max_bigint : ℕ
max_bigint = 9_223_372_036_854_775_807

-- The argument is what the built-in `BigInt` reads in the text, `none` where it throws.
unfoldable pub parse_amount : Option ℤ → Result ℕ
parse_amount none = err (bad_request_error invalid_wenyou_amount)
parse_amount (some amount) =
    if ltb_ℤ amount (pos 2) || ltb_ℤ (pos max_bigint) amount
    then err (bad_request_error invalid_wenyou_amount)
    else ok (pos_part amount)

-- A tip is split with no remainder: the two parts add up to the amount, the recipient's part is 85%
-- of it rounded down, and of an amount that `parseAmount` lets through each side gets at least 1.
pub split_tip_amount_sound :
    (input : Option ℤ) (amount : ℕ)
    → parse_amount input ≡ ok amount
    → let split = split_tip_amount amount in
      (split.recipient_amount + split.platform_amount ≡ amount)
      × (100 * split.recipient_amount ≤ 85 * amount)
      × (85 * amount < 100 * (split.recipient_amount + 1))
      × (1 ≤ split.recipient_amount)
      × (1 ≤ split.platform_amount)
unfolding split_tip_amount parse_amount
split_tip_amount_sound input amount h = ground arith

-- An amount is accepted exactly when it is a whole number from 2 to the largest 64-bit integer.
pub parse_amount-eq-ok_iff :
    (input : Option ℤ) (amount : ℕ)
    → (parse_amount input ≡ ok amount)
      ↔ ((input ≡ some (pos amount)) × (2 ≤ amount) × (amount ≤ max_bigint))
unfolding parse_amount
parse_amount-eq-ok_iff input amount = ground arith
