-- ===== src/Exception.antt =====
-- `BusinessException` and its factories (src/common/exceptions/business.exception.ts): the code
-- and the HTTP status. The Chinese message texts are left out.
use wenyouzhan.Common.{ℕ, ◌≡◌, refl, ◌⊎◌, inl, inr}
use wenyouzhan.ErrorCode.{ErrorCode}

pub record BusinessException : Type 0 where
  pub error_code : ErrorCode
  pub status : ℕ

abbrev pub business : ErrorCode → ℕ → BusinessException
business code status = record { error_code = code; status = status }

abbrev pub not_found_error : ErrorCode → BusinessException
not_found_error code = business code 404

abbrev pub forbidden_error : ErrorCode → BusinessException
forbidden_error code = business code 403

abbrev pub unauthorized_error : ErrorCode → BusinessException
unauthorized_error code = business code 401

-- The constructor's default status.
abbrev pub bad_request_error : ErrorCode → BusinessException
bad_request_error code = business code 400

-- What a call that may throw gives back.
pub data Result {ℓ} (A : Type ℓ) : Type ℓ where
  ok : A → Result A
  err : BusinessException → Result A

pub Result-cases {ℓ} :
    {A : Type ℓ} (r : Result A) → ((a : A) × (r ≡ ok a)) ⊎ ((e : BusinessException) × (r ≡ err e))
Result-cases (ok a) = inl (a, refl)
Result-cases (err e) = inr (e, refl)
