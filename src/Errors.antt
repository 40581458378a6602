-- ===== src/Errors.antt =====
-- What the server code throws: `AuthError` of apps/web/lib/auth/errors.ts, `InvalidDomainError` of
-- apps/web/lib/scans/domain.ts, and the failures of a password, of a query and of a request body.
use geo_readiness.Common.{Option, none, some}

pub data AuthErrorCode : Type 0 where
  invalid_credentials email_taken rate_limited invalid_token email_not_verified forbidden :
      AuthErrorCode

pub data DomainProblem : Type 0 where
  empty invalid_url invalid_domain no_raw_ip : DomainProblem

pub data Error : Type 0 where
  auth_error : AuthErrorCode → Error
  domain_error : DomainProblem → Error
  weak_password : Error
  unique_violation : Error
  query_failed : Error
  bad_body : Error
  not_configured : Error

-- The outcome of a call that may throw.
pub data Outcome {ℓ} (A : Type ℓ) : Type ℓ where
  ok : A → Outcome A
  err : Error → Outcome A

-- A value, or the error where there is none.
abbrev pub or_throw {ℓ} : {A : Type ℓ} → Option A → Error → Outcome A
or_throw none e = err e
or_throw (some a) e = ok a
