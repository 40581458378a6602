-- ===== src/Http.antt =====
-- Answers of the route handlers under apps/web/app/api: the status and the fields of the JSON body
-- that the handlers set.
use geo_readiness.Common.{ℕ, Bool, Option}
use geo_readiness.Common.Text.{Text, codes}
use geo_readiness.Errors.{
  AuthErrorCode, invalid_credentials, email_taken, rate_limited, invalid_token, email_not_verified,
  forbidden,
}

pub data Body : Type 0 where
  error : Text → Body
  received duplicate done already_paid : Body
  url : Text → Body
  started : Text → Text → Bool → Body
  logged_in : Option Text → Bool → Body
  registered : Option Text → Body
  progress : Text → Text → Option Text → ℕ → Body

pub record Response : Type 0 where
  pub status : ℕ
  pub body : Body

abbrev pub answer_with : ℕ → Body → Response
answer_with status body = record { status = status; body = body }

abbrev pub refuse : ℕ → Text → Response
refuse status code = answer_with status (error code)

-- The code of an `AuthError`, as it is answered.
abbrev pub code_text : AuthErrorCode → Text
code_text invalid_credentials = codes "invalid_credentials"
code_text email_taken = codes "email_taken"
code_text rate_limited = codes "rate_limited"
code_text invalid_token = codes "invalid_token"
code_text email_not_verified = codes "email_not_verified"
code_text forbidden = codes "forbidden"
