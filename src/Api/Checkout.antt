-- ===== src/Api/Checkout.antt =====
-- POST /api/checkout: apps/web/app/api/checkout/route.ts.
pub mod Unpaid
mod Tests
use geo_readiness.Common.{Bool, true, false, Option, none, some, [], ◌++◌, not, if◌then◌else◌}
use geo_readiness.Common.Text.{Text, codes, is_empty}
use geo_readiness.Errors.{
  Outcome, ok, err, Error, auth_error, domain_error, weak_password, unique_violation, query_failed,
  bad_body, not_configured, forbidden,
}
use geo_readiness.Http.{Response, answer_with, refuse, already_paid, url, code_text}
use geo_readiness.Store.{World, M, return, throw, ◌>>=◌}
use geo_readiness.Auth.Origin.{Web, Headers, passes_origin}
use geo_readiness.Scans.Repository.{is_uuid}
use geo_readiness.Payments.{Env, has_entitlement}
use geo_readiness.Payments.Stripe.{Stripe}
use geo_readiness.Payments.Checkout.{CheckoutResult, opened, unconfigured, create_checkout_session}
use geo_readiness.Api.Unlock.{Json, unreadable, no_text, text, Request}

-- A body without a text `scanId` reads as one with the empty text.
abbrev pub scan_id_of : Json → Outcome Text
scan_id_of unreadable = err bad_body
scan_id_of no_text = ok []
scan_id_of (text id) = ok id

abbrev host_origin : Option Text → Text
host_origin none = []
host_origin (some host) = if is_empty host then [] else codes "https://" ++ host

abbrev pub origin_of : Headers → Text
origin_of h = elim h.origin [ none ↦ host_origin h.host | some o ↦ o ]

abbrev pub checkout_response : Outcome CheckoutResult → M Response
checkout_response (ok (opened link)) = return (answer_with 200 (url link))
checkout_response (ok unconfigured) = return (refuse 503 (codes "not_configured"))
checkout_response (err e) = throw e

abbrev pub open_unless_paid : Env → Stripe → Text → Text → Bool → M Response
open_unless_paid env stripe id origin paid =
    if paid
    then return (answer_with 200 already_paid)
    else checkout_response (create_checkout_session env stripe id origin)

abbrev pub check_out_id : Env → Stripe → Headers → Outcome Text → M Response
check_out_id env stripe headers (err e) = throw e
check_out_id env stripe headers (ok id) =
    if not (is_uuid id)
    then return (refuse 404 (codes "not_found"))
    else do paid ← has_entitlement id; open_unless_paid env stripe id (origin_of headers) paid

unfoldable pub check_out : Env → Stripe → Web → Request → M Response
check_out env stripe web req =
    if not (passes_origin web req.headers)
    then throw (auth_error forbidden)
    else check_out_id env stripe req.headers (scan_id_of req.body)

abbrev pub failure : Error → Response
failure (auth_error code) = refuse 403 (code_text code)
failure (domain_error p) = refuse 500 (codes "server_error")
failure weak_password = refuse 500 (codes "server_error")
failure unique_violation = refuse 500 (codes "server_error")
failure query_failed = refuse 500 (codes "server_error")
failure bad_body = refuse 500 (codes "server_error")
failure not_configured = refuse 500 (codes "server_error")

abbrev pub caught_checkout : Outcome Response × World → Response × World
caught_checkout (ok r, w) = (r, w)
caught_checkout (err e, w) = (failure e, w)

unfoldable pub post_checkout : Env → Stripe → Web → Request → World → Response × World
post_checkout env stripe web req w = caught_checkout (check_out env stripe web req w)
