-- ===== src/Pages.antt =====
-- Pages that read the data base: apps/web/app/report/[id]/page.tsx and apps/web/app/scan/[id]/page.tsx.
-- What the browser is sent is a value; the rendering is left out. The data base driver's reading of
-- a stored report is a parameter, and so is the example report.
pub mod Gate
pub mod Pending
pub mod History
mod Tests
use geo_readiness.Common.{ℕ, Bool, true, false, Option, none, some, ◌++◌, not, if◌then◌else◌}
use geo_readiness.Common.Text.{Text, codes, text_eq, is_empty}
use geo_readiness.Common.Words.{show_number}
use geo_readiness.Errors.{Outcome}
use geo_readiness.Store.{World, M, return, ◌>>=◌}
use geo_readiness.Scans.Repository.{ScanStatus, is_uuid, get_scan_status, get_report_by_scan}
use geo_readiness.Payments.{Env, has_entitlement}
use geo_readiness.Payments.Stripe.{Stripe}
use geo_readiness.Payments.Checkout.{confirm_checkout_session}
use geo_readiness.Report.{ReportDocument, round}
use geo_readiness.Report.Preview.{PreviewDoc, to_preview_doc}

pub data Page : Type 0 where
  full_report : ReportDocument → Text → Page
  preview_report : PreviewDoc → Text → Page
  scan_pending : Text → Text → Page
  not_found : Page
  redirect : Text → Page

-- `demo`
abbrev pub is_demo : Text → Bool
is_demo id = text_eq id (codes "demo")

abbrev pub pending_page : Text → Option ScanStatus → Page
pending_page id none = not_found
pending_page id (some s) = scan_pending id s.status

abbrev pub wait_for : Text → M Page
wait_for id = do s ← get_scan_status id; return (pending_page id s)

-- The documents that the pages show: the example, and the stored ones as the driver reads them.
pub record Documents : Type 0 where
  pub example : ReportDocument
  pub decode : Text → ReportDocument

module _ (docs : Documents) where
  -- `if (session_id) entitled = await confirmCheckoutSession(id, session_id)`
  abbrev pub confirmed : Env → Stripe → Text → Option Text → M Bool
  confirmed env stripe id none = return false
  confirmed env stripe id (some session_id) =
      if is_empty session_id
      then return false
      else confirm_checkout_session env stripe id session_id

  abbrev pub unlocked : Env → Stripe → Text → Option Text → Bool → M Bool
  unlocked env stripe id session_id entitled =
      if entitled then return true else confirmed env stripe id session_id

  abbrev pub gate : Text → Text → Bool → Page
  gate id content entitled =
      if entitled then full_report (docs.decode content) id else redirect (codes "/scan/" ++ id)

  abbrev pub report_or_wait : Env → Stripe → Text → Option Text → Option Text → M Page
  report_or_wait env stripe id session_id none = wait_for id
  report_or_wait env stripe id session_id (some content) = do
    paid ← has_entitlement id
    entitled ← unlocked env stripe id session_id paid
    return (gate id content entitled)

  unfoldable pub report_page : Env → Stripe → Text → Option Text → M Page
  report_page env stripe id session_id =
      if is_demo id
      then return (full_report docs.example (codes "demo"))
      else if not (is_uuid id)
      then return not_found
      else do content ← get_report_by_scan id; report_or_wait env stripe id session_id content

  abbrev pub preview_gate : Text → Text → Bool → Page
  preview_gate id content entitled =
      if entitled
      then redirect (codes "/report/" ++ id)
      else preview_report (to_preview_doc (docs.decode content)) id

  abbrev pub preview_or_wait : Text → Option Text → M Page
  preview_or_wait id none = wait_for id
  preview_or_wait id (some content) = do
    entitled ← has_entitlement id
    return (preview_gate id content entitled)

  unfoldable pub scan_page : Text → M Page
  scan_page id =
      if is_demo id
      then return (preview_report (to_preview_doc docs.example) (codes "demo"))
      else if not (is_uuid id)
      then return not_found
      else do content ← get_report_by_scan id; preview_or_wait id content
