-- ===== src/Api/Preview.antt =====
-- GET /api/scans/[id]/preview: apps/web/app/api/scans/[id]/preview/route.ts.
pub mod Hidden
mod Tests
use geo_readiness.Common.{ℕ, Bool, Option, none, some, not, if◌then◌else◌}
use geo_readiness.Common.Text.{Text, codes}
use geo_readiness.Store.{M, return, ◌>>=◌}
use geo_readiness.Scans.Repository.{ScanStatus, is_uuid, get_scan_status, get_report_by_scan}
use geo_readiness.Report.{ReportDocument}
use geo_readiness.Report.Preview.{PreviewDoc, to_preview_doc}

pub data PreviewAnswer : Type 0 where
  not_found : PreviewAnswer
  completed : PreviewDoc → PreviewAnswer
  running : Text → PreviewAnswer

-- 404, 200 and 202
abbrev pub status_of : PreviewAnswer → ℕ
status_of not_found = 404
status_of (completed doc) = 200
status_of (running status) = 202

abbrev pub running_answer : Option ScanStatus → PreviewAnswer
running_answer none = not_found
running_answer (some s) = running s.status

abbrev pub preview_answer : (Text → ReportDocument) → Text → Option Text → M PreviewAnswer
preview_answer decode id none = do s ← get_scan_status id; return (running_answer s)
preview_answer decode id (some content) = return (completed (to_preview_doc (decode content)))

-- `decode` reads a stored report.
unfoldable pub get_preview : (Text → ReportDocument) → Text → M PreviewAnswer
get_preview decode id =
    if not (is_uuid id)
    then return not_found
    else do content ← get_report_by_scan id; preview_answer decode id content
