-- ===== src/Api/Preview/Hidden.antt =====
-- The free views of a scan: the preview route and the page of a scan,
-- apps/web/app/api/scans/[id]/preview/route.ts and apps/web/app/scan/[id]/page.tsx.
use geo_readiness.Common.{◌≡◌, refl, ap, Option, none, some, Bool-cases, inl, inr}
use geo_readiness.Common.Text.{Text}
use geo_readiness.Store.{World, return}
use geo_readiness.Scans.Repository.{is_uuid, get_report_by_scan}
use geo_readiness.Report.{ReportDocument}
use geo_readiness.Report.Preview.Redacted.{hide, to_preview_doc-hide}
use geo_readiness.Pages.{Documents, scan_page}
use geo_readiness.Pages.Gate.{hidden_documents, scan_page-hide, and_then-same}
use geo_readiness.Api.Preview.{get_preview, preview_answer, completed}

preview_answer-hide :
    (decode : Text → ReportDocument) (id : Text) (content : Option Text) (w : World)
    → preview_answer (λ t. hide (decode t)) id content w ≡ preview_answer decode id content w
preview_answer-hide decode id none w = refl
preview_answer-hide decode id (some content) w =
    ap (λ p. return (completed p) w) (to_preview_doc-hide (decode content))

get_preview-hide :
    (decode : Text → ReportDocument) (id : Text) (w : World)
    → get_preview (λ t. hide (decode t)) id w ≡ get_preview decode id w
unfolding get_preview
get_preview-hide decode id w = elim (Bool-cases (is_uuid id)) [
  | inl u ↦ rw u (and_then-same _ _ (get_report_by_scan id w) (preview_answer-hide decode id))
  | inr u ↦ rw u refl
]

-- Whatever the tables hold and whatever queries fail, the page of a scan and its preview route
-- answer as they would if the example and the stored reports had lost their paid parts: the fix
-- prompts, all of the actions that are not of the top rule, the stages, the diagnostics, the
-- strengths and gaps, the profile but for the brand and the languages, the clusters but for their
-- intents, priorities and questions, the crawl but for the verdicts on AI crawlers.
pub previews-hide :
    (docs : Documents) (id : Text) (w : World)
    → (scan_page (hidden_documents docs) id w ≡ scan_page docs id w)
      × (get_preview (hidden_documents docs).decode id w ≡ get_preview docs.decode id w)
previews-hide docs id w = (scan_page-hide docs id w, get_preview-hide docs.decode id w)
