-- ===== src/Api/Preview/Tests.antt =====
-- The free views at a concrete input.
use geo_readiness.Common.{◌≡◌, refl, [], ◌∷◌}
use geo_readiness.Common.Text.{Text, codes, lower, split_on}
use geo_readiness.Errors.{ok}
use geo_readiness.Store.{Db, calm, query}
use geo_readiness.Scans.Repository.{is_uuid, get_report_by_scan, get_scan_status}
use geo_readiness.Report.Preview.{to_preview_doc}
use geo_readiness.Report.Sample.{acme}
use geo_readiness.Pages.{Documents, scan_page}
use geo_readiness.Pages.Gate.{hidden_documents}
use geo_readiness.Api.Preview.{get_preview, completed, not_found}
use geo_readiness.Api.Preview.Hidden.{previews-hide}

previews : Unit {0}
unfolding query lower split_on is_uuid get_report_by_scan get_scan_status get_preview
previews = tt

abbrev scan_id : Text
scan_id = codes "0b7e3a52-9c1d-4e5f-8a6b-0123456789ab"

abbrev db : Db
db = record {
  payments = [];
  stripe_events = [];
  projects = [];
  scans = [];
  login_attempts = [];
  users = [];
  organizations = [];
  jobs = [];
  reports =
      record {
        id = codes "r";
        organization_id = codes "o";
        project_id = codes "p";
        depth = codes "full";
        scan_id = scan_id;
        content = codes "{}";
        created_at = 1;
      }
      ∷ [];
  credentials = [];
  members = [];
  sessions = [];
  verification_tokens = [];
}

abbrev docs : Documents
docs = record { example = acme; decode = λ t. acme }

test_preview :
    ((get_preview docs.decode scan_id (calm 5 db)).0 ≡ ok (completed (to_preview_doc acme)))
    × ((get_preview docs.decode (codes "x") (calm 5 db)).0 ≡ ok not_found)
unfolding previews
test_preview = (refl, refl)

previews-hide_example :
    (scan_page (hidden_documents docs) scan_id (calm 5 db) ≡ scan_page docs scan_id (calm 5 db))
    × (get_preview (hidden_documents docs).decode scan_id (calm 5 db)
        ≡ get_preview docs.decode scan_id (calm 5 db))
previews-hide_example = previews-hide docs scan_id (calm 5 db)
