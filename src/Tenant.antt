-- ===== src/Tenant.antt =====
-- Access to data by organization: apps/web/lib/tenant/repository.ts.
pub mod Isolation
mod Tests
use geo_readiness.Common.{ℕ, Bool, Option, none, some, List, ◌&&◌, keep, map, head?}
use geo_readiness.Common.Text.{Text}
use geo_readiness.Errors.{forbidden, auth_error}
use geo_readiness.Store.{uuid_eq, Project, Report, Db, M, return, throw, ◌>>=◌, select}

pub record Membership : Type 0 where
  pub organization_id : Text
  pub role : Text

unfoldable pub get_user_organizations : Text → M (List Membership)
get_user_organizations user_id = select (λ now db.
    map (λ m. record { organization_id = m.organization_id; role = m.role })
      (keep (λ m. uuid_eq m.user_id user_id) db.members))

abbrev pub membership_of : Text → Text → Db → Option Membership
membership_of user_id org_id db = head? (
    map (λ m. record { organization_id = m.organization_id; role = m.role })
      (keep (λ m. uuid_eq m.user_id user_id && uuid_eq m.organization_id org_id) db.members))

abbrev pub or_forbidden : Option Membership → M Membership
or_forbidden none = throw (auth_error forbidden)
or_forbidden (some m) = return m

unfoldable pub require_membership : Text → Text → M Membership
require_membership user_id org_id = do
  row ← select (λ now db. membership_of user_id org_id db)
  or_forbidden row

-- A row of `projects`, and of `reports` without its content.
pub record ProjectRow : Type 0 where
  pub id : Text
  pub organization_id : Text
  pub canonical_domain : Text
  pub status : Text

pub record ReportRow : Type 0 where
  pub id : Text
  pub organization_id : Text
  pub project_id : Text
  pub scan_id : Text
  pub depth : Text

abbrev pub project_row : Project → ProjectRow
project_row p = record {
  id = p.id;
  organization_id = p.organization_id;
  canonical_domain = p.canonical_domain;
  status = p.status;
}

abbrev pub report_row : Report → ReportRow
report_row r = record {
  id = r.id;
  organization_id = r.organization_id;
  project_id = r.project_id;
  scan_id = r.scan_id;
  depth = r.depth;
}

unfoldable pub get_project_for_org : Text → Text → M (Option ProjectRow)
get_project_for_org org_id project_id = select (λ now db. head? (
    map project_row
      (keep (λ p. uuid_eq p.id project_id && uuid_eq p.organization_id org_id) db.projects)))

unfoldable pub get_report_for_org : Text → Text → M (Option ReportRow)
get_report_for_org org_id report_id = select (λ now db. head? (
    map report_row
      (keep (λ r. uuid_eq r.id report_id && uuid_eq r.organization_id org_id) db.reports)))
