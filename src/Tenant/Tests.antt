-- ===== src/Tenant/Tests.antt =====
-- Access by organization at concrete inputs.
use geo_readiness.Common.{◌≡◌, refl, none, some, [], ◌∷◌}
use geo_readiness.Common.Text.{codes, lower}
use geo_readiness.Errors.{ok, err, auth_error, forbidden}
use geo_readiness.Store.{Db, Project, Member, calm, query}
use geo_readiness.Tenant.{
  get_project_for_org, get_report_for_org, require_membership, get_user_organizations, project_row,
}
use geo_readiness.Tenant.Isolation.{only_world, get_for_org-only_of}

access : Unit {0}
unfolding query lower get_project_for_org get_report_for_org require_membership
    get_user_organizations
access = tt

abbrev project : Project
project = record {
  id = codes "p";
  organization_id = codes "a";
  canonical_domain = codes "a.com";
  status = codes "active";
}

abbrev member : Member
member = record { organization_id = codes "a"; user_id = codes "u"; role = codes "owner" }

abbrev db : Db
db = record {
  payments = [];
  stripe_events = [];
  projects = project ∷ [];
  scans = [];
  login_attempts = [];
  users = [];
  organizations = [];
  jobs = [];
  reports = [];
  credentials = [];
  members = member ∷ [];
  sessions = [];
  verification_tokens = [];
}

test_access :
    ((get_project_for_org (codes "A") (codes "p") (calm 1 db)).0 ≡ ok (some (project_row project)))
    × ((get_project_for_org (codes "b") (codes "p") (calm 1 db)).0 ≡ ok none)
    × ((require_membership (codes "u") (codes "b") (calm 1 db)).0 ≡ err (auth_error forbidden))
    × ((get_user_organizations (codes "u") (calm 1 db)).0
        ≡ ok (record { organization_id = codes "a"; role = codes "owner" } ∷ []))
unfolding access
test_access = (refl, refl, refl, refl)

get_for_org-only_of_example :
    ((get_project_for_org (codes "b") (codes "p") (only_world (codes "b") (calm 1 db))).0
      ≡ (get_project_for_org (codes "b") (codes "p") (calm 1 db)).0)
    × ((get_report_for_org (codes "b") (codes "r") (only_world (codes "b") (calm 1 db))).0
        ≡ (get_report_for_org (codes "b") (codes "r") (calm 1 db)).0)
    × ((require_membership (codes "u") (codes "b") (only_world (codes "b") (calm 1 db))).0
        ≡ (require_membership (codes "u") (codes "b") (calm 1 db)).0)
get_for_org-only_of_example =
    get_for_org-only_of (codes "b") (codes "p") (codes "r") (codes "u") (calm 1 db)
