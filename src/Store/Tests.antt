-- ===== src/Store/Tests.antt =====
-- A transaction at a concrete input.
use geo_readiness.Common.{◌≡◌, refl, [], ◌∷◌}
use geo_readiness.Common.Text.{codes}
use geo_readiness.Errors.{query_failed, err}
use geo_readiness.Store.{Db, Project, calm, M, throw, ◌>>◌, execute, query, with_transaction}

abbrev no_rows : Db
no_rows = record {
  payments = [];
  stripe_events = [];
  projects = [];
  scans = [];
  login_attempts = [];
  users = [];
  organizations = [];
  jobs = [];
  reports = [];
  credentials = [];
  members = [];
  sessions = [];
  verification_tokens = [];
}

abbrev some_project : Project
some_project = record {
  id = codes "p";
  organization_id = codes "o";
  canonical_domain = codes "a.com";
  status = codes "active";
}

-- It writes a row and throws.
abbrev half_done : M (Unit {0})
half_done = do
  execute (λ now db. record db { projects = some_project ∷ db.projects })
  throw query_failed

half_done_test : with_transaction half_done (calm 5 no_rows) ≡ (err query_failed, calm 5 no_rows)
unfolding with_transaction query
half_done_test = refl
