-- ===== src/Scans/Repository.antt =====
-- Scans in the data base: apps/web/lib/scans/repository.ts. Ids that the data base makes are
-- arguments, and so is the cool-down: what the data base makes of the text of minutes, in
-- milliseconds, or nothing where that is no interval, as `NaN`. One below nothing finds no scan, as 0
-- does. Times are milliseconds. A missing row where the
-- source asserts one (`user[0]!`) throws.
pub mod Quick
pub mod Cooldown
use geo_readiness.Common.{
  ℕ, ◌+◌, ◌*◌, Bool, true, false, Option, none, some, List, [], ◌∷◌, ◌&&◌, not, ltb, ◌==◌,
  if◌then◌else◌, any, every, keep, length, head?, map,
}
use geo_readiness.Common.Text.{Text, codes, text_eq, lower, split_on}
use geo_readiness.Common.Patterns.{is_hex}
use geo_readiness.Errors.{Outcome, ok, err, query_failed}
use geo_readiness.Store.{
  uuid_eq, User, Organization, Project, Scan, Job, Report, Db, M, return, throw, ◌>>=◌, ◌>>◌,
  select, execute, query, with_transaction,
}

abbrev pub anon_email : Text
anon_email = codes "anonymous@geo.internal"

abbrev has_shape : List Text → List ℕ → Bool
has_shape [] [] = true
has_shape [] (n ∷ ns) = false
has_shape (g ∷ gs) [] = false
has_shape (g ∷ gs) (n ∷ ns) = (length g == n) && every is_hex (lower g) && has_shape gs ns

-- `UUID_RE`
unfoldable pub is_uuid : Text → Bool
is_uuid value = has_shape (split_on b'-' value) (8 ∷ 4 ∷ 4 ∷ 4 ∷ 12 ∷ [])

-- Ids for the rows that a submission may insert.
pub record Ids : Type 0 where
  pub user : Text
  pub organization : Text
  pub project : Text
  pub scan : Text

abbrev anon_user : Text → User
anon_user id = record {
  id = id;
  email = anon_email;
  status = codes "active";
  email_verified_at = none;
}

abbrev pub insert_user : Text → ℕ → Db → Db
insert_user id now db =
    if any (λ u. text_eq u.email anon_email) db.users
    then db
    else record db { users = anon_user id ∷ db.users }

abbrev pub user_id : Db → Option Text
user_id db = head? (map (λ u. u.id) (keep (λ u. text_eq u.email anon_email) db.users))

abbrev earlier_of {ℓ} : {A : Type ℓ} → (A → ℕ) → A → Option A → A
earlier_of at x none = x
earlier_of at x (some y) = if ltb (at y) (at x) then y else x

-- The earliest row by a time, the first of equals.
abbrev first_by {ℓ} : {A : Type ℓ} → (A → ℕ) → List A → Option A
first_by at [] = none
first_by at (x ∷ xs) = some (earlier_of at x (first_by at xs))

abbrev pub later_of {ℓ} : {A : Type ℓ} → (A → ℕ) → A → Option A → A
later_of at x none = x
later_of at x (some y) = if ltb (at x) (at y) then y else x

-- The latest row by a time, the first of equals.
abbrev pub last_by {ℓ} : {A : Type ℓ} → (A → ℕ) → List A → Option A
last_by at [] = none
last_by at (x ∷ xs) = some (later_of at x (last_by at xs))

abbrev pub org_of : Text → Db → Option Organization
org_of owner db =
    first_by (λ o. o.created_at) (keep (λ o. uuid_eq o.owner_user_id owner) db.organizations)

abbrev pub insert_org : Text → Text → ℕ → Db → Db
insert_org id owner now db = record db {
  organizations =
      record { id = id; name = codes "Anonymous"; owner_user_id = owner; created_at = now }
      ∷ db.organizations;
}

abbrev pub org_for : Text → Text → Option Organization → M Text
org_for id owner (some org) = return org.id
org_for id owner none = do execute (insert_org id owner); return id

abbrev pub owned_org : Ids → Option Text → M Text
owned_org ids none = throw query_failed
owned_org ids (some owner) = do
  existing ← select (λ now. org_of owner)
  org_for ids.organization owner existing

unfoldable pub ensure_anonymous_org : Ids → M Text
ensure_anonymous_org ids = do
  execute (insert_user ids.user)
  user ← select (λ now. user_id)
  owned_org ids user

abbrev pub is_project : Text → Text → Project → Bool
is_project org domain p = uuid_eq p.organization_id org && text_eq p.canonical_domain domain

abbrev pub upserted : Text → Text → Text → Db → Option Project → Text × Db
upserted id org domain db (some p) = (p.id, db)
upserted id org domain db none = (
  id,
  record db {
    projects =
        record {
          id = id;
          organization_id = org;
          canonical_domain = domain;
          status = codes "active";
        }
        ∷ db.projects;
  },
)

-- `INSERT … ON CONFLICT … DO UPDATE … RETURNING id`; the time of the update is left out.
unfoldable pub upsert_project : Text → Text → Text → M Text
upsert_project id org domain =
    query (λ now db. upserted id org domain db (head? (keep (is_project org domain) db.projects)))

abbrev pub is_recent : ℕ → Text → ℕ → Scan → Bool
is_recent cooldown project now s =
    uuid_eq s.project_id project
    && not (text_eq s.status (codes "failed"))
    && ltb now (s.requested_at + cooldown)

-- The latest scan of the project in the cool-down that has not failed.
unfoldable pub recent_scan : ℕ → Text → ℕ → Db → Option Scan
recent_scan cooldown project now db =
    last_by (λ s. s.requested_at) (keep (is_recent cooldown project now) db.scans)

-- The statement that looks for it. The data base refuses a cool-down that is no interval.
abbrev pub find_recent : Option ℕ → Text → M (Option Scan)
find_recent none project = throw query_failed
find_recent (some cooldown) project = select (recent_scan cooldown project)

abbrev pub queued_scan : Text → Text → ℕ → Scan
queued_scan id project now = record {
  id = id;
  project_id = project;
  scan_type = codes "quick";
  methodology_version = codes "geo-readiness-v2";
  status = codes "queued";
  max_pages = 12;
  max_browser_renders = 2;
  error_code = none;
  page_count = 0;
  requested_at = now;
}

abbrev pub insert_scan : Text → Text → ℕ → Db → Db
insert_scan id project now db = record db { scans = queued_scan id project now ∷ db.scans }

abbrev pub is_job_of : Text → Job → Bool
is_job_of id j = text_eq j.idempotency_key id

abbrev pub queued_job : Text → Job
queued_job id = record {
  job_type = codes "crawl_project";
  scan_id = id;
  idempotency_key = id;
  status = codes "queued";
}

abbrev pub insert_job : Text → ℕ → Db → Db
insert_job id now db =
    if any (is_job_of id) db.jobs then db else record db { jobs = queued_job id ∷ db.jobs }

pub record Submitted : Type 0 where
  pub scan_id : Text
  pub reused : Bool

abbrev pub start_scan : Text → Text → Option Scan → M Submitted
start_scan id project (some recent) = return (record { scan_id = recent.id; reused = true })
start_scan id project none = do
  execute (insert_scan id project)
  execute (insert_job id)
  return (record { scan_id = id; reused = false })

-- The body of the transaction; its first statement takes the lock of the domain.
abbrev pub submit : Option ℕ → Ids → Text → Text → M Submitted
submit cooldown ids org domain = do
  execute (λ now db. db)
  project ← upsert_project ids.project org domain
  recent ← find_recent cooldown project
  start_scan ids.scan project recent

unfoldable pub create_quick_scan : Option ℕ → Ids → Text → M Submitted
create_quick_scan cooldown ids domain = do
  org ← ensure_anonymous_org ids
  with_transaction (submit cooldown ids org domain)

pub record ScanStatus : Type 0 where
  pub id : Text
  pub status : Text
  pub error_code : Option Text
  pub page_count : ℕ

abbrev status_row : Scan → ScanStatus
status_row s = record {
  id = s.id;
  status = s.status;
  error_code = s.error_code;
  page_count = s.page_count;
}

unfoldable pub get_scan_status : Text → M (Option ScanStatus)
get_scan_status scan_id =
    select (λ now db. head? (map status_row (keep (λ s. uuid_eq s.id scan_id) db.scans)))

abbrev content_of : Option Report → Option Text
content_of none = none
content_of (some r) = some r.content

unfoldable pub get_report_by_scan : Text → M (Option Text)
get_report_by_scan scan_id = select (λ now db.
    content_of (last_by (λ r. r.created_at) (keep (λ r. uuid_eq r.scan_id scan_id) db.reports)))
