-- ===== src/Scans/Repository/Quick.antt =====
-- `createQuickScan` of apps/web/lib/scans/repository.ts: a scan never stands without its job.
use geo_readiness.Common.{
  ℕ, Bool, true, ◌≡◌, refl, Option, none, some, List, [], ◌∷◌, any, every, keep, head?, Bool-cases,
  inl, inr, arith,
}
use geo_readiness.Common.Text.{Text, text_eq, text_eq_refl}
use geo_readiness.Store.{Project, World, Organization, Scan, Job, Db}
use geo_readiness.Store.Logic.{After, After-and_then, After-query, On}
use geo_readiness.Store.Transaction.{After-with_transaction}
use geo_readiness.Scans.Repository.{
  is_project, anon_email, queued_job, insert_user, Ids, create_quick_scan, ensure_anonymous_org,
  upsert_project, insert_scan, insert_job, is_job_of, start_scan, find_recent, submit, org_for,
  owned_org, upserted,
}

abbrev has_job : List Job → Scan → Bool
has_job jobs s = any (is_job_of s.id) jobs

-- Every scan has a job.
abbrev pub Jobbed : Db → Type 0
Jobbed db = every (has_job db.jobs) db.scans ≡ true

every-has_job :
    (j : Job) (jobs : List Job) (scans : List Scan)
    → every (has_job jobs) scans ≡ true
    → every (has_job (j ∷ jobs)) scans ≡ true
every-has_job j jobs [] h = refl
every-has_job j jobs (s ∷ scans) h = ground (arith, every-has_job j jobs scans)

Jobbed-insert :
    (id project : Text) (now then_ : ℕ) (db : Db)
    → Jobbed db
    → Jobbed (insert_job id then_ (insert_scan id project now db))
Jobbed-insert id project now then_ db h = elim (Bool-cases (any (is_job_of id) db.jobs)) [
  | inl e ↦ rw e (rw e h)
  | inr e ↦ rw e (rw (text_eq_refl id) (every-has_job (queued_job id) db.jobs db.scans h))
]

abbrev Fine : {A : Type 0} → A → Db → Type 0
Fine a = Jobbed

abbrev Any : Db → Type 0
Any db = Unit

start_scan-Jobbed :
    (id project : Text) (o : Option Scan) (w : World)
    → Jobbed w.db
    → After Fine Any (start_scan id project o w)
start_scan-Jobbed id project (some s) w h = h
start_scan-Jobbed id project none w h =
    After-and_then (λ t db. (now : ℕ) → Jobbed (insert_job id now db)) Fine Any _
      (λ t w1 h1.
        After-and_then Fine Fine Any _ (λ t2 w2 h2. h2) _
          (After-query Fine Any _ w1 (h1 w1.now) tt))
      _
      (After-query (λ t db. (now : ℕ) → Jobbed (insert_job id now db)) Any _ w
        (λ now. Jobbed-insert id project w.now now w.db h) tt)

upserted-Jobbed :
    (id org domain : Text) (db : Db) (o : Option Project)
    → Jobbed db
    → On Fine Any (upserted id org domain db o)
upserted-Jobbed id org domain db none h = h
upserted-Jobbed id org domain db (some p) h = h

find_recent-Jobbed :
    (cooldown : Option ℕ) (project : Text) (w : World)
    → Jobbed w.db
    → After Fine Any (find_recent cooldown project w)
find_recent-Jobbed none project w h = tt
find_recent-Jobbed (some cooldown) project w h = After-query Fine Any _ w h tt

submit-Jobbed :
    (cooldown : Option ℕ) (ids : Ids) (org domain : Text) (w : World)
    → Jobbed w.db
    → After Fine Any (submit cooldown ids org domain w)
unfolding upsert_project
submit-Jobbed cooldown ids org domain w h =
    After-and_then Fine Fine Any _
      (λ t w1 h1.
        After-and_then Fine Fine Any _
          (λ project w2 h2.
            After-and_then Fine Fine Any _
              (λ recent w3 h3. start_scan-Jobbed ids.scan project recent w3 h3) _
              (find_recent-Jobbed cooldown project w2 h2))
          _
          (After-query Fine Any _ w1
            (upserted-Jobbed ids.project org domain w1.db
              (head? (keep (is_project org domain) w1.db.projects)) h1)
            tt))
      _ (After-query Fine Any _ w h tt)

insert_user-Jobbed : (id : Text) (now : ℕ) (db : Db) → Jobbed db → Jobbed (insert_user id now db)
insert_user-Jobbed id now db h =
    elim (Bool-cases (any (λ u. text_eq u.email anon_email) db.users)) [
      | inl e ↦ rw e h
      | inr e ↦ rw e h
    ]

org_for-Jobbed :
    (id owner : Text) (o : Option Organization) (w : World)
    → Jobbed w.db
    → After Fine Jobbed (org_for id owner o w)
org_for-Jobbed id owner (some org) w h = h
org_for-Jobbed id owner none w h =
    After-and_then Fine Fine Jobbed _ (λ t w1 h1. h1) _ (After-query Fine Jobbed _ w h h)

owned_org-Jobbed :
    (ids : Ids) (o : Option Text) (w : World) → Jobbed w.db → After Fine Jobbed (owned_org ids o w)
owned_org-Jobbed ids none w h = h
owned_org-Jobbed ids (some owner) w h =
    After-and_then Fine Fine Jobbed _ (λ o w1 h1. org_for-Jobbed ids.organization owner o w1 h1) _
      (After-query Fine Jobbed _ w h h)

ensure_anonymous_org-Jobbed :
    (ids : Ids) (w : World) → Jobbed w.db → After Fine Jobbed (ensure_anonymous_org ids w)
unfolding ensure_anonymous_org
ensure_anonymous_org-Jobbed ids w h =
    After-and_then Fine Fine Jobbed _
      (λ t w1 h1.
        After-and_then Fine Fine Jobbed _ (λ o w2 h2. owned_org-Jobbed ids o w2 h2) _
          (After-query Fine Jobbed _ w1 h1 h1))
      _ (After-query Fine Jobbed _ w (insert_user-Jobbed ids.user w.now w.db h) h)

-- Whichever statements of a submission fail, those of the transaction included, every scan has its
-- job afterwards, if every scan had one before.
pub create_quick_scan-Jobbed :
    (cooldown : Option ℕ) (ids : Ids) (domain : Text) (w : World)
    → Jobbed w.db
    → After (λ r. Jobbed) Jobbed (create_quick_scan cooldown ids domain w)
unfolding create_quick_scan
create_quick_scan-Jobbed cooldown ids domain w h =
    After-and_then Fine Fine Jobbed _
      (λ org w1 h1.
        After-with_transaction Fine Jobbed (submit cooldown ids org domain) w1 h1
          (submit-Jobbed cooldown ids org domain))
      _ (ensure_anonymous_org-Jobbed ids w h)
