-- ===== src/Scans/Repository/Cooldown.antt =====
-- The cool-down of `createQuickScan` in apps/web/lib/scans/repository.ts.
use geo_readiness.Common.{
  ltb_of, ℕ, ◌+◌, ◌≤◌, ◌<◌, true, false, ◌≡◌, refl, ap, ◌∙◌, Option, none, some, List, [], ◌∷◌, any,
  keep, head?, Bool-cases, Option-cases, inl, inr, arith,
}
use geo_readiness.Common.Text.{codes, Text, text_eq_refl, lower}
use geo_readiness.Errors.{ok}
use geo_readiness.Store.{calm, Scan, Project, Db, query}
use geo_readiness.Scans.Repository.{
  is_recent, last_by, is_project, Ids, upsert_project, recent_scan, insert_scan, insert_job,
  is_job_of, queued_scan, submit,
}

abbrev project_of : Text → Text → Db → Option Project
project_of org domain db = head? (keep (is_project org domain) db.projects)

-- A submission that finds a project and a recent scan of it.
submit-found :
    (cooldown : ℕ) (ids : Ids) (org domain : Text) (now : ℕ) (db : Db) (p : Project) (s : Scan)
    → project_of org domain db ≡ some p
    → recent_scan cooldown p.id now db ≡ some s
    → submit (some cooldown) ids org domain (calm now db)
      ≡ (ok (record { scan_id = s.id; reused = true }), calm now db)
unfolding upsert_project query
submit-found cooldown ids org domain now db p s h r = rw h (rw r refl)

last_by-none : (xs : List Scan) → last_by (λ s. s.requested_at) xs ≡ none → xs ≡ []
last_by-none [] h = refl
last_by-none (x ∷ xs) h = cc

keep_later :
    (cooldown : ℕ) (project : Text) (now later : ℕ) (xs : List Scan)
    → now ≤ later
    → keep (is_recent cooldown project now) xs ≡ []
    → keep (is_recent cooldown project later) xs ≡ []
keep_later cooldown project now later [] h e = refl
keep_later cooldown project now later (x ∷ xs) h e =
    ground (arith, keep_later cooldown project now later xs h)

insert_job-same :
    (id : Text) (now : ℕ) (db : Db)
    → ((insert_job id now db).scans ≡ db.scans) × ((insert_job id now db).projects ≡ db.projects)
insert_job-same id now db = elim (Bool-cases (any (is_job_of id) db.jobs)) [
  | inl e ↦ rw e (refl, refl)
  | inr e ↦ rw e (refl, refl)
]

abbrev started_db : Text → Text → ℕ → Db → Db
started_db id project now db = insert_job id now (insert_scan id project now db)

recent-started :
    (cooldown : ℕ) (id project : Text) (now later : ℕ) (db : Db)
    → now ≤ later
    → later < now + cooldown
    → recent_scan cooldown project now db ≡ none
    → recent_scan cooldown project later (started_db id project now db)
      ≡ some (queued_scan id project now)
unfolding recent_scan
recent-started cooldown id project now later db h k e =
    rw (insert_job-same id now (insert_scan id project now db)).0 (
      rw (text_eq_refl (lower project)) (
        rw (ltb_of later (now + cooldown) k) (
          rw
            (keep_later cooldown project now later db.scans h
              (last_by-none (keep (is_recent cooldown project now) db.scans) e))
            refl)))

module _ (cooldown : ℕ) (ids : Ids) (org domain : Text) (now : ℕ) (db : Db) where
  -- A submission that finds a project, and no recent scan of it.
  submit-new :
      (p : Project)
      → project_of org domain db ≡ some p
      → recent_scan cooldown p.id now db ≡ none
      → submit (some cooldown) ids org domain (calm now db) ≡ (
        ok (record { scan_id = ids.scan; reused = false }),
        calm now (started_db ids.scan p.id now db),
      )
  unfolding upsert_project query
  submit-new p h r = rw h (rw r refl)

  abbrev new_project : Project
  new_project = record {
    id = ids.project;
    organization_id = org;
    canonical_domain = domain;
    status = codes "active";
  }

  abbrev with_project : Db
  with_project = record db { projects = new_project ∷ db.projects }

  submit-first :
      project_of org domain db ≡ none
      → recent_scan cooldown ids.project now db ≡ none
      → submit (some cooldown) ids org domain (calm now db) ≡ (
        ok (record { scan_id = ids.scan; reused = false }),
        calm now (started_db ids.scan ids.project now with_project),
      )
  unfolding upsert_project recent_scan query
  submit-first h r = rw h (rw r refl)

  project_of-started :
      (d : Db) (project : Text)
      → project_of org domain (started_db ids.scan project now d) ≡ project_of org domain d
  project_of-started d project =
      ap (λ ps. head? (keep (is_project org domain) ps))
        (insert_job-same ids.scan now (insert_scan ids.scan project now d)).1

  project_of-with_project : project_of org domain with_project ≡ some new_project
  project_of-with_project = rw (text_eq_refl (lower org)) (rw (text_eq_refl domain) refl)

  recent_with_project :
      recent_scan cooldown ids.project now db ≡ none
      → recent_scan cooldown ids.project now with_project ≡ none
  unfolding recent_scan
  recent_with_project r = r

-- The project of a domain: the one that is there, else a new one.
abbrev pub project_or : Text → Option Project → Text
project_or id none = id
project_or id (some p) = p.id

-- A submission that finds no recent scan starts one, and a second submission of the domain within
-- the cool-down, if nothing changes in between and all queries go through, answers with that scan
-- and starts none.
pub submit-again :
    (cooldown : ℕ) (ids second : Ids) (org domain : Text) (now later : ℕ) (db : Db)
    → now ≤ later
    → later < now + cooldown
    → recent_scan cooldown (project_or ids.project (project_of org domain db)) now db ≡ none
    → ((submit (some cooldown) ids org domain (calm now db)).0
        ≡ ok (record { scan_id = ids.scan; reused = false }))
      × (submit
            (some cooldown)
            second
            org
            domain
            (calm later (submit (some cooldown) ids org domain (calm now db)).1.db)
          ≡ (
            ok (record { scan_id = ids.scan; reused = true }),
            calm later (submit (some cooldown) ids org domain (calm now db)).1.db,
          ))
submit-again cooldown ids second org domain now later db h k =
    elim (Option-cases (project_of org domain db)) [
      | inl e ↦ rw e (λ r. rw (submit-first cooldown ids org domain now db e r) (
        refl,
        submit-found cooldown second org domain later _ (new_project cooldown ids org domain now db)
            (queued_scan ids.scan ids.project now)
            (project_of-started cooldown ids org domain now db
                (with_project cooldown ids org domain now db) ids.project
              ∙ project_of-with_project cooldown ids org domain now db)
            (recent-started cooldown ids.scan ids.project now later
              (with_project cooldown ids org domain now db) h k
              (recent_with_project cooldown ids org domain now db r)),
      ))
      | inr (p, e) ↦ rw e (λ r. rw (submit-new cooldown ids org domain now db p e r) (
        refl,
        submit-found cooldown second org domain later _ p (queued_scan ids.scan p.id now)
            (project_of-started cooldown ids org domain now db db p.id ∙ e)
            (recent-started cooldown ids.scan p.id now later db h k r),
      ))
    ]
