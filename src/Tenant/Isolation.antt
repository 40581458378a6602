-- ===== src/Tenant/Isolation.antt =====
-- No answer of apps/web/lib/tenant/repository.ts depends on what other organizations hold.
use geo_readiness.Common.{
  Bool, Option, none, some, ◌≡◌, refl, ap, List, [], ◌∷◌, ◌&&◌, keep, map, head?, Bool-cases, inl,
  inr, arith,
}
use geo_readiness.Common.Text.{Text}
use geo_readiness.Errors.{ok}
use geo_readiness.Store.{uuid_eq, Db, World, query, faulty}
use geo_readiness.Tenant.{
  get_project_for_org, get_report_for_org, require_membership, membership_of, or_forbidden,
  Membership, project_row, report_row,
}

-- The tables with the projects, the reports and the members of one organization only.
abbrev pub only_of : Text → Db → Db
only_of org_id db = record db {
  projects = keep (λ p. uuid_eq p.organization_id org_id) db.projects;
  reports = keep (λ r. uuid_eq r.organization_id org_id) db.reports;
  members = keep (λ m. uuid_eq m.organization_id org_id) db.members;
}

keep-keep {ℓ} :
    {A : Type ℓ} (p q : A → Bool) (xs : List A)
    → keep (λ x. p x && q x) (keep q xs) ≡ keep (λ x. p x && q x) xs
keep-keep p q [] = refl
keep-keep p q (x ∷ xs) = ground (arith, keep-keep p q xs)

abbrev pub only_world : Text → World → World
only_world org_id w = record w { db = only_of org_id w.db }

answer_of :
    (a b : Option Membership) → b ≡ a → (v w : World) → (or_forbidden b v).0 ≡ (or_forbidden a w).0
answer_of none none e v w = refl
answer_of (some m) none e v w = cc
answer_of none (some m) e v w = cc
answer_of (some m) (some n) e v w = cc

-- What a user of an organization is answered on a project, on a report and on a membership is what
-- they would be answered if the tables held that organization's rows only.
pub get_for_org-only_of :
    (org_id project_id report_id user_id : Text) (w : World)
    → ((get_project_for_org org_id project_id (only_world org_id w)).0
        ≡ (get_project_for_org org_id project_id w).0)
      × ((get_report_for_org org_id report_id (only_world org_id w)).0
          ≡ (get_report_for_org org_id report_id w).0)
      × ((require_membership user_id org_id (only_world org_id w)).0
          ≡ (require_membership user_id org_id w).0)
unfolding get_project_for_org get_report_for_org require_membership query
get_for_org-only_of org_id project_id report_id user_id w = elim (Bool-cases (faulty w.faults)) [
  | inl e ↦ rw e (refl, refl, refl)
  | inr e ↦ rw e (
    ap (λ ps. ok (head? (map project_row ps)))
        (keep-keep (λ p. uuid_eq p.id project_id) (λ p. uuid_eq p.organization_id org_id)
          w.db.projects),
    ap (λ rs. ok (head? (map report_row rs)))
        (keep-keep (λ r. uuid_eq r.id report_id) (λ r. uuid_eq r.organization_id org_id)
          w.db.reports),
    answer_of (membership_of user_id org_id w.db)
        (membership_of user_id org_id (only_of org_id w.db))
        (ap
          (λ ms.
            head? (map (λ m. record { organization_id = m.organization_id; role = m.role }) ms))
          (keep-keep (λ m. uuid_eq m.user_id user_id) (λ m. uuid_eq m.organization_id org_id)
            w.db.members))
        _ _,
  )
]
