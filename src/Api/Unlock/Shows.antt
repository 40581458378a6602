-- ===== src/Api/Unlock/Shows.antt =====
-- A redeemed code leads to the full report: apps/web/app/api/scans/[id]/unlock/route.ts and then
-- apps/web/app/report/[id]/page.tsx.
use geo_readiness.Common.{
  ℕ, true, false, ◌≡◌, refl, ap, sym, ◌∙◌, Option, none, some, Bool-cases, inl, inr,
}
use geo_readiness.Common.Text.{Text, codes, text_eq_iff, split_on, lower}
use geo_readiness.Errors.{ok}
use geo_readiness.Store.{Db, World, calm, query}
use geo_readiness.Auth.Origin.{Web}
use geo_readiness.Scans.Limiter.{Hits}
use geo_readiness.Scans.Repository.{is_uuid, get_report_by_scan}
use geo_readiness.Payments.{Env, is_entitled, has_entitlement}
use geo_readiness.Payments.Stripe.{Stripe}
use geo_readiness.Pages.{Documents, is_demo, full_report, report_page, report_or_wait}
use geo_readiness.Api.Unlock.{Request, post_unlock}
use geo_readiness.Api.Unlock.Sound.{post_unlock-Redeemed}

demo_no_uuid : is_uuid (codes "demo") ≡ false
unfolding is_uuid split_on lower
demo_no_uuid = refl

not_demo : (id : Text) → is_uuid id ≡ true → is_demo id ≡ false
not_demo id u = elim (Bool-cases (is_demo id)) [
  | inl d ↦
      absurd (clash (sym u ∙ (ap is_uuid ((text_eq_iff id (codes "demo")).0 d) ∙ demo_no_uuid)))
  | inr d ↦ d
]
  where
    clash : true ≡ false → ⊥
    clash q = cc

ok_eq : {x y : Option Text} → ok x ≡ ok y → x ≡ y
ok_eq q = cc q

module _ (docs : Documents) (env : Env) (stripe : Stripe) (id : Text) (session_id : Option Text)
    (now : ℕ) (db : Db) where
  entitled_page :
      (content : Text) (o : Option Text)
      → is_entitled id db ≡ true
      → o ≡ some content
      → (report_or_wait docs env stripe id session_id o (calm now db)).0
        ≡ ok (full_report (docs.decode content) id)
  unfolding has_entitlement query
  entitled_page content none e q = cc
  entitled_page content (some t) e q =
      rw e (ap (λ c. ok (full_report (docs.decode c) id)) (some_eq q))
    where
      some_eq : some t ≡ some content → t ≡ content
      some_eq p = cc p

  pub report_page-entitled :
      (content : Text)
      → is_uuid id ≡ true
      → is_entitled id db ≡ true
      → (get_report_by_scan id (calm now db)).0 ≡ ok (some content)
      → (report_page docs env stripe id session_id (calm now db)).0
        ≡ ok (full_report (docs.decode content) id)
  unfolding report_page get_report_by_scan query
  report_page-entitled content u e c =
      rw (not_demo id u) (rw u (entitled_page content _ e (ok_eq c)))

-- Whatever queries fail in the unlock handler and whatever its limiter holds: when it answers with
-- the status 200 and the scan has a report, the report page shows that report in full from then
-- on, as long as the tables stay as they are, when its own queries go through.
pub report_page-post_unlock :
    (env : Env) (web : Web) (req : Request) (id : Text) (hits : Hits) (w : World) (docs : Documents)
    (stripe : Stripe) (session_id : Option Text) (now : ℕ) (content : Text)
    → (post_unlock env web req id hits w).0.0.status ≡ 200
    → (get_report_by_scan id (calm now (post_unlock env web req id hits w).0.1.db)).0
      ≡ ok (some content)
    → (report_page docs env stripe id session_id
        (calm now (post_unlock env web req id hits w).0.1.db)).0
      ≡ ok (full_report (docs.decode content) id)
report_page-post_unlock env web req id hits w docs stripe session_id now content h c =
    let (_, r) = post_unlock-Redeemed env web req id hits w h in
    report_page-entitled docs env stripe id session_id now
      (post_unlock env web req id hits w).0.1.db content r.has_uuid r.is_unlocked c
