-- ===== src/Payments/Once.antt =====
-- No scan is paid twice and no checkout session booked twice: the guards and the unique column
-- behind apps/web/lib/payments/entitlements.ts.
use geo_readiness.Common.{
  some, ℕ, ◌≤◌, ◌≡◌, refl, sym, ap, ◌∙◌, List, [], ◌∷◌, Bool, true, false, ◌&&◌, arith, length,
  keep, any, Bool-cases, inl, inr,
}
use geo_readiness.Common.Text.{Text, text_eq, lower, text_eq_iff}
use geo_readiness.Store.{uuid_eq, Db, World, Payment}
use geo_readiness.Payments.{
  Env, PromoKind, pays_for, is_paid, is_of_session, is_entitled, promo_payment, stripe_payment,
  Owner, add_payment,
}
use geo_readiness.Payments.Requests.{Request, serve_grants, serve_grants-Kept}

-- The paid rows of a scan, and the rows of a checkout session.
unfoldable pub times_paid : Text → Db → ℕ
times_paid scan_id db = length (keep (pays_for scan_id) db.payments)

unfoldable pub times_booked : Text → Db → ℕ
times_booked session db = length (keep (is_of_session session) db.payments)

keep-none {ℓ} :
    {A : Type ℓ} (p : A → Bool) (xs : List A) → any p xs ≡ false → length (keep p xs) ≡ 0
keep-none p [] h = refl
keep-none p (x ∷ xs) h = ground (arith, keep-none p xs)

pays_for-same : (a b : Text) → uuid_eq a b ≡ true → pays_for a ≡ pays_for b
pays_for-same a b e =
    ap (λ l p. text_eq (lower p.scan_id) l && is_paid p.status)
      ((text_eq_iff (lower a) (lower b)).0 e)

-- A paid row for a scan that is not entitled leaves every scan with one such row at most.
times_paid-add :
    (sid : Text) (p : Payment) (db : Db)
    → is_entitled p.scan_id db ≡ false
    → times_paid sid db ≤ 1
    → times_paid sid (add_payment p db) ≤ 1
unfolding times_paid is_entitled
times_paid-add sid p db free h = elim (Bool-cases (uuid_eq p.scan_id sid)) [
  | inl e ↦ ground (
    arith,
    keep-none (pays_for sid) db.payments
        (sym (ap (λ q. any q db.payments) (pays_for-same p.scan_id sid e)) ∙ free),
  )
  | inr e ↦ ground arith
]

times_booked-add :
    (session : Text) (p : Payment) (db : Db) (own : Text)
    → p.checkout_session_id ≡ some own
    → any (is_of_session own) db.payments ≡ false
    → times_booked session db ≤ 1
    → times_booked session (add_payment p db) ≤ 1
unfolding times_booked
times_booked-add session p db own e free h = elim (Bool-cases (text_eq own session)) [
  | inl q ↦ rw e (
      rw q (
        omega (
          arith,
          keep-none (is_of_session session) db.payments (
              sym (ap (λ t. any (is_of_session t) db.payments) ((text_eq_iff own session).0 q))
              ∙ free),
        )))
  | inr q ↦ rw e (rw q h)
]

times_booked-promo :
    (session : Text) (now : ℕ) (scan_id : Text) (kind : PromoKind) (owner : Owner) (db : Db)
    → times_booked session db ≤ 1
    → times_booked session (add_payment (promo_payment now scan_id kind owner) db) ≤ 1
unfolding times_booked
times_booked-promo session now scan_id kind owner db h = h

-- However many redemptions and checkouts are served one after the other, and whichever of their
-- queries fail, a scan with at most one paid row keeps at most one.
pub times_paid-serve_grants :
    (env : Env) (sid : Text) (requests : List Request) (w : World)
    → times_paid sid w.db ≤ 1
    → times_paid sid (serve_grants env requests w).db ≤ 1
times_paid-serve_grants env sid requests w h =
    serve_grants-Kept env (λ db. times_paid sid db ≤ 1)
      (λ scan_id kind now owner db k free below.
        times_paid-add sid (promo_payment now scan_id kind owner) db free k)
      (λ facts now owner db k free fresh.
        times_paid-add sid (stripe_payment now facts owner) db free k)
      requests w h

-- However many redemptions and checkouts are served one after the other, and whichever of their
-- queries fail, a checkout session with at most one row, of whatever status, keeps at most one.
pub times_booked-serve_grants :
    (env : Env) (session : Text) (requests : List Request) (w : World)
    → times_booked session w.db ≤ 1
    → times_booked session (serve_grants env requests w).db ≤ 1
times_booked-serve_grants env session requests w h =
    serve_grants-Kept env (λ db. times_booked session db ≤ 1)
      (λ scan_id kind now owner db k free below.
        times_booked-promo session now scan_id kind owner db k)
      (λ facts now owner db k free fresh.
        times_booked-add session (stripe_payment now facts owner) db facts.checkout_session_id refl
          fresh k)
      requests w h
