-- ===== src/Pages/Gate.antt =====
-- Who is sent a full report: apps/web/app/report/[id]/page.tsx and apps/web/app/scan/[id]/page.tsx.
use geo_readiness.Common.{
  Bool, true, false, ◌≡◌, ◌≢◌, refl, sym, ap, Option, none, some, ◌⊎◌, inl, inr, Bool-cases,
}
use geo_readiness.Common.Text.{Text, codes, is_empty}
use geo_readiness.Errors.{Outcome, ok, err}
use geo_readiness.Store.{Db, World, M, return, and_then}
use geo_readiness.Store.Logic.{After, After-and_then, After-query, After-if, anyway}
use geo_readiness.Scans.Repository.{is_uuid, get_scan_status, get_report_by_scan}
use geo_readiness.Payments.{Env, is_entitled, has_entitlement}
use geo_readiness.Payments.Stripe.{Stripe}
use geo_readiness.Payments.Checkout.{PaidSession, Confirmed, confirm_checkout_session-Confirmed}
use geo_readiness.Report.{ReportDocument}
use geo_readiness.Report.Preview.Redacted.{hide, to_preview_doc-hide}
use geo_readiness.Pages.{
  Page, full_report, preview_report, scan_pending, not_found, redirect, Documents, is_demo,
  report_page, scan_page, report_or_wait, unlocked, confirmed, gate, preview_or_wait, preview_gate,
  pending_page, wait_for,
}

-- Why a visitor may see the full report of a scan: it is paid for in the tables, or the visitor comes
-- back with the id of a checkout session that Stripe has as paid for this scan.
pub data Cleared (env : Env) (stripe : Stripe) (id : Text) (session_id : Option Text) (db : Db)
    : Type 0 where
  by_payment : is_entitled id db ≡ true → Cleared env stripe id session_id db
  by_checkout :
      (own : Text)
      → session_id ≡ some own
      → PaidSession env stripe id own
      → Cleared env stripe id session_id db

abbrev pub shows_full : Page → Bool
shows_full (full_report r id) = true
shows_full (preview_report p id) = false
shows_full (scan_pending id s) = false
shows_full not_found = false
shows_full (redirect url) = false

abbrev Anything : Db → Type 0
Anything db = Unit

module _ (docs : Documents) (env : Env) (stripe : Stripe) (id : Text) (session_id : Option Text)
    (start : Db) where
  abbrev Safe : Page → Db → Type 0
  Safe page db = (shows_full page ≡ false) ⊎ Cleared env stripe id session_id start

  abbrev Right : Bool → Db → Type 0
  Right entitled db = (entitled ≡ false) ⊎ Cleared env stripe id session_id start

  confirm-Right :
      (own : Text) (before : World) (o : Outcome Bool × World)
      → session_id ≡ some own
      → Confirmed env stripe id own before o
      → After Right Anything o
  confirm-Right own before (ok true, w) q c = inr (by_checkout own q c)
  confirm-Right own before (ok false, w) q c = inl refl
  confirm-Right own before (err e, w) q c = tt

  confirmed-Right :
      (s : Option Text) (w : World)
      → session_id ≡ s
      → After Right Anything (confirmed docs env stripe id s w)
  confirmed-Right none w q = inl refl
  confirmed-Right (some own) w q =
      After-if Right Anything (is_empty own) _ _ w (λ e. inl refl)
        (λ e. confirm-Right own w _ q (confirm_checkout_session-Confirmed env stripe id own w))

  unlocked-Right :
      (entitled : Bool) (w : World)
      → is_entitled id start ≡ entitled
      → After Right Anything (unlocked docs env stripe id session_id entitled w)
  unlocked-Right true w h = inr (by_payment h)
  unlocked-Right false w h = confirmed-Right session_id w refl

  gate-Safe :
      (content : Text) (entitled : Bool) (w : World)
      → Right entitled w.db
      → After Safe Anything (return (gate docs id content entitled) w)
  gate-Safe content true w (inl e) = cc
  gate-Safe content true w (inr c) = inr c
  gate-Safe content false w h = inl refl

  wait_for-Safe : (w : World) → After Safe Anything (wait_for id w)
  wait_for-Safe w =
      After-and_then (λ s db. Unit) Safe Anything _ (λ s w' h. pending s) _
        (anyway (get_scan_status id w))
    where
      pending : (s : Option _) → Safe (pending_page id s) start
      pending none = inl refl
      pending (some s) = inl refl

  report_or_wait-Safe :
      (content : Option Text) (w : World)
      → w.db ≡ start
      → After Safe Anything (report_or_wait docs env stripe id session_id content w)
  unfolding has_entitlement
  report_or_wait-Safe none w h = wait_for-Safe w
  report_or_wait-Safe (some content) w h =
      After-and_then (λ e db. is_entitled id start ≡ e) Safe Anything _
        (λ e w' h'.
          After-and_then Right Safe Anything _ (λ e2 w2 h2. gate-Safe content e2 w2 h2) _
            (unlocked-Right e w' h'))
        _
        (After-query (λ e db. is_entitled id start ≡ e) Anything _ w (ap (is_entitled id) (sym h))
          tt)

  full_page-Cleared :
      (r : ReportDocument) (shown : Text) (o : Outcome Page × World)
      → After Safe Anything o
      → o.0 ≡ ok (full_report r shown)
      → Cleared env stripe id session_id start
  full_page-Cleared r shown (ok (full_report a b), w) (inl q) e = cc
  full_page-Cleared r shown (ok (full_report a b), w) (inr c) e = c
  full_page-Cleared r shown (ok (preview_report a b), w) h e = cc
  full_page-Cleared r shown (ok (scan_pending a b), w) h e = cc
  full_page-Cleared r shown (ok not_found, w) h e = cc
  full_page-Cleared r shown (ok (redirect a), w) h e = cc
  full_page-Cleared r shown (err q, w) h e = cc

  report_page-Safe :
      (w : World)
      → w.db ≡ start
      → is_demo id ≡ false
      → is_uuid id ≡ true
      → After Safe Anything (report_page docs env stripe id session_id w)
  unfolding report_page get_report_by_scan
  report_page-Safe w h d u = rw d (
      rw u (
        After-and_then (λ c db. db ≡ start) Safe Anything _ (λ c w' h'. report_or_wait-Safe c w' h')
          _ (After-query (λ c db. db ≡ start) Anything _ w h tt)))

-- Whatever queries fail, the full report of a scan, the example aside, is sent only for an id of
-- the form of a UUID, and only if the scan is paid for in the tables or the visitor brings the id
-- of a checkout session that Stripe has as paid for this scan.
pub report_page-Cleared :
    (docs : Documents) (env : Env) (stripe : Stripe) (id : Text) (session_id : Option Text)
    (w : World) (r : ReportDocument) (shown : Text)
    → is_demo id ≡ false
    → (report_page docs env stripe id session_id w).0 ≡ ok (full_report r shown)
    → (is_uuid id ≡ true) × Cleared env stripe id session_id w.db
unfolding report_page
report_page-Cleared docs env stripe id session_id w r shown d e = elim (Bool-cases (is_uuid id)) [
  | inl u ↦ (
    u,
    full_page-Cleared docs env stripe id session_id w.db r shown
        (report_page docs env stripe id session_id w)
        (report_page-Safe docs env stripe id session_id w.db w refl d u) e,
  )
  | inr u ↦ absurd (missing d u e)
]
  where
    missing :
        is_demo id ≡ false
        → is_uuid id ≡ false
        → (report_page docs env stripe id session_id w).0 ≢ ok (full_report r shown)
    missing d u = rw d (rw u (λ q. cc))

-- Documents without their paid parts.
abbrev pub hidden_documents : Documents → Documents
hidden_documents docs = record { example = hide docs.example; decode = λ t. hide (docs.decode t) }

pub and_then-same :
    {A B : Type 0} (k l : A → M B) (o : Outcome A × World)
    → ((a : A) (w : World) → k a w ≡ l a w)
    → and_then k o ≡ and_then l o
and_then-same k l (ok a, w) h = h a w
and_then-same k l (err e, w) h = refl

module _ (docs : Documents) (id : Text) where
  preview_gate-hide :
      (content : Text) (entitled : Bool)
      → preview_gate (hidden_documents docs) id content entitled
        ≡ preview_gate docs id content entitled
  preview_gate-hide content true = refl
  preview_gate-hide content false =
      ap (λ p. preview_report p id) (to_preview_doc-hide (docs.decode content))

  preview_or_wait-hide :
      (content : Option Text) (w : World)
      → preview_or_wait (hidden_documents docs) id content w ≡ preview_or_wait docs id content w
  preview_or_wait-hide none w = refl
  preview_or_wait-hide (some content) w =
      and_then-same _ _ (has_entitlement id w)
        (λ e w'. ap (λ p. return p w') (preview_gate-hide content e))

  -- Whatever the tables hold and whatever queries fail, the page of a scan answers as it would if the
  -- example and the stored reports had lost their paid parts.
  pub scan_page-hide : (w : World) → scan_page (hidden_documents docs) id w ≡ scan_page docs id w
  unfolding scan_page
  scan_page-hide w = elim (Bool-cases (is_demo id)) [
    | inl d ↦
        rw d
          (ap (λ p. return (preview_report p (codes "demo")) w) (to_preview_doc-hide docs.example))
    | inr d ↦ rw d (elim (Bool-cases (is_uuid id)) [
      | inl u ↦ rw u (and_then-same _ _ (get_report_by_scan id w) preview_or_wait-hide)
      | inr u ↦ rw u refl
    ])
  ]
