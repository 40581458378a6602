-- ===== src/Api/Unlock/Sound.antt =====
-- What an answer of apps/web/app/api/scans/[id]/unlock/route.ts says of the scan.
use geo_readiness.Common.{
  ◌==◌, Bool, true, false, ◌≡◌, refl, ap, sym, ◌∙◌, Option, none, some, Bool-cases, ◌⊎◌, inl, inr,
}
use geo_readiness.Common.Text.{Text}
use geo_readiness.Errors.{Outcome, ok, err}
use geo_readiness.Http.{Response}
use geo_readiness.Store.{Db, World}
use geo_readiness.Store.Logic.{After, After-and_then, After-query, After-if, anyway}
use geo_readiness.Auth.Origin.{Web, passes_origin}
use geo_readiness.Scans.Limiter.{Hits}
use geo_readiness.Scans.Repository.{is_uuid}
use geo_readiness.Payments.{
  Env, PromoKind, PromoGrant, Owner, granted, already_entitled, not_found, limit_reached,
  grant_promo_to, grant_promo_entitlement, has_entitlement, resolve_scan_owner, is_entitled,
  cap_reached,
}
use geo_readiness.Payments.Outcomes.{unlocks, is_entitled-promo}
use geo_readiness.Api.Unlock.{
  Json, unreadable, no_text, text, Request, post_unlock, redeem_code, redeem_body, redeem_kind,
  kind_of, promo_response, caught, after_limit,
}

abbrev Anything : Db → Type 0
Anything db = Unit

true-false : true ≡ false → ⊥
true-false h = cc

-- A redeemed code: the id is one, the code is known, and the scan is entitled.
pub record Redeemed (env : Env) (id : Text) (body : Json) (db : Db) : Type 0 where
  pub has_uuid : is_uuid id ≡ true
  pub kind : PromoKind
  pub is_kind : kind_of env body ≡ some kind
  pub is_unlocked : is_entitled id db ≡ true

module _ (env : Env) (id : Text) where
  abbrev Unlocked : PromoGrant → Db → Type 0
  Unlocked g db = (unlocks g ≡ false) ⊎ (is_entitled id db ≡ true)

  cap_reached-Anything :
      (kind : PromoKind) (w : World)
      → After (λ (b : Bool) db. Unit) Anything (cap_reached env kind w)
  cap_reached-Anything kind w = anyway (cap_reached env kind w)

  grant_promo_to-Unlocked :
      (kind : PromoKind) (o : Option Owner) (w : World)
      → After Unlocked Anything (grant_promo_to env id kind o w)
  grant_promo_to-Unlocked kind none w = inl refl
  grant_promo_to-Unlocked kind (some owner) w =
      After-and_then (λ b db. Unit) Unlocked Anything _
        (λ reached w1 h1.
          After-if Unlocked Anything reached _ _ w1 (λ e. inl refl)
            (λ e.
              After-and_then (λ t db. is_entitled id db ≡ true) Unlocked Anything _
                (λ t w2 h2. inr h2) _
                (After-query (λ t db. is_entitled id db ≡ true) Anything _ w1
                  (is_entitled-promo w1.now id kind owner w1.db) tt)))
        _ (cap_reached-Anything kind w)

  grant_promo_entitlement-Unlocked :
      (kind : PromoKind) (w : World)
      → After Unlocked Anything (grant_promo_entitlement env id kind w)
  unfolding grant_promo_entitlement has_entitlement resolve_scan_owner
  grant_promo_entitlement-Unlocked kind w =
      After-and_then (λ e db. is_entitled id db ≡ e) Unlocked Anything _
        (λ e w1 h1.
          After-if Unlocked Anything e _ _ w1 (λ q. inr (h1 ∙ q))
            (λ q.
              After-and_then (λ o db. Unit) Unlocked Anything _
                (λ o w2 h2. grant_promo_to-Unlocked kind o w2) _
                (After-query (λ o db. Unit) Anything _ w1 tt tt)))
        _ (After-query (λ e db. is_entitled id db ≡ e) Anything _ w refl tt)

  abbrev Honest : Json → Response → Db → Type 0
  Honest body r db = ((r.status == 200) ≡ false) ⊎ Redeemed env id body db

  promo_response-Honest :
      (body : Json) (kind : PromoKind)
      → is_uuid id ≡ true
      → kind_of env body ≡ some kind
      → (g : PromoGrant) (db : Db) → Unlocked g db
      → Honest body (promo_response g) db
  promo_response-Honest body kind u k not_found db h = inl refl
  promo_response-Honest body kind u k limit_reached db h = inl refl
  promo_response-Honest body kind u k granted db (inl h) = absurd (true-false h)
  promo_response-Honest body kind u k granted db (inr h) =
      inr (record { has_uuid = u; kind = kind; is_kind = k; is_unlocked = h })
  promo_response-Honest body kind u k already_entitled db (inl h) = absurd (true-false h)
  promo_response-Honest body kind u k already_entitled db (inr h) =
      inr (record { has_uuid = u; kind = kind; is_kind = k; is_unlocked = h })

  redeem_kind-Honest :
      (body : Json) (o : Option PromoKind)
      → is_uuid id ≡ true
      → kind_of env body ≡ o
      → (w : World) → After (Honest body) Anything (redeem_kind env id o w)
  redeem_kind-Honest body none u k w = inl refl
  redeem_kind-Honest body (some kind) u k w =
      After-and_then Unlocked (Honest body) Anything _
        (λ g w1 h1. promo_response-Honest body kind u k g w1.db h1) _
        (grant_promo_entitlement-Unlocked kind w)

  redeem_body-Honest :
      (body : Json)
      → is_uuid id ≡ true
      → (w : World) → After (Honest body) Anything (redeem_body env id body w)
  redeem_body-Honest unreadable u w = tt
  redeem_body-Honest no_text u w = redeem_kind-Honest no_text (kind_of env no_text) u refl w
  redeem_body-Honest (text code) u w =
      redeem_kind-Honest (text code) (kind_of env (text code)) u refl w

  redeem_code-Honest :
      (body : Json) (w : World) → After (Honest body) Anything (redeem_code env id body w)
  unfolding redeem_code
  redeem_code-Honest body w = elim (Bool-cases (is_uuid id)) [
    | inl u ↦ rw u (redeem_body-Honest body u w)
    | inr u ↦ rw u (inl refl)
  ]

  caught-Honest :
      (body : Json) (o : Outcome Response × World)
      → After (Honest body) Anything o
      → Honest body (caught o).0 (caught o).1.db
  caught-Honest body (ok r, w) h = h
  caught-Honest body (err e, w) h = inl refl

  abbrev Fair : Json → (Response × World) × Hits → Type 0
  Fair body ((r, w), hits) = Honest body r w.db

  after_limit-Fair :
      (req : Request) (w : World) (o : Bool × Hits) → Fair req.body (after_limit env id req w o)
  after_limit-Fair req w (false, hits) = inl refl
  after_limit-Fair req w (true, hits) =
      caught-Honest req.body (redeem_code env id req.body w) (redeem_code-Honest req.body w)

redeemed :
    (env : Env) (id : Text) (body : Json) (o : (Response × World) × Hits)
    → Fair env id body o
    → o.0.0.status ≡ 200
    → Redeemed env id body o.0.1.db
redeemed env id body ((r, w), hits) (inl h) e = absurd (true-false (sym (ap (λ n. n == 200) e) ∙ h))
redeemed env id body ((r, w), hits) (inr h) e = h

-- Whatever queries fail and whatever the limiter holds, the status 200 is answered only to a
-- request of the same origin, for an id of the form of a UUID and a code that is configured, and
-- then the scan is entitled.
pub post_unlock-Redeemed :
    (env : Env) (web : Web) (req : Request) (id : Text) (hits : Hits) (w : World)
    → (post_unlock env web req id hits w).0.0.status ≡ 200
    → (passes_origin web req.headers ≡ true)
      × Redeemed env id req.body (post_unlock env web req id hits w).0.1.db
unfolding post_unlock
post_unlock-Redeemed env web req id hits w h = elim (Bool-cases (passes_origin web req.headers)) [
  | inl e ↦ (
    e,
    redeemed env id req.body (post_unlock env web req id hits w)
        (rw e (after_limit-Fair env id req w _)) h,
  )
  | inr e ↦ absurd (true-false (sym (ap (λ n. n == 200) h) ∙ rw e refl))
]
