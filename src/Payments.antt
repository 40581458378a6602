-- ===== src/Payments.antt =====
-- The full-report entitlement: apps/web/lib/payments/entitlements.ts. A table is a list of rows in
-- no order that counts. `Buffer.from` and `timingSafeEqual` compare texts as `text_eq`. `Number` is a parameter of the environment.
pub mod Kept
pub mod Requests
pub mod Cap
pub mod Once
pub mod Race
pub mod Outcomes
pub mod Stripe
pub mod Webhook
pub mod Checkout
mod Tests
use geo_readiness.Common.{
  ℕ, ◌-◌, Bool, true, false, Option, none, some, List, [], ◌∷◌, ◌++◌, ◌&&◌, ◌||◌, not, ltb, leb,
  ◌==◌, if◌then◌else◌, any, keep, length, head?, map, is_some,
}
use geo_readiness.Common.Text.{Text, codes, text_eq, is_empty, trim, lower}
use geo_readiness.Store.{
  uuid_eq, Payment, PaymentStatus, pending, paid, failed, expired, refunded, Project, Scan, Db, M,
  return, ◌>>=◌, ◌>>◌, select, execute,
}

abbrev pub full_audit_product : Text
full_audit_product = codes "geo_readiness_full"

abbrev pub limited_promo_product : Text
limited_promo_product = codes "geo_readiness_full_promo"

abbrev pub default_limited_promo_max : ℕ
default_limited_promo_max = 11

-- What `Number` makes of a text, as far as it is looked at: with `Math.floor` where it is above 0.
pub data Quantity : Type 0 where
  not_finite at_most_zero : Quantity
  above_zero : ℕ → Quantity

-- `process.env`, and `Number` on its texts.
pub record Env : Type 0 where
  pub promo_code : Option Text
  pub promo_code_limited : Option Text
  pub promo_limited_max : Option Text
  pub stripe_secret_key : Option Text
  pub stripe_webhook_secret : Option Text
  pub stripe_price : Option Text
  pub number : Text → Quantity

abbrev max_of : Quantity → ℕ
max_of (above_zero n) = n
max_of not_finite = default_limited_promo_max
max_of at_most_zero = default_limited_promo_max

abbrev read_max : Env → Option Text → ℕ
read_max env none = default_limited_promo_max
read_max env (some raw) =
    if is_empty (trim raw) then default_limited_promo_max else max_of (env.number raw)

unfoldable pub limited_promo_max : Env → ℕ
limited_promo_max env = read_max env env.promo_limited_max

pub data PromoKind : Type 0 where
  unlimited limited : PromoKind

pub data PromoGrant : Type 0 where
  granted already_entitled not_found limit_reached : PromoGrant

unfoldable pub code_matches : Text → Option Text → Bool
code_matches code none = false
code_matches code (some expected) =
    let want = trim expected in
    let got = trim code in if is_empty want || is_empty got then false else text_eq got want

unfoldable pub classify_promo_code : Env → Text → Option PromoKind
classify_promo_code env code =
    if code_matches code env.promo_code
    then some unlimited
    else if code_matches code env.promo_code_limited
    then some limited
    else none

abbrev pub is_valid_promo_code : Env → Text → Bool
is_valid_promo_code env code = is_some (classify_promo_code env code)

abbrev pub is_paid : PaymentStatus → Bool
is_paid paid = true
is_paid pending = false
is_paid failed = false
is_paid expired = false
is_paid refunded = false

abbrev pub is_limited : Payment → Bool
is_limited p =
    text_eq p.provider (codes "promo")
    && is_paid p.status
    && text_eq p.product_code limited_promo_product

-- The rows that the count of the limited code ranges over.
unfoldable pub limited_used : Db → ℕ
limited_used db = length (keep is_limited db.payments)

pub record Usage : Type 0 where
  pub used : ℕ
  pub limit : ℕ
  pub remaining : ℕ

unfoldable pub limited_promo_usage : Env → M Usage
limited_promo_usage env = do
  used ← select (λ now db. limited_used db)
  let limit = limited_promo_max env
  return (record { used = used; limit = limit; remaining = limit - used })

unfoldable pub limited_promo_limit_reached : Env → M Bool
limited_promo_limit_reached env = do
  usage ← limited_promo_usage env
  return (leb usage.limit usage.used)

abbrev pub pays_for : Text → Payment → Bool
pays_for scan_id p = uuid_eq p.scan_id scan_id && is_paid p.status

unfoldable pub is_entitled : Text → Db → Bool
is_entitled scan_id db = any (pays_for scan_id) db.payments

unfoldable pub has_entitlement : Text → M Bool
has_entitlement scan_id = select (λ now db. is_entitled scan_id db)

pub record Owner : Type 0 where
  pub organization_id : Text
  pub project_id : Text

abbrev projects_of : Text → List Project → List Owner
projects_of project_id projects =
    map (λ p. record { organization_id = p.organization_id; project_id = p.id })
      (keep (λ p. uuid_eq p.id project_id) projects)

-- The rows of `scans JOIN projects` for a scan.
abbrev pub owners_of : Text → List Project → List Scan → List Owner
owners_of scan_id projects [] = []
owners_of scan_id projects (s ∷ scans) =
    let rest = owners_of scan_id projects scans in
    if uuid_eq s.id scan_id then projects_of s.project_id projects ++ rest else rest

unfoldable pub owner_of : Text → Db → Option Owner
owner_of scan_id db = head? (owners_of scan_id db.projects db.scans)

unfoldable pub resolve_scan_owner : Text → M (Option Owner)
resolve_scan_owner scan_id = select (λ now db. owner_of scan_id db)

abbrev pub add_payment : Payment → Db → Db
add_payment p db = record db { payments = p ∷ db.payments }

abbrev pub product_of : PromoKind → Text
product_of limited = limited_promo_product
product_of unlimited = full_audit_product

abbrev pub promo_payment : ℕ → Text → PromoKind → Owner → Payment
promo_payment now scan_id kind owner = record {
  organization_id = owner.organization_id;
  project_id = owner.project_id;
  scan_id = scan_id;
  provider = codes "promo";
  product_code = product_of kind;
  amount = 0;
  currency = codes "eur";
  status = paid;
  paid_at = now;
  checkout_session_id = none;
  payment_intent_id = none;
  customer_id = none;
}

abbrev pub cap_reached : Env → PromoKind → M Bool
cap_reached env unlimited = return false
cap_reached env limited = limited_promo_limit_reached env

abbrev pub grant_promo_to : Env → Text → PromoKind → Option Owner → M PromoGrant
grant_promo_to env scan_id kind none = return not_found
grant_promo_to env scan_id kind (some owner) = do
  reached ← cap_reached env kind
  if reached
      then return limit_reached
      else do execute (λ now. add_payment (promo_payment now scan_id kind owner)); return granted

unfoldable pub grant_promo_entitlement : Env → Text → PromoKind → M PromoGrant
grant_promo_entitlement env scan_id kind = do
  entitled ← has_entitlement scan_id
  if entitled
      then return already_entitled
      else do owner ← resolve_scan_owner scan_id; grant_promo_to env scan_id kind owner

pub record StripePaymentFacts : Type 0 where
  pub scan_id : Text
  pub checkout_session_id : Text
  pub payment_intent_id : Option Text
  pub customer_id : Option Text
  pub amount : ℕ
  pub currency : Text

abbrev pub stripe_payment : ℕ → StripePaymentFacts → Owner → Payment
stripe_payment now facts owner = record {
  organization_id = owner.organization_id;
  project_id = owner.project_id;
  scan_id = facts.scan_id;
  provider = codes "stripe";
  product_code = full_audit_product;
  amount = facts.amount;
  currency = lower facts.currency;
  status = paid;
  paid_at = now;
  checkout_session_id = some facts.checkout_session_id;
  payment_intent_id = facts.payment_intent_id;
  customer_id = facts.customer_id;
}

abbrev pub same_session : Text → Option Text → Bool
same_session session none = false
same_session session (some other) = text_eq other session

abbrev pub is_of_session : Text → Payment → Bool
is_of_session session p = same_session session p.checkout_session_id

-- `ON CONFLICT (stripe_checkout_session_id) DO NOTHING`
abbrev pub insert_stripe_payment : StripePaymentFacts → Owner → ℕ → Db → Db
insert_stripe_payment facts owner now db =
    if any (is_of_session facts.checkout_session_id) db.payments
    then db
    else add_payment (stripe_payment now facts owner) db

abbrev pub grant_stripe_to : StripePaymentFacts → Option Owner → M Bool
grant_stripe_to facts none = return false
grant_stripe_to facts (some owner) = do execute (insert_stripe_payment facts owner); return true

unfoldable pub grant_stripe_entitlement : StripePaymentFacts → M Bool
grant_stripe_entitlement facts = do
  entitled ← has_entitlement facts.scan_id
  if entitled
      then return true
      else do owner ← resolve_scan_owner facts.scan_id; grant_stripe_to facts owner
