-- ===== src/Payments/Stripe.antt =====
-- What the program uses of the Stripe client, as a parameter: apps/web/lib/payments/stripe.ts, and
-- the checkout of apps/web/lib/payments/checkout.ts.
use geo_readiness.Common.{ℕ, Option, none, some, if◌then◌else◌}
use geo_readiness.Common.Text.{Text, codes, is_empty}
use geo_readiness.Payments.{Env, StripePaymentFacts}

-- A field that is an id or an object with an id.
pub data Reference : Type 0 where
  id_text expanded : Text → Reference

unfoldable pub as_id : Option Reference → Option Text
as_id none = none
as_id (some (id_text id)) = some id
as_id (some (expanded id)) = some id

pub record Session : Type 0 where
  pub id : Text
  pub payment_status : Text
  pub client_reference_id : Option Text
  pub metadata_scan_id : Option Text
  pub payment_intent : Option Reference
  pub customer : Option Reference
  pub amount_total : Option ℕ
  pub currency : Option Text

pub record Event : Type 0 where
  pub id : Text
  pub type : Text
  pub object : Session

-- `none` stands for a call that throws. A checkout is created for a price, a scan and two addresses,
-- and has an address of its own, or none.
pub record Stripe : Type 0 where
  pub construct_event : Text → Text → Text → Option Event
  pub retrieve : Text → Option Session
  pub create : Text → Text → Text → Text → Option (Option Text)

-- `process.env.X` is a text that is not empty.
abbrev pub given : Option Text → Option Text
given none = none
given (some t) = if is_empty t then none else some t

-- `getStripe`: it throws without a key.
unfoldable pub get_stripe : Env → Stripe → Option Stripe
get_stripe env stripe = elim (given env.stripe_secret_key) [ none ↦ none | some key ↦ some stripe ]

-- `a ?? b`
abbrev pub or_else {ℓ} : {A : Type ℓ} → Option A → Option A → Option A
or_else none b = b
or_else (some a) b = some a

abbrev pub or_value {ℓ} : {A : Type ℓ} → Option A → A → A
or_value none b = b
or_value (some a) b = a

-- `session.client_reference_id ?? session.metadata?.scan_id ?? null`
unfoldable pub scan_of : Session → Option Text
scan_of session = or_else session.client_reference_id session.metadata_scan_id

unfoldable pub facts_of : Text → Session → StripePaymentFacts
facts_of scan_id session = record {
  scan_id = scan_id;
  checkout_session_id = session.id;
  payment_intent_id = as_id session.payment_intent;
  customer_id = as_id session.customer;
  amount = or_value session.amount_total 0;
  currency = or_value session.currency (codes "eur");
}
