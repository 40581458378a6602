-- ===== src/Payments/Race.antt =====
-- Redemptions of the limited code that run at the same time: `grantPromoEntitlement` of
-- apps/web/lib/payments/entitlements.ts, one statement at a time. It opens no transaction, so the
-- statements of several requests may come in any order.
pub mod Overrun
mod Tests
use geo_readiness.Common.{ℕ, ◌≡◌, Option, none, some, List, ◌∷◌, ◌++◌, map, leb, if◌then◌else◌}
use geo_readiness.Common.Text.{Text}
use geo_readiness.Store.{Db}
use geo_readiness.Payments.{
  Env, limited, PromoGrant, granted, already_entitled, not_found, limit_reached, Owner, is_entitled,
  owner_of, limited_used, limited_promo_max, add_payment, promo_payment,
}

-- Where a redemption stands: before it asks for the entitlement, for the owner, for the number of redemptions, before it
-- writes its row, or at its answer.
pub data Phase : Type 0 where
  asked : Text → Phase
  unentitled : Text → Phase
  owned : Text → Owner → Phase
  below_cap : Text → Owner → Phase
  answered : PromoGrant → Phase

abbrev pub after_owner : Text → Option Owner → Phase
after_owner id none = answered not_found
after_owner id (some owner) = owned id owner

-- The next statement of a redemption.
unfoldable pub move : Env → ℕ → Phase → Db → Phase × Db
move env now (asked id) db =
    (if is_entitled id db then answered already_entitled else unentitled id, db)
move env now (unentitled id) db = (after_owner id (owner_of id db), db)
move env now (owned id owner) db = (
  if leb (limited_promo_max env) (limited_used db)
      then answered limit_reached
      else below_cap id owner,
  db,
)
move env now (below_cap id owner) db =
    (answered granted, add_payment (promo_payment now id limited owner) db)
move env now (answered grant) db = (answered grant, db)

pub record System : Type 0 where
  pub db : Db
  pub phases : List Phase

-- What may come about, one statement of one of the redemptions after the other.
pub data Reach (env : Env) (now : ℕ) (t : System) : System → Type 0 where
  arrived : Reach env now t t
  step :
      {db : Db} (before : List Phase) (p : Phase) (after : List Phase)
      → Reach env now t (record {
        db = (move env now p db).1;
        phases = before ++ ((move env now p db).0 ∷ after);
      })
      → Reach env now t (record { db = db; phases = before ++ (p ∷ after) })
