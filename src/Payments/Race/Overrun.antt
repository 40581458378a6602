-- ===== src/Payments/Race/Overrun.antt =====
-- The cap of the limited code under redemptions that run at the same time.
use geo_readiness.Common.{
  ℕ, suc, ◌+◌, ◌≡◌, ◌<◌, refl, sym, false, some, List, [], ◌∷◌, ◌++◌, map, append_assoc, leb, All,
  length, arith, Bool-cases, Option-cases, inl, inr,
}
use mathlib.Core.Path.{subst}
use geo_readiness.Common.Text.{Text}
use geo_readiness.Store.{Db}
use geo_readiness.Payments.{
  Env, limited, granted, Owner, is_entitled, owner_of, limited_used, limited_promo_max, add_payment,
  promo_payment,
}
use geo_readiness.Payments.Outcomes.{promo_answer, promo_db}
use geo_readiness.Payments.Race.{
  Phase, asked, unentitled, owned, below_cap, answered, move, System, Reach, arrived, step,
}

-- Four statements of a redemption on its own come to what the whole redemption comes to.
abbrev pub moved : Env → ℕ → Phase × Db → Phase × Db
moved env now (p, db) = move env now p db

pub move-alone :
    (env : Env) (now : ℕ) (id : Text) (db : Db)
    → moved env now (moved env now (moved env now (moved env now (asked id, db))))
      ≡ (answered (promo_answer env id limited db), promo_db now env id limited db)
unfolding move
move-alone env now id db = elim (Bool-cases (is_entitled id db)) [
  | inl e ↦ rw e refl
  | inr e ↦ rw e (elim (Option-cases (owner_of id db)) [
    | inl q ↦ rw q refl
    | inr (owner, q) ↦ rw q (elim (Bool-cases (leb (limited_promo_max env) (limited_used db))) [
      | inl r ↦ rw r refl
      | inr r ↦ rw r refl
    ])
  ])
]

abbrev pub Claim : Type 0
Claim = Text × Owner

-- The rows of all the claims.
abbrev pub pay_all : ℕ → List Claim → Db → Db
pay_all now [] db = db
pay_all now ((id, owner) ∷ claims) db =
    pay_all now claims (add_payment (promo_payment now id limited owner) db)

-- The scan is not entitled and has the owner.
abbrev pub IsOpen : Db → Claim → Type 0
IsOpen db (id, owner) = (is_entitled id db ≡ false) × (owner_of id db ≡ some owner)

module _ (env : Env) (now : ℕ) (t : System) where
  abbrev Reaches : Db → List Phase → Type 0
  Reaches db phases = Reach env now t (record { db = db; phases = phases })

  shift :
      (before : List Phase) (p : Phase) (after : List Phase) (db : Db)
      → Reaches db ((before ++ p ∷ []) ++ after)
      → Reaches db (before ++ (p ∷ after))
  shift before p after db r = subst (Reaches db) (append_assoc before (p ∷ []) after) r

  -- Every claim makes the same move, which reads only.
  round :
      (P Q : Claim → Phase) (before : List Phase) (claims : List Claim) (db : Db)
      → All (λ c. move env now (P c) db ≡ (Q c, db)) claims
      → Reaches db (before ++ map Q claims)
      → Reaches db (before ++ map P claims)
  round P Q before [] db h r = r
  round P Q before (c ∷ claims) db (m, ms) r = step before (P c) (map P claims) (
      subst (λ x. Reaches x.1 (before ++ (x.0 ∷ map P claims))) (sym m)
        (shift before (Q c) (map P claims) db (
          round P Q (before ++ Q c ∷ []) claims db ms
            (subst (Reaches db) (sym (append_assoc before (Q c ∷ []) (map Q claims))) r))))

  pay_round :
      (before : List Phase) (claims : List Claim) (db : Db)
      → Reaches (pay_all now claims db) (before ++ map (λ c. answered granted) claims)
      → Reaches db (before ++ map (λ c. below_cap c.0 c.1) claims)
  unfolding move
  pay_round before [] db r = r
  pay_round before ((id, owner) ∷ claims) db r =
      step before (below_cap id owner) (map (λ c. below_cap c.0 c.1) claims) (
        shift before (answered granted) (map (λ c. below_cap c.0 c.1) claims)
          (add_payment (promo_payment now id limited owner) db)
          (pay_round (before ++ answered granted ∷ []) claims
            (add_payment (promo_payment now id limited owner) db)
            (subst
              (Reaches (pay_all now claims (add_payment (promo_payment now id limited owner) db)))
              (sym
                (append_assoc before (answered granted ∷ []) (map (λ c. answered granted) claims)))
              r)))

-- After the redemptions: all granted, all rows written.
abbrev pub overrun : ℕ → List Claim → Db → System
overrun now claims db = record {
  db = pay_all now claims db;
  phases = map (λ c. answered granted) claims;
}

All-map :
    {P Q : Claim → Type 0}
    → ((c : Claim) → P c → Q c)
    → (claims : List Claim) → All P claims
    → All Q claims
All-map f [] h = tt
All-map f (c ∷ claims) (p, h) = (f c p, All-map f claims h)

All-always : {P : Claim → Type 0} → ((c : Claim) → P c) → (claims : List Claim) → All P claims
All-always f [] = tt
All-always f (c ∷ claims) = (f c, All-always f claims)

used-pay :
    (now : ℕ) (id : Text) (owner : Owner) (db : Db)
    → limited_used (add_payment (promo_payment now id limited owner) db) ≡ suc (limited_used db)
unfolding limited_used
used-pay now id owner db = refl

used-pay_all :
    (now : ℕ) (claims : List Claim) (db : Db)
    → limited_used (pay_all now claims db) ≡ length claims + limited_used db
used-pay_all now [] db = omega arith
used-pay_all now ((id, owner) ∷ claims) db = omega (
  arith,
  used-pay_all now claims (add_payment (promo_payment now id limited owner) db),
  used-pay now id owner db,
)

-- Below the cap, any number of redemptions of the limited code for scans that are not entitled and
-- have an owner can run so that each is granted and the code is then used as many times more as
-- there are redemptions, whatever the cap.
pub overrun-Reach :
    (env : Env) (now : ℕ) (claims : List Claim) (db : Db)
    → All (IsOpen db) claims
    → limited_used db < limited_promo_max env
    → Reach env now
        (overrun now claims db)
        (record { db = db; phases = map (λ c. asked c.0) claims })
      × (limited_used (overrun now claims db).db ≡ length claims + limited_used db)
unfolding move
overrun-Reach env now claims db open_claims below = (
  round env now (overrun now claims db) (λ c. asked c.0) (λ c. unentitled c.0) [] claims db
      (All-map (λ c h. rw h.0 refl) claims open_claims)
      (round env now (overrun now claims db) (λ c. unentitled c.0) (λ c. owned c.0 c.1) [] claims db
        (All-map (λ c h. rw h.1 refl) claims open_claims)
        (round env now (overrun now claims db) (λ c. owned c.0 c.1) (λ c. below_cap c.0 c.1) []
          claims db (All-always (λ c. rw not_reached refl) claims)
          (pay_round env now (overrun now claims db) [] claims db arrived))),
  used-pay_all now claims db,
)
  where
    not_reached : leb (limited_promo_max env) (limited_used db) ≡ false
    not_reached = ground arith
