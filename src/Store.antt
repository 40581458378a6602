-- ===== src/Store.antt =====
-- The data base behind apps/web/lib/db.ts: the tables that the modelled queries touch, and the
-- calls that may throw. A statement acts on the tables at the time of its transaction. Whether a
-- statement fails (no connection, a value that the column refuses) is foretold by a list of
-- faults, one for each statement sent, so that a theorem about all lists covers failure at any
-- point.
pub mod Logic
pub mod Transaction
mod Tests
use geo_readiness.Common.{ℕ, Bool, true, false, Option, none, some, List, [], ◌∷◌, if◌then◌else◌}
use geo_readiness.Common.Text.{Text, text_eq, lower}
use geo_readiness.Errors.{Error, query_failed, Outcome, ok, err}

-- Columns of type `uuid` are compared whatever the capitals.
abbrev pub uuid_eq : Text → Text → Bool
uuid_eq a b = text_eq (lower a) (lower b)

pub data PaymentStatus : Type 0 where
  pending paid failed expired refunded : PaymentStatus

pub record Payment : Type 0 where
  pub organization_id : Text
  pub project_id : Text
  pub scan_id : Text
  pub provider : Text
  pub product_code : Text
  pub amount : ℕ
  pub currency : Text
  pub status : PaymentStatus
  pub paid_at : ℕ
  pub checkout_session_id : Option Text
  pub payment_intent_id : Option Text
  pub customer_id : Option Text

pub record StripeEvent : Type 0 where
  pub event_id : Text
  pub event_type : Text
  pub event_status : Text
  pub processed_at : Option ℕ

pub record Project : Type 0 where
  pub id : Text
  pub organization_id : Text
  pub canonical_domain : Text
  pub status : Text

pub record User : Type 0 where
  pub id : Text
  pub email : Text
  pub status : Text
  pub email_verified_at : Option ℕ

pub record Credential : Type 0 where
  pub user_id : Text
  pub password_hash : Text

pub record Member : Type 0 where
  pub organization_id : Text
  pub user_id : Text
  pub role : Text

pub record LoginSession : Type 0 where
  pub id : Text
  pub user_id : Text
  pub token_hash : Text
  pub expires_at : ℕ
  pub revoked_at : Option ℕ
  pub last_used_at : Option ℕ
  pub user_agent : Option Text
  pub ip_hash : Option Text

pub record VerificationToken : Type 0 where
  pub user_id : Text
  pub token_hash : Text
  pub expires_at : ℕ
  pub consumed_at : Option ℕ

pub record Organization : Type 0 where
  pub id : Text
  pub name : Text
  pub owner_user_id : Text
  pub created_at : ℕ

pub record Job : Type 0 where
  pub job_type : Text
  pub scan_id : Text
  pub idempotency_key : Text
  pub status : Text

pub record Report : Type 0 where
  pub id : Text
  pub organization_id : Text
  pub project_id : Text
  pub depth : Text
  pub scan_id : Text
  pub content : Text
  pub created_at : ℕ

pub record Scan : Type 0 where
  pub id : Text
  pub project_id : Text
  pub scan_type : Text
  pub methodology_version : Text
  pub status : Text
  pub max_pages : ℕ
  pub max_browser_renders : ℕ
  pub error_code : Option Text
  pub page_count : ℕ
  pub requested_at : ℕ

pub record LoginAttempt : Type 0 where
  pub email : Text
  pub ip_hash : Option Text
  pub successful : Bool
  pub created_at : ℕ

pub record Db : Type 0 where
  pub payments : List Payment
  pub stripe_events : List StripeEvent
  pub projects : List Project
  pub scans : List Scan
  pub login_attempts : List LoginAttempt
  pub users : List User
  pub organizations : List Organization
  pub jobs : List Job
  pub reports : List Report
  pub credentials : List Credential
  pub members : List Member
  pub sessions : List LoginSession
  pub verification_tokens : List VerificationToken

pub record World : Type 0 where
  pub now : ℕ
  pub db : Db
  pub faults : List Bool

-- A world whose queries all go through.
abbrev pub calm : ℕ → Db → World
calm now db = record { now = now; db = db; faults = [] }

-- A call that may throw.
abbrev pub M {ℓ} : Type ℓ → Type ℓ
M A = World → Outcome A × World

abbrev pub return {ℓ} : {A : Type ℓ} → A → M A
return a w = (ok a, w)

abbrev pub throw {ℓ} : {A : Type ℓ} → Error → M A
throw e w = (err e, w)

abbrev pub and_then {ℓ κ} :
    {A : Type ℓ} {B : Type κ} → (A → M B) → Outcome A × World → Outcome B × World
and_then k (ok a, w) = k a w
and_then k (err e, w) = (err e, w)

infixl 15 ◌>>=◌ ◌>>◌
abbrev pub ◌>>=◌ {ℓ κ} : {A : Type ℓ} {B : Type κ} → M A → (A → M B) → M B
(m >>= k) w = and_then k (m w)

abbrev pub ◌>>◌ {ℓ κ} : {A : Type ℓ} {B : Type κ} → M A → M B → M B
(m >> k) w = and_then (λ a. k) (m w)

abbrev pub faulty : List Bool → Bool
faulty [] = false
faulty (f ∷ fs) = f

abbrev pub later : List Bool → List Bool
later [] = []
later (f ∷ fs) = fs

abbrev pub settled {ℓ} : {A : Type ℓ} → World → A × Db → Outcome A × World
settled w (a, db) = (ok a, record w { db = db })

-- `query`: one statement, which fails as a whole or acts on the tables.
unfoldable pub query {ℓ} : {A : Type ℓ} → (ℕ → Db → A × Db) → M A
query statement w =
    let next = record w { faults = later w.faults } in
    if faulty w.faults then (err query_failed, next) else settled next (statement w.now w.db)

-- A statement that only reads.
abbrev pub select {ℓ} : {A : Type ℓ} → (ℕ → Db → A) → M A
select f = query (λ now db. (f now db, db))

-- A statement that only writes.
abbrev pub execute : (ℕ → Db → Db) → M (Unit {0})
execute f = query (λ now db. (tt, f now db))

-- BEGIN: from here on the connection can go back to the tables as they are now.
abbrev pub begin : M (Option Db)
begin = query (λ now db. (some db, db))

abbrev pub commit : M (Unit {0})
commit = execute (λ now db. db)

-- The `try` block: what the connection can go back to, and how the block ended. BEGIN, the body,
-- COMMIT.
abbrev pub inside {ℓ} :
    {A : Type ℓ} → M A → Outcome (Option Db) × World → Option Db × (Outcome A × World)
inside body (err e, w) = (none, (err e, w))
inside body (ok begun, w) = (begun, (do a ← body; commit; return a) w)

-- The tables behind a rollback: those at BEGIN, or unchanged where no transaction was open.
abbrev pub rolled_back : Option Db → Db → Db
rolled_back none now = now
rolled_back (some before) now = before

-- The `catch` block sends ROLLBACK, whose own failure replaces the error; the server rolls back
-- too when it loses the connection.
abbrev pub closed {ℓ} : {A : Type ℓ} → Option Db × (Outcome A × World) → Outcome A × World
closed (begun, (ok a, w)) = (ok a, w)
closed (begun, (err e, w)) =
    let next = record w { db = rolled_back begun w.db; faults = later w.faults } in
    if faulty w.faults then (err query_failed, next) else (err e, next)

-- `pool.connect()`, which may fail.
abbrev pub connect : M (Unit {0})
connect = execute (λ now db. db)

abbrev pub transact {ℓ} : {A : Type ℓ} → M A → M A
transact body w = closed (inside body (begin w))

-- `withTransaction`, on a connection of its own.
unfoldable pub with_transaction {ℓ} : {A : Type ℓ} → M A → M A
with_transaction body = do connect; transact body
