-- ===== src/Intake.antt =====
-- internal/console/web/intake.js: the partner intake page. "Load example" plans a reservation under
-- an idempotency key, obtains its hold and writes a request body; "Send batch" posts the body. The
-- state is the closure's variables; the functions are cut at their awaits, and a `Task` is the
-- request that is out. `Date.now()` and the values of `crypto.randomUUID()` are arguments, and so
-- is `JSON` with what is relied on of it.
pub mod Machine
pub mod Commands
pub mod Retry
pub mod Steps
pub mod Single
pub mod Page
pub mod Labels
pub mod Shown
pub mod Keys
pub mod Idempotent
mod Tests
use afterglow.Prelude.{
  ℕ, ◌+◌, ◌-◌, Bool, true, false, ◌&&◌, ◌||◌, not, List, [], ◌∷◌, String, Option, none, some, ◌==◌,
  leb, ltb, if◌then◌else◌, is_some,
}
use afterglow.Api.{Reservation, ReservationInput, Snapshot, Screen, Campaign, HoldState, affords}
use afterglow.Price.{Priced, PriceError, micros, refused, price_micros}

pub data Kind : Type 0 where
  partial clean duplicate replay schema window : Kind

pub record Receipt : Type 0 where
  pub schema_version : ℕ
  pub event_id : String
  pub reservation_id : String
  pub screen_id : String
  pub played_at : ℕ
  pub duration_ms : ℕ

-- An item of a request body.
pub data Item : Type 0 where
  receipt : Receipt → Item
  malformed : Item

pub record Plan : Type 0 where
  pub key : String
  pub input : ReservationInput
  pub hold : Option Reservation

-- The values of `notice`.
pub data Notice : Type 0 where
  silent kind_changed price_changed preparing_hold sending_batch response_received : Notice
  price_refused : PriceError → Notice
  ready : ℕ → Kind → Notice
  load_failed : String → (same_key : Bool) → Notice
  invalid_batch : String → Notice
  send_failed : String → Notice

-- The outcome of one item of a batch.
pub record ItemResult : Type 0 where
  pub index : ℕ
  pub status : ℕ
  pub replayed : Bool
  pub detail : String
  pub id : Option String
  pub retryable : Bool

pub record BatchResult : Type 0 where
  pub accepted : ℕ
  pub rejected : ℕ
  pub replayed : ℕ
  pub results : List ItemResult

pub record Panel : Type 0 where
  pub price : List ℕ
  pub price_error : Option PriceError
  pub kind : Kind
  pub plan : Option Plan
  pub preparing : Bool
  pub pending : Bool
  pub draft : String
  pub result : Option BatchResult
  pub notice : Notice
  pub http_status : ℕ

pub data Task : Type 0 where
  snapshotting : (cost : ℕ) → Task
  reserving : (key : String) → ReservationInput → Task
  sending : (body : String) → Task
  refreshing : Task

-- What `JSON.parse` and the checks on its result make of a request body: the message that is
-- thrown, no `receipts` array, or what `JSON.stringify` writes of the result, and the number of
-- receipts.
pub data Parsed : Type 0 where
  unreadable : String → Parsed
  no_array : Parsed
  receipts : (body : String) → ℕ → Parsed

-- `JSON`, on what the page writes and reads.
pub record Json : Type 0 where
  pub stringify : List Item → String  -- `JSON.stringify({ receipts }, null, 2)`
  pub compact : List Item → String  -- `JSON.stringify({ receipts })`
  pub parse : String → Parsed

-- `examplePlan && !examplePlan.hold`
abbrev pub is_uncertain : Option Plan → Bool
is_uncertain none = false
is_uncertain (some plan) = not (is_some plan.hold)

unfoldable pub price_disabled : Panel → Bool
price_disabled p = p.pending || is_uncertain p.plan

-- Whether the plan at hand cannot serve the price that was typed.
unfoldable pub needs_plan : ℕ → ℕ → Option Plan → Bool
needs_plan now cost none = true
needs_plan now cost (some plan) = elim (plan.hold) [
  | none ↦ false
  | some hold ↦ leb hold.expires_at now || not (plan.input.cost_micros == cost)
]

-- The receipts of an example, for a hold.
unfoldable pub receipt_for : Reservation → String → Receipt
receipt_for r event = record {
  schema_version = 1;
  event_id = event;
  reservation_id = r.id;
  screen_id = r.screen_id;
  played_at = r.created_at + 1;
  duration_ms = 10000;
}

unfoldable pub example_items : Kind → Reservation → (ℕ → String) → List Item
unfolding receipt_for
example_items clean r uuid = receipt (receipt_for r (uuid 0)) ∷ []
example_items duplicate r uuid =
    receipt (receipt_for r (uuid 1))
    ∷ receipt (receipt_for r (uuid 2))
    ∷ receipt (receipt_for r (uuid 3))
    ∷ receipt (receipt_for r (uuid 4))
    ∷ receipt (receipt_for r (uuid 5))
    ∷ []
example_items replay r uuid =
    receipt (receipt_for r (uuid 0)) ∷ receipt (receipt_for r (uuid 0)) ∷ []
example_items schema r uuid = receipt (record (receipt_for r (uuid 0)) { schema_version = 99 }) ∷ []
example_items window r uuid =
    receipt (record (receipt_for r (uuid 0)) { played_at = r.created_at - 1000 }) ∷ []
example_items partial r uuid =
    receipt (receipt_for r (uuid 0)) ∷ receipt (receipt_for r (uuid 1)) ∷ malformed ∷ []

-- The statuses after which a reservation is known not to have been made.
unfoldable pub is_definitive : Option ℕ → Bool
is_definitive none = false
is_definitive (some s) = s == 400 || s == 401 || s == 403 || s == 404 || s == 409 || s == 422
