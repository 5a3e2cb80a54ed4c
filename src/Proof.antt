-- ===== src/Proof.antt =====
-- The live integration proof of internal/console/web/proof.js: a run of six stages that is
-- resumed with the same identities after a failure.
pub mod Stages
pub mod Resume
pub mod Identity
pub mod Outcomes
pub mod OnRecord
pub mod Verified
pub mod Progress
pub mod Observe
pub mod Page
pub mod Labels
pub mod Told
pub mod Inline
pub mod Panels
pub mod Storage
pub mod Saved
pub mod Written
pub mod Recovered
mod Tests
use afterglow.Prelude.{
  ℕ, ◌+◌, Bool, true, false, ◌&&◌, ◌||◌, not, List, [], ◌∷◌, String, Option, none, some, ◌==◌,
  str_eq, leb, if◌then◌else◌, all, get_elem?, set,
}
use afterglow.Api.{Reservation, ReservationInput, Delivery, Status, accepted, same_status}
use afterglow.Intake.{Receipt, Item}
use afterglow.Console.Request.{Result, ok, thrown}

-- The identities that a run is made of.
pub record Plan : Type 0 where
  pub campaign : String
  pub screen : String
  pub keys : List String
  pub events : List String

-- What a batch request answers: the HTTP status and the body.
pub record BatchAnswer : Type 0 where
  pub http : ℕ
  pub accepted : ℕ
  pub rejected : ℕ
  pub replayed : ℕ
  pub statuses : List ℕ
  pub ids : List String

-- A delivery as it was read back, with its reservation.
pub record Evidence : Type 0 where
  pub delivery : Delivery
  pub reservation : Option Reservation

pub record Run : Type 0 where
  pub plan : Plan
  pub done : List Bool
  pub current : ℕ
  pub holds : List Reservation
  pub payload : List Item
  pub correction : Option Receipt
  pub batch : Option BatchAnswer
  pub replay : Option BatchAnswer
  pub initial : List Evidence
  pub corrected : Option String
  pub final : Option (List Evidence)

-- A run after some of its code, with the message of what was thrown.
abbrev pub Outcome : Type 0
Outcome = Run × Option String

-- `assert(condition, text)` at the end of a stage.
abbrev pub assert : Bool → String → Run → Outcome
assert true text r = (r, none)
assert false text r = (r, some text)

-- `await` of a request whose value goes on to `rest`.
abbrev pub awaited {ℓ} : {A : Type ℓ} → Result A → Run → (A → Outcome) → Outcome
awaited (ok a) r rest = rest a
awaited (thrown message status) r rest = (r, some message)

-- Reading an element that is not there throws.
abbrev pub element {ℓ} : {A : Type ℓ} → Option A → Run → (A → Outcome) → Outcome
element none r rest = (r, some "Cannot read properties of undefined")
element (some a) r rest = rest a

-- The part after a stage runs only where the stage did not throw.
abbrev pub and_then : Outcome → (Run → Outcome) → Outcome
and_then (r, none) rest = rest r
and_then (r, some message) rest = (r, some message)

-- `batch`: the service accepts three and rejects the malformed fourth.
unfoldable pub check_batch : Result BatchAnswer → Result BatchAnswer
check_batch (thrown message status) = thrown message status
check_batch (ok a) =
    if not (a.http == 207)
    then thrown "Expected partial success. Keep this run and retry unchanged." none
    else elim (get_elem? a.statuses 3) [
      | none ↦
          if a.accepted == 3 && a.rejected == 1
          then thrown "Cannot read properties of undefined" none
          else thrown "Unexpected batch outcome. Evidence retained for inspection." none
      | some s ↦
          if a.accepted == 3 && a.rejected == 1 && s == 400
          then ok a
          else thrown "Unexpected batch outcome. Evidence retained for inspection." none
    ]

-- What the reads of `observe` give: those up to its deadline, and the first one after it.
pub record Polls : Type 0 where
  pub timely : List (Result (List Evidence))
  pub late : Result (List Evidence)

unfoldable pub is_terminal : List Evidence → Bool
is_terminal rows = all (λ e. not (same_status e.delivery.status accepted)) rows

-- `observe`: reads until every decision is final.
unfoldable pub observe_from :
    List (Result (List Evidence)) → Result (List Evidence) → Result (List Evidence)
unfolding is_terminal
observe_from [] (thrown message status) = thrown message status
observe_from [] (ok rows) =
    if is_terminal rows
    then ok rows
    else thrown
        "Worker has not completed within 20 seconds. Check the Failure lab and connection, then resume this run."
        none
observe_from (thrown message status ∷ polls) late = thrown message status
observe_from (ok rows ∷ polls) late =
    let rest = observe_from polls late in if is_terminal rows then ok rows else rest

unfoldable pub observe : Polls → Result (List Evidence)
unfolding observe_from
observe p = observe_from p.timely p.late

-- The service during one execution.
pub record Server : Type 0 where
  pub reserve : String → ReservationInput → Result Reservation
  pub first_batch : List Item → Result BatchAnswer
  pub second_batch : List Item → Result BatchAnswer
  pub first_polls : List String → Polls
  pub correct : Option Receipt → Result String
  pub second_polls : List String → Polls

-- `step`: a stage that is verified is skipped; one that throws stays unverified.
unfoldable pub step : ℕ → (Run → Outcome) → Run → Outcome
step i work r = elim (get_elem? r.done i) [
  | some true ↦ (r, none)
  | _ ↦
      and_then (work (record r { current = i }))
        (λ q. (record q { done = set q.done i true }, none))
]
