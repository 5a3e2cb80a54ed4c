-- ===== src/Actions.antt =====
-- What clicks on the console's pages do (internal/console/web/app.js): `scenario`, `details`,
-- `openDialog`, `toast` and the shared click listener, cut at their awaits.
pub mod Machine
pub mod Clicks
pub mod Busy
pub mod Told
pub mod Lab
pub mod Offers
pub mod Links
mod Tests
use Prim.Native.String
use afterglow.Prelude.{
  ℕ, zero, suc, Bool, true, false, not, List, [], ◌∷◌, String, Option, none, some, ◌==◌, str_eq,
  if◌then◌else◌, find, filter, length, is_some,
}
use afterglow.Api.{
  Campaign, Screen, Reservation, Delivery, Snapshot, Runtime, Status, accepted, duplicate,
  quarantined, same_status, is_exception,
}
use afterglow.Ledger.{LedgerView, Filter, handle, chosen}
use afterglow.Console.Refresh.{Shell, refresh}

-- The `data-action` of a button.
pub data Kind : Type 0 where
  reserve pause : Kind
  other : String → Kind

-- The button that a click is on.
pub data Button : Type 0 where
  action : Kind → Button
  delivery : String → Button
  filtering : Filter → Button
  screen : String → Button
  replay : String → Button
  proof : String → Button

-- What the dialog of details shows.
pub data Detail : Type 0 where
  reserve_form : List Campaign → List Screen → Detail
  delivery_details : Delivery → (price : Option ℕ) → (can_replay : Bool) → Detail
  screen_details : Screen → (receipts settled_plays : ℕ) → Detail

-- A text, or one that goes on with the numbers of accepted and rejected receipts.
pub data Said : Type 0 where
  said : String → Said
  counted : String → (accepted rejected : ℕ) → Said

pub record Message : Type 0 where
  pub text : Said
  pub error : Bool

pub record Desk : Type 0 where
  pub shell : Shell
  pub ledger : LedgerView
  pub busy : Bool
  pub detail : Option Detail  -- what the dialog shows while it is open
  pub dialog_notice : Option Message
  pub toast : Option Message

-- The requests that a click waits for.
pub data Owner : Type 0 where
  by_action by_button : Owner

pub data Task : Type 0 where
  controlling : (paused : Bool) → Task
  running : String → Task
  replaying : String → Task
  recording : Reservation → Task
  refreshing : Owner → Task

-- `openDialog`
unfoldable pub open_dialog : Detail → Desk → Desk
open_dialog content d = record d { detail = some content; dialog_notice = none }

unfoldable pub close_dialog : Desk → Desk
close_dialog d = record d { detail = none }

-- `toast`: a message for the dialog while it is open, and for the page otherwise.
unfoldable pub tell : Said → Bool → Desk → Desk
tell text error d =
    if is_some d.detail
    then record d { dialog_notice = some (record { text = text; error = error }) }
    else record d { toast = some (record { text = text; error = error }) }

-- The timer of the last toast.
unfoldable pub toast_faded : Desk → Desk
toast_faded d = record d { toast = none }

-- `details`: nothing where the delivery has left the snapshot.
unfoldable pub delivery_content : Snapshot → String → Option Detail
delivery_content s id = elim (find (λ d. str_eq d.id id) s.deliveries) [
  | none ↦ none
  | some d ↦
      let r = find (λ x. str_eq x.id d.reservation_id) s.reservations in
      some (
        delivery_details d (elim r [ none ↦ none | some x ↦ some x.cost_micros ])
          (is_exception d.status))
]

unfoldable pub screen_content : Snapshot → String → Option Detail
screen_content s id = elim (find (λ x. str_eq x.id id) s.screens) [
  | none ↦ none
  | some x ↦
      let receipts = filter (λ d. str_eq d.screen_id x.id) s.deliveries in
      some (
        screen_details x (length receipts)
          (length (filter (λ d. same_status d.status Status.settled) receipts)))
]

unfoldable pub shown : Option Detail → Desk → Desk
unfolding open_dialog
shown none d = d
shown (some content) d = open_dialog content d

-- `!runtime.paused`, also before the first answer.
abbrev pub wants_pause : Option Runtime → Bool
wants_pause none = true
wants_pause (some r) = not r.paused

-- The form to reserve a play.
unfoldable pub open_form : Option Snapshot → Desk → Desk
unfolding open_dialog tell
open_form none d = tell (said "Cannot read properties of null") true d
open_form (some s) d = open_dialog (reserve_form s.campaigns s.screens) d

-- `scenario` past its guard, up to its await.
unfoldable pub start_scenario : Kind → Desk → Desk × List Task
unfolding open_form
start_scenario reserve d = (open_form d.shell.state d, [])
start_scenario pause d = (record d { busy = true }, controlling (wants_pause d.shell.runtime) ∷ [])
start_scenario (other name) d = (record d { busy = true }, running name ∷ [])

unfoldable pub scenario : Kind → Desk → Desk × List Task
unfolding start_scenario
scenario kind d = if d.busy then (d, []) else start_scenario kind d

unfoldable pub show_delivery : Option Snapshot → String → Desk → Desk
unfolding delivery_content shown
show_delivery none id d = d
show_delivery (some s) id d = shown (delivery_content s id) d

unfoldable pub show_screen : Option Snapshot → String → Desk → Desk
unfolding screen_content shown
show_screen none id d = d
show_screen (some s) id d = shown (screen_content s id) d

-- "Record playback". A reservation that the snapshot has not fails where the code reads its fields.
unfoldable pub record_playback : Option Reservation → Desk → Desk × List Task
unfolding tell
record_playback none d = (tell (said "Cannot read properties of undefined") true d, [])
record_playback (some r) d = (d, recording r ∷ [])

unfoldable pub find_playback : Option Snapshot → String → Desk → Desk × List Task
unfolding record_playback tell
find_playback none id d = (tell (said "Cannot read properties of null") true d, [])
find_playback (some s) id d = record_playback (find (λ x. str_eq x.id id) s.reservations) d

-- The listener up to its await.
unfoldable pub click : Button → Desk → Desk × List Task
unfolding scenario show_delivery show_screen find_playback
click (action kind) d = scenario kind d
click (delivery id) d = (show_delivery d.shell.state id d, [])
click (filtering f) d = (record d { ledger = handle (chosen f) d.ledger }, [])
click (screen id) d = (show_screen d.shell.state id d, [])
click (replay id) d = (d, replaying id ∷ [])
click (proof id) d = find_playback d.shell.state id d
