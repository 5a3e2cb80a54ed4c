-- ===== src/Session/Dialog.antt =====
-- The dialog that clears the demo: one request at a time, and a way back after a failure.
pub mod Laws
use afterglow.Prelude.{
  ℕ, zero, suc, Bool, true, false, ◌||◌, not, List, [], ◌∷◌, String, Option, none, some, str_eq,
  if◌then◌else◌,
}
use Prim.Native.String
use afterglow.Session.{Tab, truthy, reload}

pub record Dialog : Type 0 where
  pub showing : Bool
  pub pending : Bool
  pub disabled : Bool  -- of both buttons
  pub label : String  -- of the confirm button
  pub notice : String

abbrev pub idle_label : String
idle_label = "Clear all demo data"

abbrev pub closed : Dialog
closed = record {
  showing = false;
  pending = false;
  disabled = false;
  label = idle_label;
  notice = "";
}

unfoldable pub open_dialog : Dialog → Dialog
open_dialog d = record d { notice = ""; showing = true }

-- A disabled button sends no click.
unfoldable pub cancel_click : Dialog → Dialog
cancel_click d = if d.disabled then d else record d { showing = false }

-- The `cancel` event of the dialog (the Escape key), whose default closes it.
unfoldable pub escape : Dialog → Dialog
escape d = if d.pending then d else record d { showing = false }

-- The part of the click handler before its first `await`, and whether it sends the reset.
unfoldable pub confirm_click : Dialog → Dialog × Bool
confirm_click d = if d.disabled || d.pending then (d, false) else (
  record d {
    pending = true;
    disabled = true;
    label = "Clearing…";
    notice = "Finishing active work and clearing the demo…";
  },
  true,
)

-- How the request ends: an answer that was read, or what `fetch` or `json` threw.
pub data Outcome : Type 0 where
  answered : (ok cleared : Bool) (generation detail : Option String) → Outcome
  threw : String → Outcome

-- The message that is thrown, if the answer confirms nothing.
unfoldable pub failure : Outcome → Option String
failure (answered ok cleared generation detail) =
    if not ok || not cleared || not (truthy generation)
    then some (elim detail [
      | none ↦ "The reset could not be confirmed."
      | some text ↦ if str_eq text "" then "The reset could not be confirmed." else text
    ])
    else none
failure (threw message) = some message

abbrev generation_of : Outcome → Option String
generation_of (answered ok cleared generation detail) = generation
generation_of (threw message) = none

-- The rest of the handler.
unfoldable pub confirm_end : Outcome → Dialog → Tab → Dialog × Tab
unfolding failure
confirm_end outcome d t = elim (failure outcome) [
  | none ↦ (d, reload (generation_of outcome) true t)
  | some message ↦ (
    record d {
      notice = String.◌++◌ message " Refresh to check the current state before trying again.";
      pending = false;
      disabled = false;
      label = idle_label;
    },
    t,
  )
]

-- The dialog, the tab, and how many reset requests are on their way.
pub record Session : Type 0 where
  pub dialog : Dialog
  pub tab : Tab
  pub in_flight : ℕ

pub data Event : Type 0 where
  opened cancelled escaped confirmed : Event
  ended : Outcome → Event

-- An end is ignored where no request is on its way.
unfoldable pub finish : ℕ → Outcome → Session → Session
unfolding confirm_end
finish zero outcome s = s
finish (suc n) outcome s =
    let (d, t) = confirm_end outcome s.dialog s.tab in record { dialog = d; tab = t; in_flight = n }

-- The buttons and the Escape key of a dialog that is closed reach nothing.
unfoldable pub step : Event → Session → Session
unfolding open_dialog cancel_click escape confirm_click finish
step opened s = record s { dialog = open_dialog s.dialog }
step cancelled s = if s.dialog.showing then record s { dialog = cancel_click s.dialog } else s
step escaped s = if s.dialog.showing then record s { dialog = escape s.dialog } else s
step confirmed s =
    let (d, sent) = confirm_click s.dialog in
    if s.dialog.showing
    then record s { dialog = d; in_flight = if sent then suc s.in_flight else s.in_flight }
    else s
step (ended outcome) s = finish s.in_flight outcome s

unfoldable pub run : List Event → Session → Session
run [] s = s
run (e ∷ es) s = run es (step e s)
