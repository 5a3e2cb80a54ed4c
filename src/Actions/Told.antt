-- ===== src/Actions/Told.antt =====
-- Where the outcome of a request is told.
use afterglow.Prelude.{
  ◌≡◌, refl, Bool, true, false, [], ◌∷◌, String, Option, none, some, is_some, if◌then◌else◌,
  Bool-cases, inl, inr,
}
use mathlib.Core.Bool.{false≢true}
use afterglow.Actions.{
  Said, said, Message, Desk, Owner, by_action, by_button, Task, controlling, running, replaying,
  recording, refreshing, close_dialog, tell,
}
use afterglow.Actions.Machine.{
  Reply, got_control, got_scenario, got_ok, failed, Fits, control_text, freed, resume,
}

-- The reader of a dialog sees its notice, and else the toast.
abbrev pub IsTold : Desk → Message → Type 0
IsTold d m = (if is_some d.detail then d.dialog_notice else d.toast) ≡ some m

-- Whether the request is one of the service, and not the refresh after it.
abbrev pub asks : Task → Bool
asks (refreshing o) = false
asks _ = true

abbrev pub owner : Task → Owner
owner (controlling p) = by_action
owner (running k) = by_action
owner (refreshing o) = o
owner _ = by_button

-- What a failure says.
abbrev pub failure : Reply → Option String
failure (failed message) = some message
failure _ = none

-- What a success says: the dispatcher's new state, the scenario's own message, or what becomes of
-- the receipt.
abbrev pub success : Task → Reply → Option Said
success (controlling p) (got_control true) =
    some (said "Dispatcher paused. New receipts remain in the durable queue.")
success (controlling p) (got_control false) =
    some (said "Dispatcher resumed. Retained receipts can now settle.")
success (running k) (got_scenario message) = some message
success (replaying id) got_ok =
    some (said "Original payload requeued. Validation and charge protection still apply.")
success (recording r) got_ok =
    some (said "Playback receipt accepted durably. The worker will reconcile it.")
success _ _ = none

-- A message about a reply: for a failure its text, marked as an error, and for a success its own.
abbrev pub IsAbout : Task → Reply → Message → Type 0
IsAbout t (failed message) m = m ≡ record { text = said message; error = true }
IsAbout t reply m = (success t reply ≡ some m.text) × (m.error ≡ false)

tell-IsTold :
    (text : Said) (error : Bool) (d : Desk)
    → IsTold (tell text error d) (record { text = text; error = error })
unfolding tell
tell-IsTold text error d = elim (Bool-cases (is_some d.detail)) [
  | inl open' ↦ rw open' (rw open' refl)
  | inr no_dialog ↦ rw no_dialog (rw no_dialog refl)
]

freed-IsTold : (o : Owner) (d : Desk) (m : Message) → IsTold d m → IsTold (freed o d) m
freed-IsTold by_action d m h = h
freed-IsTold by_button d m h = h

-- Every answer to a request of a click, and every failure of one, is told where the reader looks:
-- in the dialog while it is open, and else in a toast. A failure is told with its own message as an
-- error, and starts nothing more; a success is told with the new state of the dispatcher, the
-- scenario's message or what becomes of the receipt, and is followed by a refresh.
pub resume-IsTold :
    (t : Task) (reply : Reply) (d : Desk)
    → Fits t reply
    → asks t ≡ true
    → (m : Message) × IsTold (resume t reply d).0 m
      × IsAbout t reply m
      × ((resume t reply d).1 ≡ (if is_some (failure reply) then [] else refreshing (owner t) ∷ []))
unfolding resume
resume-IsTold (controlling p) (got_control true) d fit h =
    (_, tell-IsTold (control_text true) false d, (refl, refl), refl)
resume-IsTold (controlling p) (got_control false) d fit h =
    (_, tell-IsTold (control_text false) false d, (refl, refl), refl)
resume-IsTold (running k) (got_scenario message) d fit h =
    (_, tell-IsTold message false d, (refl, refl), refl)
resume-IsTold (replaying id) got_ok d fit h = (
  _,
  tell-IsTold (said "Original payload requeued. Validation and charge protection still apply.")
      false (close_dialog d),
  (refl, refl),
  refl,
)
resume-IsTold (recording r) got_ok d fit h = (
  _,
  tell-IsTold (said "Playback receipt accepted durably. The worker will reconcile it.") false d,
  (refl, refl),
  refl,
)
resume-IsTold (controlling p) (failed message) d fit h =
    (_, tell-IsTold (said message) true d, refl, refl)
resume-IsTold (running k) (failed message) d fit h =
    (_, tell-IsTold (said message) true d, refl, refl)
resume-IsTold (replaying id) (failed message) d fit h =
    (_, tell-IsTold (said message) true d, refl, refl)
resume-IsTold (recording r) (failed message) d fit h =
    (_, tell-IsTold (said message) true d, refl, refl)
resume-IsTold (refreshing o) reply d fit h = absurd (false≢true h)
resume-IsTold _ _ d fit h = absurd fit
