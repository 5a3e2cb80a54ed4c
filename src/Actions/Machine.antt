-- ===== src/Actions/Machine.antt =====
-- The clicks as a machine: the answers to their requests, and what happens around them.
use afterglow.Prelude.{◌≡◌, Bool, true, false, List, [], ◌∷◌, ◌++◌, String}
use afterglow.Ledger.{LedgerEvent, handle}
use afterglow.Console.Refresh
use afterglow.Console.Refresh.{Shell, refresh}
use afterglow.Actions.{
  Said, said, Button, Desk, Owner, by_action, by_button, Task, controlling, running, replaying,
  recording, refreshing, close_dialog, tell, toast_faded, click,
}

pub data Reply : Type 0 where
  got_control : (paused : Bool) → Reply
  got_scenario : (message : Said) → Reply
  got_ok : Reply
  refresh_over : Reply
  failed : String → Reply

-- Which replies a request can have. `refresh` catches its own failures.
abbrev pub Fits : Task → Reply → Type 0
Fits (controlling p) (got_control paused) = Unit
Fits (controlling p) (failed message) = Unit
Fits (running k) (got_scenario message) = Unit
Fits (running k) (failed message) = Unit
Fits (replaying id) got_ok = Unit
Fits (replaying id) (failed message) = Unit
Fits (recording r) got_ok = Unit
Fits (recording r) (failed message) = Unit
Fits (refreshing o) refresh_over = Unit
Fits _ _ = ⊥

abbrev pub control_text : Bool → Said
control_text true = said "Dispatcher paused. New receipts remain in the durable queue."
control_text false = said "Dispatcher resumed. Retained receipts can now settle."

-- `await refresh()` after a request that succeeded.
unfoldable pub then_refresh : Owner → Desk → Desk × List Task
then_refresh o d = (record d { shell = refresh d.shell }, refreshing o ∷ [])

-- The `finally` of `scenario`; the other listener only frees its button.
abbrev pub freed : Owner → Desk → Desk
freed by_action d = record d { busy = false }
freed by_button d = d

unfoldable pub resume : Task → Reply → Desk → Desk × List Task
unfolding then_refresh tell close_dialog
resume (controlling p) (got_control paused) d =
    then_refresh by_action (tell (control_text paused) false d)
resume (running k) (got_scenario message) d = then_refresh by_action (tell message false d)
resume (replaying id) got_ok d = then_refresh by_button (
    tell (said "Original payload requeued. Validation and charge protection still apply.") false
      (close_dialog d))
resume (recording r) got_ok d =
    then_refresh by_button
      (tell (said "Playback receipt accepted durably. The worker will reconcile it.") false d)
resume (refreshing o) refresh_over d = (freed o d, [])
resume (controlling p) (failed message) d = (freed by_action (tell (said message) true d), [])
resume (running k) (failed message) d = (freed by_action (tell (said message) true d), [])
resume (replaying id) (failed message) d = (tell (said message) true d, [])
resume (recording r) (failed message) d = (tell (said message) true d, [])
resume t reply d = (d, [])

pub record World : Type 0 where
  pub desk : Desk
  pub tasks : List Task

abbrev pub clicked : Button → World → World
clicked b w = let (d, started) = click b w.desk in record { desk = d; tasks = started ++ w.tasks }

abbrev pub replied : List Task → Task → List Task → Reply → World → World
replied earlier t later reply w =
    let (d, started) = resume t reply w.desk in
    record { desk = d; tasks = started ++ (earlier ++ later) }

pub data Step : World → World → Type 0 where
  press : (w : World) (b : Button) → Step w (clicked b w)
  answer :
      (w : World) (earlier later : List Task) (t : Task) (reply : Reply)
      → w.tasks ≡ earlier ++ (t ∷ later)
      → Fits t reply
      → Step w (replied earlier t later reply w)
  -- The rest of the page: refreshes and their answers, the ledger, the dialog and the toast's
  -- timer.
  background :
      (w : World) (e : Refresh.Event)
      → Step w (record w { desk = record (w.desk) { shell = Refresh.step e w.desk.shell } })
  ledger_event :
      (w : World) (e : LedgerEvent)
      → Step w (record w { desk = record (w.desk) { ledger = handle e w.desk.ledger } })
  closed : (w : World) → Step w (record w { desk = close_dialog w.desk })
  faded : (w : World) → Step w (record w { desk = toast_faded w.desk })

pub data Reach (w : World) : World → Type 0 where
  here : Reach w w
  next : {u v : World} → Reach w u → Step u v → Reach w v
