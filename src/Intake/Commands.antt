-- ===== src/Intake/Commands.antt =====
-- The intake page as a machine: its listeners as commands, and the answers that they wait for.
use afterglow.Prelude.{◌≡◌, ℕ, Bool, false, List, [], ◌∷◌, String, Option}
use afterglow.Api.{Snapshot, Reservation}
use afterglow.Intake.{
  Kind, Panel, Task, snapshotting, reserving, sending, refreshing, Json, BatchResult,
  price_disabled,
}
use afterglow.Intake.Machine.{
  load_lost, load_click, snapshot_read, hold_read, send_click, batch_read, send_lost, refreshed,
  choose_kind, type_price, type_draft,
}

pub data Command : Type 0 where
  load : (demo : Bool) (now : ℕ) (uuid : ℕ → String) → Command
  send : (demo : Bool) → Command
  kind : Kind → Command
  price : List ℕ → Command
  draft : String → Command

pub data Reply : Type 0 where
  got_snapshot : Snapshot → (ℕ → String) → Reply
  got_hold : Reservation → (now : ℕ) → (ℕ → String) → Reply
  got_batch : (status : ℕ) → BatchResult → Reply
  got_refresh : Reply
  failed : Option ℕ → String → Reply

unfoldable pub perform : Json → Command → Panel → Panel × List Task
unfolding load_click send_click choose_kind type_price type_draft
perform json (load demo now uuid) p = load_click json demo now uuid p
perform json (send demo) p = send_click json demo p
perform json (kind k) p = (choose_kind k p, [])
perform json (price text) p = (type_price text p, [])
perform json (draft text) p = (type_draft text p, [])

-- A disabled price field takes no input.
abbrev pub IsAllowed : Command → Panel → Type 0
IsAllowed (price text) p = price_disabled p ≡ false
IsAllowed _ p = Unit

unfoldable pub resume : Json → Task → Reply → Panel → Panel × List Task
unfolding snapshot_read hold_read batch_read load_lost send_lost refreshed
resume json (snapshotting cost) (got_snapshot s uuid) p = snapshot_read json uuid cost s p
resume json (snapshotting cost) (failed status message) p = (load_lost status message p, [])
resume json (reserving k i) (got_hold r now uuid) p = (hold_read json now uuid r p, [])
resume json (reserving k i) (failed status message) p = (load_lost status message p, [])
resume json (sending b) (got_batch status r) p = batch_read status r p
resume json (sending b) (failed status message) p = (send_lost message p, [])
resume json refreshing _ p = (refreshed p, [])
resume json t _ p = (p, t ∷ [])
