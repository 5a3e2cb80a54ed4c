-- ===== src/Intake/Steps.antt =====
-- The intake page with the requests that are out: commands and answers in any order.
use afterglow.Prelude.{◌≡◌, List, ◌∷◌, ◌++◌}
use afterglow.Intake.{Panel, Task, snapshotting, reserving, sending, refreshing, Json}
use afterglow.Intake.Commands.{
  Command, Reply, got_snapshot, got_hold, got_batch, got_refresh, failed, perform, IsAllowed,
  resume,
}

-- Which replies a request can have.
abbrev pub Fits : Task → Reply → Type 0
Fits (snapshotting cost) (got_snapshot s uuid) = Unit
Fits (snapshotting cost) (failed status message) = Unit
Fits (reserving k i) (got_hold r now uuid) = Unit
Fits (reserving k i) (failed status message) = Unit
Fits (sending b) (got_batch status r) = Unit
Fits (sending b) (failed status message) = Unit
Fits refreshing got_refresh = Unit
Fits _ _ = ⊥

pub record World : Type 0 where
  pub panel : Panel
  pub tasks : List Task

pub data Step (json : Json) : World → World → Type 0 where
  command :
      (w : World) (c : Command)
      → IsAllowed c w.panel
      → Step json w (
          let (p, started) = perform json c w.panel in
          record { panel = p; tasks = started ++ w.tasks })
  answer :
      (w : World) (earlier later : List Task) (t : Task) (reply : Reply)
      → w.tasks ≡ earlier ++ (t ∷ later)
      → Fits t reply
      → Step json w (
          let (p, started) = resume json t reply w.panel in
          record { panel = p; tasks = started ++ (earlier ++ later) })

pub data Reach (json : Json) (w : World) : World → Type 0 where
  here : Reach json w w
  next : {u v : World} → Reach json w u → Step json u v → Reach json w v
