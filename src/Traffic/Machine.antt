-- ===== src/Traffic/Machine.antt =====
-- The page as a machine: the handlers as commands, and the answers to the requests that are out,
-- in any order that the network gives them.
use afterglow.Prelude.{◌≡◌, Bool, true, false, List, [], ◌∷◌, ◌++◌, ℕ, String, none, Option}
use afterglow.Traffic.{
  Sample, Batch, Attempts, Report, Owner, Panel, Saved, silent, Task, reading, fetching, sending,
  clearing, report_read, report_lost,
}
use afterglow.Traffic.Handlers.{
  send_batch, ingest, ingest_failed, batch_answered, empty_batch, empty_answered, empty_failed,
  random_feed, choose, rendered, refresh_click, console_refresh,
}

pub data Command : Type 0 where
  load replay empty generate refreshing : Command
  choosing : Sample → Command
  rendering console_refreshing : Command

unfoldable pub perform : Command → Panel → Panel × List Task
unfolding ingest empty_batch random_feed choose rendered refresh_click console_refresh
perform load p = ingest false p
perform replay p = ingest true p
perform empty p = empty_batch p
perform generate p = random_feed p
perform refreshing p = refresh_click p
perform (choosing id) p = choose id p
perform rendering p = rendered p
perform console_refreshing p = console_refresh p

pub data Reply : Type 0 where
  got_report : Report → Reply
  got_batch : Batch → Reply
  got_result : (replayed : Bool) → (inserted : ℕ) → Reply
  got_emptied : Reply
  failed : String → Reply

-- Which replies a request can have. A report is of the sample that was asked for.
pub data Fits : Task → Reply → Type 0 where
  a_report :
      {k : ℕ} {s : Sample} {m : Bool} {o : Owner} (r : Report)
      → r.sample ≡ s
      → Fits (reading k s m o) (got_report r)
  a_batch : {s : Sample} (b : Batch) → Fits (fetching s) (got_batch b)
  a_result :
      {s : Sample} {b : Batch} (replayed : Bool) (inserted : ℕ)
      → Fits (sending s b) (got_result replayed inserted)
  an_emptied : {s : Sample} → Fits (clearing s) got_emptied
  a_failure : {t : Task} (message : String) → Fits t (failed message)

-- The rest of the function that waits for the request. A reply that does not fit does nothing.
unfoldable pub resume : Task → Reply → Panel → Panel × List Task
unfolding send_batch ingest_failed batch_answered empty_answered empty_failed report_read
    report_lost
resume (reading k s m o) (got_report r) p = (report_read k m o r p, [])
resume (reading k s m o) (failed message) p = (report_lost k o message p, [])
resume (fetching s) (got_batch b) p = send_batch b p
resume (fetching s) (failed message) p = (ingest_failed message p, [])
resume (sending s b) (got_result replayed inserted) p = batch_answered replayed inserted p
resume (sending s b) (failed message) p = (ingest_failed message p, [])
resume (clearing s) got_emptied p = empty_answered p
resume (clearing s) (failed message) p = (empty_failed message p, [])
resume _ _ p = (p, [])

pub record World : Type 0 where
  pub panel : Panel
  pub tasks : List Task

abbrev pub commanded : Command → World → World
commanded c w =
    let (p, started) = perform c w.panel in record { panel = p; tasks = started ++ w.tasks }

abbrev pub replied : List Task → Task → List Task → Reply → World → World
replied earlier t later reply w =
    let (p, started) = resume t reply w.panel in
    record { panel = p; tasks = started ++ (earlier ++ later) }

pub data Step : World → World → Type 0 where
  command : (w : World) (c : Command) → Step w (commanded c w)
  answer :
      (w : World) (earlier later : List Task) (t : Task) (reply : Reply)
      → w.tasks ≡ earlier ++ (t ∷ later)
      → Fits t reply
      → Step w (replied earlier t later reply w)
  -- The session ends (another tab cleared the demo), or storage fills up or frees.
  environment :
      (w : World) (active writable : Bool)
      → Step w (record w { panel = record (w.panel) { active = active; writable = writable } })

pub data Reach (w : World) : World → Type 0 where
  here : Reach w w
  next : {u v : World} → Reach w u → Step u v → Reach w v

-- The page as it loads: what was restored, and nothing going on.
abbrev pub start : Sample → Attempts → Option Saved → (active writable : Bool) → World
start selected attempts saved active writable = record {
  panel = record {
    selected = selected;
    attempts = attempts;
    report = none;
    loading = false;
    importing = false;
    emptying = false;
    error = "";
    notice = silent;
    generation = 0;
    saved = saved;
    active = active;
    writable = writable;
  };
  tasks = [];
}
