-- ===== src/Traffic.antt =====
-- internal/console/web/foottraffic.js: the foot-traffic page. One sample feed is selected; a batch
-- of it can be imported, replayed and emptied, and a report read. `Panel` holds the closure's
-- variables and what the tab's storage holds. Each asynchronous function is cut at its awaits: a
-- `Task` is a request that is out, with what its function still needs.
pub mod Cells
pub mod Storage
pub mod Handlers
pub mod Machine
pub mod Leaves
pub mod Exclusive
pub mod Spec
pub mod Refines
pub mod Settles
pub mod Replay
pub mod Display
pub mod Fair
pub mod Honest
pub mod Controls
pub mod Wired
mod Tests
use afterglow.Prelude.{
  ℕ, ◌+◌, ◌-◌, Bool, true, false, ◌&&◌, ◌||◌, not, List, [], ◌∷◌, String, Option, none, some,
  str_eq, ◌==◌, leb, ltb, if◌then◌else◌, is_some, length, all,
}
use afterglow.Traffic.Cells.{Sheet}

-- The keys of `samples`.
pub data Sample : Type 0 where
  baseline busy gaps quiet commuter retail threshold interruption random : Sample

pub Sample-discrete : Discrete Sample
Sample-discrete = hlevel

abbrev pub is_random : Sample → Bool
is_random random = true
is_random _ = false

-- A batch as the service hands it out. `content` stands for what the page never reads.
pub record Batch : Type 0 where
  pub source : String
  pub batch_id : String
  pub window_starts : List ℕ
  pub content : String

pub record Attempt : Type 0 where
  pub batch : Batch
  pub confirmed : Bool

abbrev pub Attempts : Type 0
Attempts = Sample → Option Attempt

-- A report, with the sample feed that the service computed it from.
pub record Report : Type 0 where
  pub sample : Sample
  pub sheet : Sheet

-- What `remember` writes.
pub record Saved : Type 0 where
  pub selected : Sample
  pub attempts : Attempts

-- The values of `notice`.
pub data Notice : Type 0 where
  silent refreshed nothing_to_replay checking_again importing_windows : Notice
  replay_verified emptying_sample : Notice
  committed : ℕ → Notice
  import_failed : String → (retry_hint : Bool) → Notice
  emptied : Sample → Notice
  not_emptied : String → Notice

pub record Panel : Type 0 where
  pub selected : Sample
  pub attempts : Attempts
  pub report : Option Report
  pub loading : Bool
  pub importing : Bool
  pub emptying : Bool
  pub error : String
  pub notice : Notice
  pub generation : ℕ
  pub saved : Option Saved
  pub active : Bool  -- `demoSession.active()`
  pub writable : Bool  -- whether sessionStorage accepts writes

-- Which function awaits a refresh.
pub data Owner : Type 0 where
  alone by_import by_empty : Owner

pub data Task : Type 0 where
  reading : ℕ → Sample → (manual : Bool) → Owner → Task
  fetching : Sample → Task
  sending : Sample → Batch → Task
  clearing : Sample → Task

-- `loading || importing || emptying`, which also disables the controls.
unfoldable pub occupied : Panel → Bool
occupied p = p.loading || p.importing || p.emptying

unfoldable pub replay_disabled : Panel → Bool
unfolding occupied
replay_disabled p = occupied p || not (is_some (p.attempts p.selected))

unfoldable pub remember : Panel → Panel
remember p = record p {
  saved =
      if p.active && p.writable
      then some (record { selected = p.selected; attempts = p.attempts })
      else p.saved;
}

-- What a function that awaited a refresh does then, in its `finally`.
abbrev pub after : Owner → Panel → Panel
after alone p = p
after by_import p = record p { importing = false }
after by_empty p = record p { emptying = false }

-- `refresh` up to its await. Where a report is being read already it returns at once.
unfoldable pub refresh : Bool → Owner → Panel → Panel × List Task
refresh manual owner p = if p.loading then (after owner p, []) else (
  record p { generation = p.generation + 1; loading = true; error = "" },
  reading (p.generation + 1) p.selected manual owner ∷ [],
)

unfoldable pub report_read : ℕ → Bool → Owner → Report → Panel → Panel
report_read ticket manual owner r p = after owner (
    if ticket == p.generation
    then record p {
      report = some r;
      notice = if manual then refreshed else p.notice;
      loading = false;
    }
    else p)

unfoldable pub report_lost : ℕ → Owner → String → Panel → Panel
report_lost ticket owner message p =
    after owner
      (if ticket == p.generation then record p { error = message; loading = false } else p)
