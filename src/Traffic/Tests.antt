-- ===== src/Traffic/Tests.antt =====
-- Runs of the foot-traffic page on concrete input.
use afterglow.Prelude.{
  ◌≡◌, ◌≤◌, refl, ◌+◌, true, arith, false, [], ◌∷◌, List, Option, ℕ, none, some,
}
use afterglow.Traffic.{
  Sample, baseline, Batch, Attempts, Report, Panel, replay_disabled, sending, fetching, reading,
  by_import, import_failed,
}
use afterglow.Traffic.Display.{Content, content}
use afterglow.Traffic.Honest.{IsHonest, content-IsHonest}
use afterglow.Traffic.Controls.{load_button, replay_button, update_button}
use afterglow.Traffic.Wired.{IsWaiting, IsIdle, update_button-IsWired}
use afterglow.Traffic.Cells.{CellStatus, reported, suppressed, missing, Cell, Zone, Sheet}
use afterglow.Traffic.Machine.{
  load, replay, perform, got_batch, got_report, got_result, failed, a_batch, resume, World,
  commanded, replied, here, next, command, answer, start,
}
use afterglow.Traffic.Leaves.{Out}
use afterglow.Traffic.Spec.{Phase, Move, answered}
use afterglow.Traffic.Refines.{Reach-Moves}
use afterglow.Traffic.Settles.{none_yet, one_more, IsEnding, Answers-IsEnding}
use afterglow.Traffic.Exclusive.{IsExclusive, Reach-IsExclusive}
use afterglow.Traffic.Storage.{IsFound, Happening, did, got, happen, restore, restore-happen}
use afterglow.Traffic.Replay.{replay_after_failure, replay_after_success}

abbrev no_attempts : Attempts
no_attempts id = none

abbrev batch : Batch
batch = record {
  source = "synthetic-partner-v1";
  batch_id = "b-1";
  window_starts = 700000000 ∷ [];
  content = "{}";
}

abbrev fresh_page : World
fresh_page = start baseline no_attempts none true true

abbrev loading_page : World
unfolding perform
loading_page = commanded load fresh_page

abbrev sending_page : World
unfolding perform resume
sending_page = replied [] (fetching baseline) [] (got_batch batch) loading_page

Reach-IsExclusive_example : IsExclusive sending_page
unfolding perform resume
Reach-IsExclusive_example = Reach-IsExclusive baseline no_attempts none true true (
    next (next here (command fresh_page load))
      (answer loading_page [] [] (fetching baseline) (got_batch batch) refl (a_batch batch)))

sending_is_out : sending_page.tasks ≡ sending baseline batch ∷ []
unfolding perform resume
sending_is_out = refl

importing_is_Out : Out sending_page.panel (sending baseline batch)
unfolding perform resume
importing_is_Out = ground arith

replayed_after_failure :
    let q = (resume (sending baseline batch) (failed "Timed out.") sending_page.panel).0 in
    (q.notice ≡ import_failed "Timed out." true)
    × ((perform replay q).1 ≡ sending baseline batch ∷ [])
replayed_after_failure =
    replay_after_failure sending_page.panel baseline batch "Timed out." importing_is_Out

abbrev cell : CellStatus → Option ℕ → Cell
cell status count = record { window_start = 700000000; observations = count; status = status }

abbrev downtown : Zone
downtown = record {
  id = "downtown";
  name = "Downtown";
  current = cell reported (some 40) ∷ cell suppressed none ∷ [];
  previous = cell reported (some 25) ∷ cell missing none ∷ [];
  comparable_windows = 1;
}

abbrev a_sheet : Sheet
a_sheet = record {
  as_of = 700000000;
  zones = downtown ∷ [];
  published_observations = 40;
  released_windows = 1;
  suppressed_windows = 1;
  missing_windows = 22;
  minimum_reportable_count = 20;
}

abbrev a_report_of_it : Report
a_report_of_it = record { sample = baseline; sheet = a_sheet }

replayed_after_success :
    let q = (resume (sending baseline batch) (got_result false 1) sending_page.panel).0 in
    let refreshed =
      (resume
        (reading (sending_page.panel.generation + 1) baseline false by_import)
        (got_report a_report_of_it)
        q).0 in
    (q.attempts baseline ≡ some (record { batch = batch; confirmed = true }))
    × ((perform replay refreshed).1 ≡ sending baseline batch ∷ [])
replayed_after_success =
    replay_after_success sending_page.panel baseline batch false 1 a_report_of_it importing_is_Out

abbrev happenings : List Happening
happenings = did load ∷ got (fetching baseline) (got_batch batch) ∷ []

abbrev saved_page : Panel
saved_page = record (fresh_page.panel) {
  saved = some (record { selected = baseline; attempts = no_attempts });
}

restore-happen_example :
    let found = restore 700000000 (happen happenings saved_page).saved in
    (found.0 ≡ (happen happenings saved_page).selected)
    × ((id : Sample) → IsFound 700000000 ((happen happenings saved_page).attempts id) (found.1 id))
restore-happen_example =
    restore-happen 700000000 happenings saved_page
      (record { active = refl; writable = refl; current = refl })

restored_attempt :
    (restore 700000000 (happen happenings saved_page).saved).1 baseline
    ≡ some (record { batch = batch; confirmed = false })
unfolding happen perform resume restore
restored_attempt = refl

abbrev page_with_report : Panel
page_with_report = record (fresh_page.panel) { report = some a_report_of_it; error = "Timed out." }

content-IsHonest_example :
    (c : Content) × (content page_with_report ≡ some c)
    × IsHonest (some a_report_of_it) false "Timed out." c
content-IsHonest_example = content-IsHonest page_with_report (refl, tt)

update_button-IsWired_example : IsWaiting load_button (perform load fresh_page.panel)
unfolding update_button
update_button-IsWired_example = update_button-IsWired load_button fresh_page.panel

no_replay_yet : IsIdle fresh_page.panel (perform replay fresh_page.panel)
unfolding update_button replay_disabled
no_replay_yet = update_button-IsWired replay_button fresh_page.panel

Reach-Moves_example :
    Move baseline answered
      (Phase.fetching baseline)
      no_attempts
      (Phase.sending baseline batch)
      sending_page.panel.attempts
unfolding perform resume
Reach-Moves_example =
    Reach-Moves baseline no_attempts none true true (next here (command fresh_page load))
      (answer loading_page [] [] (fetching baseline) (got_batch batch) refl (a_batch batch))

Answers-IsEnding_example : (1 ≤ 3) × IsEnding 1 loading_page sending_page
unfolding perform resume
Answers-IsEnding_example =
    Answers-IsEnding baseline no_attempts none true true (next here (command fresh_page load))
      (one_more [] [] (fetching baseline) (got_batch batch) none_yet refl (a_batch batch))
