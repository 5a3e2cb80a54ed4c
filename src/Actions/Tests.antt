-- ===== src/Actions/Tests.antt =====
-- Clicks on concrete input.
use Prim.Native.Nat.{Ordering}
use afterglow.Prelude.{
  List, Pairs, map, take, ◌≡◌, refl, String, arith, Memᴰ, str_eq, eq_iff, IsDistinct, true, false,
  [], ◌∷◌, none, some, All,
}
use afterglow.Api.{Status, HoldState, Delivery, Reservation, Snapshot, Runtime}
use afterglow.Ledger.{filtered, ledger_results}
use afterglow.Ledger.Table.{Table, results_table, recent}
use afterglow.Overview.Holds.{holds_table}
use afterglow.Ledger.{lab, all, newest}
use afterglow.Console.Refresh.{start}
use afterglow.Actions.{
  Message, action, pause, Desk, controlling, refreshing, by_action, open_dialog, reserve_form,
  click, scenario, start_scenario,
}
use afterglow.Actions.Machine.{
  got_control, failed, resume, then_refresh, World, clicked, replied, Reach, here, next, press,
  answer,
}
use afterglow.Actions.Clicks.{IsBusy}
use afterglow.Actions.Busy.{Reach-IsBusy}
use afterglow.Actions.Lab.{lab_cards, kind_of, sync_actions}
use afterglow.Actions.Links.{Opens, Plays, links, hold_rows, tables-AreLive}
use afterglow.Actions.Offers.{IsOffered, lab_cards-IsOffered}
use afterglow.Actions.Told.{IsTold, IsAbout, resume-IsTold}

abbrev idle : Desk
idle = record {
  shell = start;
  ledger = record { active = lab; filter = all; search = ""; page = 0; sort = newest };
  busy = false;
  detail = none;
  dialog_notice = none;
  toast = none;
}

abbrev idle_page : World
idle_page = record { desk = idle; tasks = [] }

abbrev pausing : World
unfolding click
pausing = clicked (action pause) idle_page

abbrev paused : World
unfolding click resume
paused = replied [] (controlling true) [] (got_control true) pausing

pausing_once : Reach idle_page paused
unfolding click resume scenario start_scenario
pausing_once =
    next (next here (press idle_page (action pause)))
      (answer pausing [] [] (controlling true) (got_control true) refl tt)

still_refreshing : paused.tasks ≡ refreshing by_action ∷ []
unfolding click resume scenario start_scenario then_refresh
still_refreshing = refl

Reach-IsBusy_example : IsBusy paused.desk paused.tasks
Reach-IsBusy_example = Reach-IsBusy pausing_once (record {
  one_at_a_time = refl;
  steady = record { one_at_a_time = refl; together = refl; both = refl };
})

abbrev reading : Desk
unfolding open_dialog
reading = open_dialog (reserve_form [] []) idle

resume-IsTold_example :
    (m : Message) × IsTold (resume (controlling true) (failed "Offline.") reading).0 m
    × IsAbout (controlling true) (failed "Offline.") m
    × ((resume (controlling true) (failed "Offline.") reading).1 ≡ [])
resume-IsTold_example = resume-IsTold (controlling true) (failed "Offline.") reading tt refl

abbrev demo_runtime : Runtime
demo_runtime = record {
  demo = true;
  can_reset = true;
  paused = true;
  breaker_open = false;
  storage = "sqlite";
  transport = "local";
}

-- The worker is paused.
abbrev demo_desk : Desk
demo_desk = record idle { shell = record (idle.shell) { runtime = some demo_runtime } }

lab_cards-IsOffered_example :
    All
      (λ c. IsOffered c (click (action (kind_of c.action)) demo_desk))
      (lab_cards (some demo_runtime))
unfolding sync_actions
lab_cards-IsOffered_example = lab_cards-IsOffered demo_desk refl

resumes_worker : (click (action (kind_of "pause")) demo_desk).1 ≡ controlling false ∷ []
unfolding click scenario start_scenario kind_of
resumes_worker = refl

abbrev receipt : String → String → Status → Delivery
receipt id hold status = record {
  id = id;
  schema_version = 1;
  event_id = "e";
  reservation_id = hold;
  screen_id = "sea-01";
  played_at = 0;
  duration_ms = 10000;
  status = status;
  reason = "";
  received_at = 0;
  attempts = 1;
}

abbrev play : String → HoldState → Reservation
play id state = record {
  id = id;
  campaign_id = "c";
  screen_id = "sea-01";
  cost_micros = 10000;
  state = state;
  created_at = 0;
  expires_at = 9;
}

abbrev snapshot : Snapshot
snapshot = record {
  campaigns = [];
  screens = [];
  reservations = play "r1" HoldState.held ∷ play "r2" HoldState.settled ∷ [];
  deliveries = receipt "d1" "r2" Status.settled ∷ receipt "d2" "r9" Status.failed ∷ [];
  counts = λ s. 0;
}

abbrev loaded_desk : Desk
loaded_desk = record idle { shell = record start { state = some snapshot } }

apart : (a b : String) → str_eq a b ≡ false → Memᴰ a (b ∷ []) → ⊥
apart a b h (Memᴰ.head e) = ground (arith, eq_iff a b)
apart a b h (Memᴰ.tail m) = elim m [ ]

receipts_differ : IsDistinct ("d1" ∷ "d2" ∷ [])
receipts_differ = (apart "d1" "d2" refl, ((λ m. elim m [ ]), tt))

holds_differ : IsDistinct ("r1" ∷ "r2" ∷ [])
holds_differ = (apart "r1" "r2" refl, ((λ m. elim m [ ]), tt))

abbrev results : Table
unfolding results_table
results = results_table (λ s. s) (λ a b. Ordering.eq) idle.ledger snapshot.deliveries

abbrev on_page : List Delivery
unfolding filtered ledger_results
on_page =
    (ledger_results idle.ledger
      (filtered (λ s. s) (λ a b. Ordering.eq) idle.ledger snapshot.deliveries)).1.rows

tables-AreLive_example :
    All (Opens snapshot loaded_desk) (links results)
    × All (Opens snapshot loaded_desk) (links (recent idle.ledger snapshot.deliveries))
    × Pairs
        (Plays loaded_desk)
        snapshot.reservations
        (hold_rows (holds_table snapshot.reservations))
    × (links (recent idle.ledger snapshot.deliveries)
        ≡ map Delivery.id (take 3 snapshot.deliveries))
    × (links results ≡ map Delivery.id on_page)
unfolding results on_page
tables-AreLive_example =
    tables-AreLive snapshot loaded_desk refl receipts_differ holds_differ (λ s. s)
      (λ a b. Ordering.eq) idle.ledger
