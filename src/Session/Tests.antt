-- ===== src/Session/Tests.antt =====
-- Runs of the session and of its dialog on concrete input.
use afterglow.Prelude.{◌≡◌, refl, ◌⊎◌, true, false, [], ◌∷◌, List, none, some, Memᴰ, arith}
use afterglow.Session.{
  Step, Tab, load, truthy, Call, World, Reach, here, next, send, answer, save, send_answer,
  save_run,
}
use afterglow.Session.Pinned.{
  ComesThrough, IsSound, Reach-pinned, load-IsSound, send_answer-accepts,
}
use afterglow.Session.Dialog.{
  closed, opened, confirmed, ended, Event, threw, Outcome, confirm_end, Session, step, run,
}
use afterglow.Session.Dialog.Laws.{
  IsCleared, IsRefused, IsConsistent, run-IsConsistent, confirm_end-outcome,
}

abbrev tab : Tab
tab = record {
  generation = some "g1";
  invalidated = false;
  writable = true;
  shared = true;
  saved_generation = some "g1";
  proof_saved = true;
  traffic_saved = false;
  broadcast = none;
  reloads = 0;
}

abbrev world : World
world = record { tab = tab; calls = [] }

abbrev call : Call
call = record { resetting = false; sent = some "g1" }

abbrev asking : World
asking = record { tab = tab; calls = call ∷ [] }

abbrev replaced : World
replaced = record { tab = (send_answer false true (some "g2") tab).0; calls = call ∷ [] }

-- A request is sent, and its answer names another generation.
run_of_calls : Reach world replaced
run_of_calls =
    next (next here (send world false refl)) (answer asking call true (some "g2") (Memᴰ.head refl))

Reach-pinned_example :
    ((replaced.tab.invalidated ≡ true) ⊎ (replaced.tab.generation ≡ some "g1"))
    × ((c : Call) → Memᴰ c replaced.calls → Memᴰ c world.calls ⊎ (c.sent ≡ some "g1"))
Reach-pinned_example = Reach-pinned "g1" run_of_calls refl refl

an_answer_of_the_own_run :
    (tab.generation ≡ some "g1")
    ⊎ (truthy tab.generation ≡ false)
    ⊎ ((false ≡ true) × (true ≡ true))
unfolding send_answer
an_answer_of_the_own_run = send_answer-accepts false true (some "g1") tab "g1" refl refl refl

abbrev later : World
later = record { tab = save_run true replaced.tab; calls = call ∷ [] }

saving_again : Step replaced later
saving_again = save replaced true

load-IsSound_example :
    IsSound replaced.tab
    × ((replaced.tab.invalidated ≡ false) ⊎ (later.tab ≡ replaced.tab))
    × ComesThrough saving_again
unfolding load
load-IsSound_example =
    load-IsSound true true (some "g1") none true false run_of_calls (next here (save replaced true))
      saving_again

abbrev session : Session
session = record { dialog = closed; tab = tab; in_flight = 0 }

abbrev clicks : List Event
clicks = opened ∷ confirmed ∷ confirmed ∷ ended (threw "Offline.") ∷ confirmed ∷ []

closed-IsConsistent : IsConsistent session
closed-IsConsistent = record {
  one_request = ground arith;
  follows = refl;
  sent_is_pending = λ h. ground arith;
  pending_has_cause = λ h. ground arith;
  labelled = refl;
  stays_open = λ h. ground arith;
}

run-IsConsistent_example : IsConsistent (run clicks session)
run-IsConsistent_example = run-IsConsistent clicks session closed-IsConsistent

one_more_on_its_way : (run clicks session).in_flight ≡ 1
unfolding run step
one_more_on_its_way = refl

abbrev offline : Outcome
offline = threw "Offline."

confirm_end-outcome_example :
    IsCleared offline closed tab (confirm_end offline closed tab)
    ⊎ IsRefused offline tab (confirm_end offline closed tab)
confirm_end-outcome_example = confirm_end-outcome offline closed tab refl
