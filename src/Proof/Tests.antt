-- ===== src/Proof/Tests.antt =====
-- A run of the proof that is resumed.
use afterglow.Prelude.{
  ◌≡◌, refl, take, ℕ, ◌+◌, ◌*◌, true, false, [], ◌∷◌, List, String, none, some, arith,
}
use afterglow.Api.{Snapshot, Reservation, HoldState, Status}
use afterglow.Console.Request.{ok, thrown}
use afterglow.Proof.{Run, Server, Evidence, BatchAnswer, observe, is_terminal}
use afterglow.Proof.Stages.{
  works, steps, execute, execute_all, Click, reserve_stage, accept_stage, retry_stage,
  reconcile_stage, correct_stage, verify_stage,
}
use afterglow.Proof.Resume.{IsResumed, execute-IsResumed}
use afterglow.Proof.Progress.{Ends, execute_all-Ends}
use afterglow.Proof.Page.{click_all, blank, ProofPage, run_label, resume_run, failed_with}
use afterglow.Proof.Inline.{proof_click, exporting}
use afterglow.Proof.Storage.{finished, happen_all, execute_saves, stored_after, interrupted}
use afterglow.Proof.Recovered.{GoesOn, fresh_tab, interrupted-GoesOn}
use afterglow.Proof.Observe.{Reads, IsTicking, observe_loop, polls_from, observe_loop-observe}

-- A service that answers nothing.
abbrev silent : Server
silent = record {
  reserve = λ key input. thrown "Offline." none;
  first_batch = λ items. thrown "Offline." none;
  second_batch = λ items. thrown "Offline." none;
  first_polls = λ ids. record { timely = []; late = thrown "Offline." none };
  correct = λ receipt. thrown "Offline." none;
  second_polls = λ ids. record { timely = []; late = thrown "Offline." none };
}

abbrev names : ℕ → String
names n = "uuid"

-- The first stage is verified, the second is next.
abbrev halfway : Run
halfway = record {
  plan = record {
    campaign = "c1";
    screen = "s1";
    keys = "k0" ∷ "k1" ∷ [];
    events = "e0" ∷ "e1" ∷ "e2" ∷ "e3" ∷ [];
  };
  done = true ∷ false ∷ false ∷ false ∷ false ∷ false ∷ [];
  current = 1;
  holds = [];
  payload = [];
  correction = none;
  batch = none;
  replay = none;
  initial = [];
  corrected = none;
  final = none;
}

execute-IsResumed_example :
    (q : Run) × ((execute silent (thrown "Offline." none) "" names (some halfway)).0 ≡ some q)
    × IsResumed halfway q
execute-IsResumed_example = execute-IsResumed silent (thrown "Offline." none) "" names halfway refl

-- A service that answers as the proof expects.
abbrev hold_state : String → HoldState → Reservation
hold_state id state = record {
  id = id;
  campaign_id = "c1";
  screen_id = "s1";
  cost_micros = 10000;
  state = state;
  created_at = 5;
  expires_at = 900;
}

abbrev evidence : String → ℕ → Status → String → Reservation → Evidence
evidence id version status reason r = record {
  delivery = record {
    id = id;
    schema_version = version;
    event_id = id;
    reservation_id = r.id;
    screen_id = "s1";
    played_at = 6;
    duration_ms = 10000;
    status = status;
    reason = reason;
    received_at = 7;
    attempts = 1;
  };
  reservation = some r;
}

abbrev first_rows : List Evidence
first_rows =
    evidence "d0" 1 Status.settled "on_time" (hold_state "r0" HoldState.settled)
    ∷ evidence "d1" 1 Status.duplicate "already_settled" (hold_state "r0" HoldState.settled)
    ∷ evidence "d2" 99 Status.quarantined "unsupported_schema" (hold_state "r1" HoldState.held)
    ∷ []

abbrev last_rows : List Evidence
last_rows =
    evidence "d0" 1 Status.settled "on_time" (hold_state "r0" HoldState.settled)
    ∷ evidence "d1" 1 Status.duplicate "already_settled" (hold_state "r0" HoldState.settled)
    ∷ evidence "d2" 99 Status.quarantined "unsupported_schema" (hold_state "r1" HoldState.settled)
    ∷ evidence "d3" 1 Status.settled "on_time" (hold_state "r1" HoldState.settled)
    ∷ []

abbrev partial_answer : ℕ → BatchAnswer
partial_answer replayed = record {
  http = 207;
  accepted = 3;
  rejected = 1;
  replayed = replayed;
  statuses = 202 ∷ 202 ∷ 202 ∷ 400 ∷ [];
  ids = "d0" ∷ "d1" ∷ "d2" ∷ "" ∷ [];
}

abbrev pending_rows : List Evidence
pending_rows = evidence "d0" 1 Status.accepted "queued" (hold_state "r0" HoldState.held) ∷ []

abbrev helpful : Server
helpful = record {
  reserve = λ key input. ok (hold_state key HoldState.held);
  first_batch = λ items. ok (partial_answer 0);
  second_batch = λ items. ok (partial_answer 3);
  first_polls =
      λ ids. record { timely = ok pending_rows ∷ ok first_rows ∷ []; late = ok first_rows };
  correct = λ receipt. ok "d3";
  second_polls = λ ids. record { timely = ok last_rows ∷ []; late = ok last_rows };
}

abbrev snapshot : Snapshot
snapshot = record {
  campaigns =
      record {
        id = "c1";
        name = "One";
        budget_micros = 50000;
        reserved_micros = 0;
        spent_micros = 0;
      }
      ∷ [];
  screens = record { id = "s1"; name = "First"; market = "M"; format = "F" } ∷ [];
  reservations = [];
  deliveries = [];
  counts = λ s. 0;
}

abbrev unanswered : Click
unanswered = record { server = silent; fresh = ok snapshot; wanted = ""; uuid = names }

abbrev answered : Click
answered = record { server = helpful; fresh = thrown "Offline." none; wanted = ""; uuid = names }

-- The first click plans a run and stops at once; the second verifies all of it.
resumed_to_the_end :
    (execute helpful (thrown "Offline." none) "" names (execute_all (unanswered ∷ []) none)).1
    ≡ none
unfolding execute_all execute reserve_stage accept_stage retry_stage reconcile_stage correct_stage
    verify_stage
resumed_to_the_end = refl

execute_all-Ends_example :
    Ends (execute helpful (thrown "Offline." none) "" names (execute_all (unanswered ∷ []) none))
execute_all-Ends_example = execute_all-Ends (unanswered ∷ []) answered

abbrev reads : Reads
reads = record { rows = λ n. ok pending_rows; clock = λ n. 1000 + 400 * n }

reads-IsTicking : IsTicking 1000 reads
reads-IsTicking = record { begins = omega arith; ticks = λ n. omega arith }

observe_loop-observe_example :
    observe_loop 59 0 (1000 + 20000) reads ≡ some (observe (polls_from 59 0 (1000 + 20000) reads))
observe_loop-observe_example = observe_loop-observe 1000 reads reads-IsTicking

still_pending :
    observe_loop 59 0 (1000 + 20000) reads
    ≡ some (
        thrown
          "Worker has not completed within 20 seconds. Check the Failure lab and connection, then resume this run."
          none)
unfolding observe_loop is_terminal
still_pending = refl

-- After a click that failed, the page offers to resume.
abbrev failed_page : ProofPage
unfolding click_all execute
failed_page = click_all (unanswered ∷ []) (blank true)

offers_to_resume : run_label failed_page ≡ resume_run
unfolding click_all execute run_label reserve_stage
offers_to_resume = refl

failure_told : failed_page.message ≡ failed_with "Offline."
unfolding click_all execute reserve_stage
failure_told = refl

-- The run that the first click plans, which fails at once.
abbrev first_run : Run
first_run = record {
  plan = record {
    campaign = "c1";
    screen = "s1";
    keys = "uuid" ∷ "uuid" ∷ [];
    events = "uuid" ∷ "uuid" ∷ "uuid" ∷ "uuid" ∷ [];
  };
  done = false ∷ false ∷ false ∷ false ∷ false ∷ false ∷ [];
  current = 0;
  holds = [];
  payload = [];
  correction = none;
  batch = none;
  replay = none;
  initial = [];
  corrected = none;
  final = none;
}

-- The run as the first two stages of the next execution leave it.
abbrev two_stages : Run
unfolding steps reserve_stage accept_stage
two_stages = (steps (take 2 (works helpful)) first_run).0

two_verified : two_stages.done ≡ true ∷ true ∷ false ∷ false ∷ false ∷ false ∷ []
unfolding two_stages steps reserve_stage accept_stage
two_verified = refl

interrupted-GoesOn_example :
    let before = finished unanswered (true ∷ true ∷ []) in
    GoesOn first_run (happen_all (before ∷ interrupted answered (true ∷ []) ∷ []) fresh_tab).run
    × ((happen_all (before ∷ interrupted answered (true ∷ true ∷ []) ∷ []) fresh_tab).run
        ≡ some two_stages)
unfolding happen_all execute execute_saves stored_after two_stages steps reserve_stage accept_stage
interrupted-GoesOn_example =
    interrupted-GoesOn (finished unanswered (true ∷ true ∷ []) ∷ []) answered (true ∷ []) first_run
      two_stages 2 refl refl refl refl

abbrev halfway_page : ProofPage
halfway_page = record {
  run = some halfway;
  running = false;
  message = failed_with "Offline.";
  demo = true;
}

exported : proof_click exporting halfway_page ≡ (halfway_page, some halfway, none)
unfolding proof_click
exported = refl
