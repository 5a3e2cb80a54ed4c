-- ===== src/Intake/Tests.antt =====
-- Runs of the intake page on concrete input.
use afterglow.Prelude.{
  ◌≡◌, ◌⊎◌, refl, All, ℕ, true, false, [], ◌∷◌, none, some, String, arith, List, length, ap, suc,
}
use afterglow.Text.{codes}
use afterglow.Api.{Snapshot, Reservation, ReservationInput, HoldState}
use afterglow.Price.{micros, price_micros}
use afterglow.Intake.{
  Task, clean, Plan, Panel, silent, snapshotting, reserving, sending, Json, receipts, Item,
  example_items, is_definitive,
}
use afterglow.Intake.Machine.{load_lost, finish_load, load_click, send_click}
use afterglow.Intake.Retry.{IsRefusal, Reports, IsFaithful, load_after_failure, send_loaded}
use afterglow.Intake.Commands.{Reply, got_snapshot, load, failed, perform, resume}
use afterglow.Intake.Steps.{World, command, answer, Reach, here, next}
use afterglow.Intake.Page.{update, result_row, retry_unchanged}
use afterglow.Intake.Idempotent.{IsFresh, IsIdempotent, requests, Reach-IsIdempotent}
use afterglow.Intake.Shown.{AreOf, IsShown, Reach-IsShown}
use afterglow.Intake.{BatchResult}
use afterglow.Intake.Commands.{got_batch}
use afterglow.Intake.Single.{IsSingle, Reach-IsSingle}

-- A text format that keeps only the number of items.
abbrev tally : List Item → String
tally [] = String.[]
tally (_ ∷ items) = String.◌∷◌ "x" (tally items)

abbrev json : Json
json = record {
  stringify = tally;
  compact = tally;
  parse = λ text. receipts text (length (codes text));
}

abbrev names : ℕ → String
names n = "uuid"

abbrev input : ReservationInput
input = record { campaign_id = "c1"; screen_id = "s1"; cost_micros = 10000 }

abbrev plan : Plan
plan = record { key = "k1"; input = input; hold = none }

abbrev page : Panel
page = record {
  price = codes "0.01";
  price_error = none;
  kind = clean;
  plan = some plan;
  preparing = false;
  pending = false;
  draft = "";
  result = none;
  notice = silent;
  http_status = 0;
}

a_cent : price_micros page.price ≡ micros 10000
unfolding price_micros
a_cent = refl

abbrev after_busy : List Task
unfolding load_click load_lost
after_busy = (load_click json true 0 names (load_lost (some 503) "Busy." page)).1

load_after_failure_example :
    (IsRefusal (some 503) × (after_busy ≡ snapshotting 10000 ∷ []))
    ⊎ ((IsRefusal (some 503) → ⊥) × (after_busy ≡ reserving plan.key plan.input ∷ []))
unfolding after_busy
load_after_failure_example =
    load_after_failure json page plan (some 503) "Busy." 0 10000 names refl refl a_cent

busy_is_uncertain : is_definitive (some 503) ≡ false
unfolding is_definitive
busy_is_uncertain = refl

length-tally : (items : List Item) → length (codes (tally items)) ≡ length items
length-tally [] = refl
length-tally (_ ∷ items) = ap suc (length-tally items)

tally-IsFaithful : IsFaithful json
tally-IsFaithful items = ap (receipts (tally items)) (length-tally items)

abbrev hold : Reservation
hold = record {
  id = "r1";
  campaign_id = "c1";
  screen_id = "s1";
  cost_micros = 10000;
  state = HoldState.held;
  created_at = 5;
  expires_at = 9;
}

sent_as_loaded :
    let q = finish_load json 7 names hold page in
    All (Reports hold) (example_items clean hold names)
    × (q.draft ≡ tally (example_items clean hold names))
    × ((send_click json true q).1 ≡ sending (tally (example_items clean hold names)) ∷ [])
    × ((send_click json true q).0.plan ≡ none)
sent_as_loaded = send_loaded json tally-IsFaithful 7 names hold page refl (omega arith)

abbrev ready_page : World
ready_page = record { panel = record page { plan = none }; tasks = [] }

abbrev loading_page : World
unfolding perform
loading_page = record {
  panel = (perform json (load true 0 names) ready_page.panel).0;
  tasks = snapshotting 10000 ∷ [];
}

abbrev lost_page : World
unfolding resume
lost_page = record {
  panel = (resume json (snapshotting 10000) (failed none "Offline.") loading_page.panel).0;
  tasks = [];
}

losing_nothing : Reach json ready_page loading_page
unfolding perform price_micros
losing_nothing = next here (command ready_page (load true 0 names) tt)

losing_the_snapshot : Reach json ready_page lost_page
unfolding perform resume price_micros
losing_the_snapshot =
    next (next here (command ready_page (load true 0 names) tt))
      (answer loading_page [] [] (snapshotting 10000) (failed none "Offline.") refl tt)

Reach-IsSingle_example : IsSingle lost_page.panel lost_page.tasks
Reach-IsSingle_example =
    Reach-IsSingle losing_the_snapshot (record { matched = refl; priced = λ p e h. ground arith })

abbrev two_results : BatchResult
two_results = record {
  accepted = 1;
  rejected = 1;
  replayed = 0;
  results =
      record {
        index = 0;
        status = 202;
        replayed = false;
        detail = "";
        id = some "d1";
        retryable = false;
      }
      ∷ record {
        index = 1;
        status = 503;
        replayed = false;
        detail = "Busy.";
        id = none;
        retryable = true;
      }
      ∷ [];
}

Reach-IsShown_example :
    IsShown true false true lost_page.panel (update true lost_page.panel)
    × AreOf 207 two_results
        (update true
          (resume json (sending "b") (got_batch 207 two_results) lost_page.panel).0).results
unfolding lost_page
Reach-IsShown_example =
    Reach-IsShown true "b" 207 two_results losing_the_snapshot
      (record { matched = refl; priced = λ p e h. ground arith }) refl

-- A refused item that was not the partner's fault.
retry_advised :
    (result_row (record {
      index = 0;
      status = 503;
      replayed = false;
      detail = "Busy.";
      id = none;
      retryable = true;
    })).advice
    ≡ retry_unchanged
unfolding result_row
retry_advised = refl

abbrev shop : Snapshot
shop = record {
  campaigns =
      record {
        id = "c1";
        name = "C";
        budget_micros = 100000;
        reserved_micros = 0;
        spent_micros = 0;
      }
      ∷ [];
  screens = record { id = "s1"; name = "S"; market = "M"; format = "F" } ∷ [];
  reservations = [];
  deliveries = [];
  counts = λ s. 0;
}

abbrev after : Task → Reply → World → World
unfolding resume
after t reply w = record {
  panel = (resume json t reply w.panel).0;
  tasks = (resume json t reply w.panel).1;
}

abbrev asking_page : World
unfolding after
asking_page = after (snapshotting 10000) (got_snapshot shop names) loading_page

abbrev unsure_page : World
unfolding after
unsure_page = after (reserving (names 0) input) (failed none "Offline.") asking_page

abbrev asking_again : World
unfolding perform unsure_page
asking_again = record {
  panel = (perform json (load true 0 names) unsure_page.panel).0;
  tasks = reserving (names 0) input ∷ [];
}

retried : Reach json ready_page asking_again
unfolding perform after asking_page unsure_page asking_again resume price_micros
retried =
    next
      (next
        (next losing_nothing
          (answer loading_page [] [] (snapshotting 10000) (got_snapshot shop names) refl tt))
        (answer asking_page [] [] (reserving (names 0) input) (failed none "Offline.") refl tt))
      (command unsure_page (load true 0 names) tt)

-- The second request repeats the first.
asked_twice : requests retried ≡ (names 0, input) ∷ (names 0, input) ∷ []
unfolding perform resume retried unsure_page asking_page after price_micros losing_nothing
asked_twice = refl

retried_afresh : IsFresh retried
unfolding retried losing_nothing perform price_micros
retried_afresh = (
  (((tt, λ k i e m. ground arith), λ k i e m. elim m [ ]), λ k i e m. ground arith),
  λ k i e m. ground arith,
)

Reach-IsIdempotent_example : IsIdempotent (requests retried)
Reach-IsIdempotent_example = Reach-IsIdempotent json ready_page refl retried retried_afresh
