-- ===== src/Console/Tests.antt =====
-- Runs of the console's shell on concrete input.
use Prim.Native.Nat.{Ordering}
use afterglow.Api.{Status}
use afterglow.Ledger.{only, chosen}
use afterglow.Prelude.{
  ◌≡◌, refl, ◌≢◌, ◌⊎◌, ℕ, true, false, [], ◌∷◌, List, String, Option, none, some, str_eq,
}
use afterglow.Text.{codes}
use afterglow.Session.{load}
use afterglow.Api.{ReservationInput}
use afterglow.Price.{reserve_cost}
use afterglow.Ledger.{ledger}
use afterglow.Console.Refresh
use afterglow.Console.Refresh.{
  start, asked, toggled, lost, ticked, run, IsSteady, freshness, interrupted, run-IsSteady,
  run-keeps,
}
use afterglow.Console.Client.{Answer, Event, happen_all}
use afterglow.Console.OneRun.{AllBelong, opened, happen_all-AllBelong}
use afterglow.Console.Address
use afterglow.Console.Address.{
  App, has_filter, rendered, handled, hash_changed, addressed, told, refreshed, used,
}
use afterglow.Console.InView.{IsAtRest, Reach-IsAtRest}
use afterglow.Console.Request.{Result, ok, thrown, Body, read_answer, read_answer-cases}
use afterglow.Console.Routing.{view_of, same_view, keeps_itself, whole, render, render-active}
use afterglow.Console.ReserveForm.{Form, Entry, payload_of, submit, submit_failed, submit_again}

start-IsSteady : IsSteady start
start-IsSteady = record { one_at_a_time = refl; together = refl; both = refl }

abbrev troubles : List Refresh.Event
troubles = asked ∷ ticked false ∷ lost ∷ toggled ∷ toggled ∷ []

after_all_troubles : IsSteady (run troubles start)
after_all_troubles = run-IsSteady troubles start start-IsSteady

troubled_run :
    ((run troubles start).state ≡ none)
    × ((run troubles start).last_updated ≡ none)
    × (((run troubles start).connection_lost ≡ false)
        ⊎ (freshness (run troubles start) ≡ interrupted none))
troubled_run = run-keeps troubles start (refl, (refl, (refl, (refl, (refl, tt)))))

abbrev failed : ℕ → String
failed status = "Request failed. Please try again."

failed-named : (n : ℕ) → str_eq (failed n) "" ≡ false
failed-named n = refl

abbrev no_body : Option (Body ℕ)
no_body = none

unavailable :
    ((a : ℕ) × (d : Option String) × (false ≡ true)
      × (no_body ≡ some (record { value = a; detail = d }))
      × (read_answer failed false 503 no_body ≡ ok a))
    ⊎ ((message : String) × (false ≡ false)
        × (read_answer failed false 503 no_body ≡ thrown message (some 503))
        × (str_eq message "" ≡ false))
    ⊎ ((false ≡ true)
        × (no_body ≡ none)
        × (read_answer failed false 503 no_body
            ≡ thrown "The server returned an unreadable response. Please retry." none))
unavailable = read_answer-cases failed failed-named false 503 no_body

drawn_at_recovery :
    let (now, drawn) = render true false true "recovery" ledger in
    (now ≡ view_of "recovery")
    × ((drawn ≡ whole)
        ⊎ ((same_view (view_of "recovery") ledger ≡ true)
            × ((keeps_itself (view_of "recovery") ≡ true) ⊎ (true ≡ true))))
drawn_at_recovery = render-active false true "recovery" ledger

abbrev form : Form
form = record { disabled = false; fingerprint = none; request_key = ""; error = none }

abbrev entry : Entry
entry = record { campaign = "c1"; screen = "s1"; price = codes "0.5" }

-- The same entry with the amount written in another way.
abbrev rewritten : Entry
rewritten = record entry { price = codes "0.50" }

abbrev written : ReservationInput → String
written p = p.campaign_id

submit_again_example :
    (key : String) × ((submit written "u1" entry form).1
      ≡ some (record { payload = payload_of entry 500000; key = key }))
    × (((payload_of rewritten 500000 ≡ payload_of entry 500000)
          × ((submit written "u2" rewritten
                (submit_failed "Lost." (submit written "u1" entry form).0)).1
              ≡ some (record { payload = payload_of entry 500000; key = key })))
        ⊎ ((payload_of rewritten 500000 ≢ payload_of entry 500000)
            × ((submit written "u2" rewritten
                  (submit_failed "Lost." (submit written "u1" entry form).0)).1
                ≡ some (record { payload = payload_of rewritten 500000; key = "u2" }))))
unfolding reserve_cost
submit_again_example =
    submit_again written "u1" "u2" "Lost." entry rewritten form 500000 500000 (λ e. refl) refl refl
      refl

abbrev of_generation : Option String → Answer ℕ
of_generation g = record {
  good = true;
  status = 200;
  body = some (record { value = 7; detail = none });
  generation = g;
}

-- Two answers of the first generation, then one of another, which is refused.
abbrev answers : List (Event ℕ)
answers =
    Event.answered (of_generation none)
    ∷ Event.answered (of_generation (some "a"))
    ∷ Event.save true
    ∷ Event.answered (of_generation (some "b"))
    ∷ []

given_to_callers :
    (happen_all failed answers (opened true true none none false false)).given
    ≡ (some "b", Result.thrown "Demo data was cleared. Reloading this page." none)
      ∷ (some "a", ok 7)
      ∷ (none, ok 7)
      ∷ []
unfolding happen_all load read_answer
given_to_callers = refl

happen_all-AllBelong_example :
    (g : String) × AllBelong g
      (happen_all failed answers (opened true true none none false false)).given
happen_all-AllBelong_example = happen_all-AllBelong failed answers true true none none false false

abbrev as_it_is : String → String
as_it_is s = s

abbrev all_same : String → String → Ordering
all_same a b = Ordering.eq

-- The ledger is opened and filtered; then the address changes to the recovery queue.
abbrev opened_ledger : App
unfolding rendered
opened_ledger =
    rendered as_it_is all_same false false
      (record (Address.start "ledger") { deliveries = some [] })

abbrev settled_only : App
unfolding handled rendered
settled_only = handled as_it_is all_same false false (chosen (only Status.settled)) opened_ledger

abbrev changed : App
unfolding handled rendered
changed = record settled_only { hash = "recovery"; pending = 1 }

abbrev recovered : App
unfolding hash_changed handled rendered
recovered = hash_changed as_it_is all_same false false 0 changed

to_recovery : Address.Reach as_it_is all_same (Address.start "ledger") recovered
unfolding hash_changed handled rendered Address.is_offered
to_recovery =
    Address.Reach.next
      (Address.Reach.next
        (Address.Reach.next (Address.Reach.next Address.Reach.here (refreshed false false []))
          (used false false (chosen (only Status.settled)) refl))
        (addressed "recovery"))
      (told false false 0 refl)

told_all : recovered.pending ≡ 0
unfolding recovered
told_all = refl

Reach-IsAtRest_example : IsAtRest recovered
Reach-IsAtRest_example = Reach-IsAtRest as_it_is all_same "ledger" to_recovery told_all

-- A refresh that comes before the change is told draws the queue with the filter of the ledger.
drawn_too_early :
    let early = (rendered as_it_is all_same false false changed).ledger in
    has_filter early.active early.filter ≡ false
unfolding rendered handled has_filter
drawn_too_early = refl
