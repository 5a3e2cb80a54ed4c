-- ===== src/Proof/Stages.antt =====
-- The six stages of a run, and `execute`.
use afterglow.Prelude.{
  ℕ, ◌+◌, Bool, true, false, ◌&&◌, ◌||◌, not, List, [], ◌∷◌, ◌++◌, String, Option, none, some, ◌==◌,
  str_eq, if◌then◌else◌, all, get_elem?, length, take, find,
}
use afterglow.Api.{
  Reservation, HoldState, Status, duplicate, quarantined, same_status, Snapshot, Campaign, Screen,
  affords,
}
use afterglow.Intake.{Receipt, receipt, malformed}
use afterglow.Console.Request.{Result, ok, thrown}
use afterglow.Proof.{
  Evidence, Run, Outcome, assert, awaited, element, and_then, check_batch, observe, Server, step,
}

abbrev pub receipt_at : ℕ → String → Reservation → Receipt
receipt_at version event h = record {
  schema_version = version;
  event_id = event;
  reservation_id = h.id;
  screen_id = h.screen_id;
  played_at = h.created_at + 1;
  duration_ms = 10000;
}

-- The loop over the keys: each hold is kept as it comes.
unfoldable pub reserve_all : Server → List String → Run → Outcome
reserve_all server [] r = (r, none)
reserve_all server (key ∷ keys) r =
    awaited
      (server.reserve key
        (record { campaign_id = r.plan.campaign; screen_id = r.plan.screen; cost_micros = 10000 }))
      r (λ hold. reserve_all server keys (record r { holds = r.holds ++ (hold ∷ []) }))

-- The envelopes: two events for the first play, an unknown schema for the second, and a malformed
-- neighbor; and the correction for later.
unfoldable pub write_payload : Run → Outcome
write_payload r = element (get_elem? r.holds 0) r (λ a. element (get_elem? r.holds 1) r (λ b.
    element (get_elem? r.plan.events 0) r (λ e0. element (get_elem? r.plan.events 1) r (λ e1.
      element (get_elem? r.plan.events 2) r (λ e2. element (get_elem? r.plan.events 3) r (λ e3. (
        record r {
          payload =
              receipt (receipt_at 1 e0 a)
              ∷ receipt (receipt_at 1 e1 a)
              ∷ receipt (receipt_at 99 e2 b)
              ∷ malformed
              ∷ [];
          correction = some (receipt_at 1 e3 b);
        },
        none,
      )))))))

unfoldable pub reserve_stage : Server → Run → Outcome
unfolding reserve_all write_payload
reserve_stage server r =
    and_then (reserve_all server r.plan.keys (record r { holds = [] })) write_payload

unfoldable pub accept_stage : Server → Run → Outcome
unfolding check_batch
accept_stage server r =
    awaited (check_batch (server.first_batch r.payload)) r
      (λ a. (record r { batch = some a }, none))

-- Whether the first identities are those of the other list, place by place. Where the other list
-- is shorter, the code throws on the missing element; here the assertion does.
abbrev pub same_ids : List String → List String → Bool
same_ids [] _ = true
same_ids (a ∷ as') [] = false
same_ids (a ∷ as') (b ∷ bs) = str_eq a b && same_ids as' bs

unfoldable pub retry_stage : Server → Run → Outcome
unfolding check_batch
retry_stage server r = awaited (check_batch (server.second_batch r.payload)) r (λ a.
    element r.batch (record r { replay = some a })
      (λ first.
        assert ((a.replayed == 3) && same_ids (take 3 a.ids) first.ids)
          "Retry did not preserve all receipt identities." (record r { replay = some a })))

-- One settlement and one duplicate, in any order.
abbrev pub is_pair : List Evidence → Bool
is_pair (a ∷ b ∷ _) =
    same_status a.delivery.status duplicate && same_status b.delivery.status Status.settled
    || same_status a.delivery.status Status.settled && same_status b.delivery.status duplicate
is_pair _ = false

abbrev pub is_held_by : Option Reservation → Bool
is_held_by none = false
is_held_by (some r) = elim (r.state) [ HoldState.held ↦ true | _ ↦ false ]

-- The unknown schema is quarantined, and its budget stays held.
abbrev pub is_kept_held : Evidence → Bool
is_kept_held e =
    same_status e.delivery.status quarantined
    && str_eq e.delivery.reason "unsupported_schema"
    && is_held_by e.reservation

unfoldable pub reconcile_stage : Server → Run → Outcome
unfolding observe
reconcile_stage server r = element r.batch r (λ b.
    awaited (observe (server.first_polls (take 3 b.ids))) r (λ rows.
      let q = record r { initial = rows } in
      if not (is_pair rows)
      then (q, some "Expected one settlement and one duplicate for play A.")
      else element (get_elem? rows 2) q (λ third.
        assert (is_kept_held third) "Unsupported evidence did not preserve the held budget." q)))

unfoldable pub correct_stage : Server → Run → Outcome
correct_stage server r =
    awaited (server.correct r.correction) r (λ id. (record r { corrected = some id }, none))

-- Whether two reservations have one key in the map; those that are missing share one.
abbrev pub same_key : Option Reservation → Option Reservation → Bool
same_key none none = true
same_key (some a) (some b) = str_eq a.id b.id
same_key _ _ = false

-- `new Map` of the reservations by identity: a later one replaces an earlier one.
abbrev pub put : Option Reservation → List (Option Reservation) → List (Option Reservation)
put r [] = r ∷ []
put r (x ∷ rest) = let later = put r rest in if same_key r x then r ∷ rest else x ∷ later

abbrev pub by_identity : List (Option Reservation) → List Evidence → List (Option Reservation)
by_identity seen [] = seen
by_identity seen (e ∷ rows) = by_identity (put e.reservation seen) rows

abbrev pub is_settled_cent : Option Reservation → Bool
is_settled_cent none = false
is_settled_cent (some r) = elim (r.state) [ HoldState.settled ↦ r.cost_micros == 10000 | _ ↦ false ]

abbrev pub are_two_cents : List Evidence → Bool
are_two_cents rows =
    let reservations = by_identity [] rows in
    length reservations == 2 && all is_settled_cent reservations

-- The last stage's assertions, in their order, on the third and the fourth read.
unfoldable pub objection : List Evidence → Evidence → Evidence → Option String
objection rows third fourth =
    if not (same_status fourth.delivery.status Status.settled)
    then some "Corrected evidence did not settle play B."
    else if not
        (third.delivery.schema_version == 99 && same_status third.delivery.status quarantined)
    then some "Original quarantine was changed."
    else if not (is_pair rows)
    then some "Play A outcome changed."
    else if are_two_cents rows
    then none
    else some "Expected exactly two settled one-cent reservations."

unfoldable pub check_final : List Evidence → Run → Outcome
unfolding objection
check_final rows q =
    element (get_elem? rows 3) q
      (λ fourth. element (get_elem? rows 2) q (λ third. (q, objection rows third fourth)))

unfoldable pub verify_stage : Server → Run → Outcome
unfolding observe check_final
verify_stage server r = element r.batch r (λ b. element r.corrected r (λ id.
    awaited (observe (server.second_polls (take 3 b.ids ++ (id ∷ [])))) r
      (λ rows. check_final rows (record r { final = some rows }))))

-- Calls of `step`, one after the other, until one throws.
unfoldable pub steps : List (ℕ × (Run → Outcome)) → Run → Outcome
unfolding step
steps [] r = (r, none)
steps ((i, work) ∷ rest) r = and_then (step i work r) (λ q. steps rest q)

-- The stages of `execute`, numbered.
abbrev pub works : Server → List (ℕ × (Run → Outcome))
works server =
    (0, reserve_stage server)
    ∷ (1, accept_stage server)
    ∷ (2, retry_stage server)
    ∷ (3, reconcile_stage server)
    ∷ (4, correct_stage server)
    ∷ (5, verify_stage server)
    ∷ []

unfoldable pub stages : Server → Run → Outcome
unfolding steps
stages server r = steps (works server) r

-- `!campaign || c.id === campaign`, and two cents available.
unfoldable pub can_run : String → Campaign → Bool
unfolding affords
can_run wanted c = (str_eq wanted "" || str_eq c.id wanted) && affords 20000 c

unfoldable pub new_run : Campaign → Screen → (ℕ → String) → Run
new_run c s uuid = record {
  plan = record {
    campaign = c.id;
    screen = s.id;
    keys = uuid 0 ∷ uuid 1 ∷ [];
    events = uuid 2 ∷ uuid 3 ∷ uuid 4 ∷ uuid 5 ∷ [];
  };
  done = false ∷ false ∷ false ∷ false ∷ false ∷ false ∷ [];
  current = 0;
  holds = [];
  payload = [];
  correction = none;
  batch = none;
  replay = none;
  initial = [];
  corrected = none;
  final = none;
}

abbrev no_budget : String
no_budget =
    "The requested campaign has insufficient available budget, or no campaign is available. This run requires $0.02."

-- A new run, on the first campaign that can pay and the first screen.
unfoldable pub planned : Result Snapshot → String → (ℕ → String) → Result Run
unfolding can_run new_run
planned (thrown message status) wanted uuid = thrown message status
planned (ok s) wanted uuid = elim (find (can_run wanted) s.campaigns) [
  | none ↦ thrown no_budget none
  | some c ↦ elim (s.screens) [
    | [] ↦ thrown no_budget none
    | screen ∷ _ ↦ ok (new_run c screen uuid)
  ]
]

-- The run that `execute` goes on with: an unfinished one, or a new one.
unfoldable pub prepared : Result Snapshot → String → (ℕ → String) → Option Run → Result Run
unfolding planned
prepared fresh wanted uuid none = planned fresh wanted uuid
prepared fresh wanted uuid (some r) =
    if all (λ d. d) r.done then planned fresh wanted uuid else ok r

-- `execute`, where the page runs no other and the service is a demo: the run it leaves behind, and
-- what was thrown, if anything.
unfoldable pub execute :
    Server → Result Snapshot → String → (ℕ → String) → Option Run → Option Run × Option String
unfolding prepared stages
execute server fresh wanted uuid run = elim (prepared fresh wanted uuid run) [
  | thrown message status ↦ (run, some message)
  | ok r ↦ let (q, failure) = stages server r in (some q, failure)
]

-- One click on "Start live proof": what the service answers to it, the campaign that is asked for,
-- and the fresh identities.
pub record Click : Type 0 where
  pub server : Server
  pub fresh : Result Snapshot
  pub wanted : String
  pub uuid : ℕ → String

-- Clicks one after the other; each goes on with the run that the one before left.
unfoldable pub execute_all : List Click → Option Run → Option Run
execute_all [] run = run
execute_all (c ∷ clicks) run = execute_all clicks (execute c.server c.fresh c.wanted c.uuid run).0
