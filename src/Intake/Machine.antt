-- ===== src/Intake/Machine.antt =====
-- The handlers of the intake page, cut at their awaits.
use afterglow.Prelude.{
  ℕ, Bool, true, false, ◌&&◌, ◌||◌, not, List, [], ◌∷◌, String, Option, none, some, leb, ltb,
  if◌then◌else◌, find,
}
use afterglow.Api.{Reservation, ReservationInput, Snapshot, HoldState, affords}
use afterglow.Price.{micros, refused, price_micros}
use afterglow.Intake.{
  Kind, Plan, kind_changed, price_changed, preparing_hold, sending_batch, response_received,
  price_refused, ready, load_failed, invalid_batch, send_failed, BatchResult, Panel, Task,
  snapshotting, reserving, sending, refreshing, Parsed, unreadable, no_array, receipts, Json,
  is_uncertain, needs_plan, example_items, is_definitive,
}

-- The `catch` and `finally` of "Load example".
unfoldable pub load_lost : Option ℕ → String → Panel → Panel
unfolding is_definitive
load_lost status message p =
    let plan = if is_uncertain p.plan && is_definitive status then none else p.plan in
    record p {
      plan = plan;
      notice = load_failed message (is_uncertain plan);
      pending = false;
      preparing = false;
    }

abbrev pub is_held : HoldState → Bool
is_held HoldState.held = true
is_held _ = false

-- What "Send batch" does with the parsed body. A submitted hold is not reused.
unfoldable pub send_parsed : Parsed → Panel → Panel × List Task
send_parsed (unreadable message) p = (record p { notice = invalid_batch message }, [])
send_parsed no_array p =
    (record p { notice = invalid_batch "Use a receipts array with 1–50 items." }, [])
send_parsed (receipts body n) p =
    if ltb n 1 || ltb 50 n
    then (record p { notice = invalid_batch "Use a receipts array with 1–50 items." }, [])
    else (
      record p { pending = true; plan = none; result = none; notice = sending_batch },
      sending body ∷ [],
    )

module _ (json : Json) where
  -- From the hold on: the request body of the example, or a fresh start.
  unfoldable pub finish_load : ℕ → (ℕ → String) → Reservation → Panel → Panel
  unfolding example_items load_lost
  finish_load now uuid r p =
      if not (is_held r.state) || leb r.expires_at now
      then load_lost none
          "The recovered reservation is no longer available. Load again to prepare a fresh example."
          (record p { plan = none })
      else record p {
        draft = json.stringify (example_items p.kind r uuid);
        result = none;
        notice = ready r.cost_micros p.kind;
        pending = false;
        preparing = false;
      }

  -- `if (!examplePlan.hold) examplePlan.hold = await request(…)`
  unfoldable pub obtain_hold : ℕ → (ℕ → String) → Plan → Panel → Panel × List Task
  unfolding finish_load
  obtain_hold now uuid plan p = elim (plan.hold) [
    | none ↦ (p, reserving plan.key plan.input ∷ [])
    | some r ↦ (finish_load now uuid r p, [])
  ]

  -- The load at a price: a plan is made first unless the one at hand serves.
  unfoldable pub load_priced : ℕ → (ℕ → String) → ℕ → Panel → Panel × List Task
  unfolding obtain_hold needs_plan
  load_priced now uuid cost p =
      if needs_plan now cost p.plan then (p, snapshotting cost ∷ []) else elim (p.plan) [
        | none ↦ (p, snapshotting cost ∷ [])
        | some plan ↦ obtain_hold now uuid plan p
      ]

  -- "Load example".
  unfoldable pub load_click : Bool → ℕ → (ℕ → String) → Panel → Panel × List Task
  unfolding load_priced
  load_click demo now uuid p =
      if p.pending || not demo then (p, []) else elim (price_micros p.price) [
        | refused e ↦ (record p { price_error = some e; notice = price_refused e }, [])
        | micros cost ↦ load_priced now uuid cost (record p {
          price_error = none;
          pending = true;
          preparing = true;
          notice = preparing_hold;
        })
      ]

  -- The snapshot: a campaign that can pay, and the first screen.
  unfoldable pub snapshot_read : (ℕ → String) → ℕ → Snapshot → Panel → Panel × List Task
  unfolding load_lost affords
  snapshot_read uuid cost s p = elim (find (affords cost) s.campaigns) [
    | none ↦ (load_lost none "No campaign has the price available." p, [])
    | some campaign ↦ elim (s.screens) [
      | [] ↦ (load_lost none "No campaign has the price available." p, [])
      | screen ∷ _ ↦
          let input =
            (let i : ReservationInput = record {
              campaign_id = campaign.id;
              screen_id = screen.id;
              cost_micros = cost;
            } in
              i) in
          (
            record p { plan = some (record { key = uuid 0; input = input; hold = none }) },
            reserving (uuid 0) input ∷ [],
          )
    ]
  ]

  unfoldable pub hold_read : ℕ → (ℕ → String) → Reservation → Panel → Panel
  unfolding finish_load
  hold_read now uuid r p = elim (p.plan) [
    | none ↦ load_lost none "Cannot set properties of null" p
    | some plan ↦ finish_load now uuid r (record p { plan = some (record plan { hold = some r }) })
  ]

  -- "Send batch".
  unfoldable pub send_click : Bool → Panel → Panel × List Task
  unfolding send_parsed
  send_click demo p = if p.pending || not demo then (p, []) else send_parsed (json.parse p.draft) p

-- An answer with a list of results; a refusal or an unreadable one is a message that is thrown.
unfoldable pub batch_read : ℕ → BatchResult → Panel → Panel × List Task
batch_read status r p = (
  record p { result = some r; plan = none; http_status = status; notice = response_received },
  refreshing ∷ [],
)

unfoldable pub send_lost : String → Panel → Panel
send_lost message p = record p { notice = send_failed message; pending = false }

unfoldable pub refreshed : Panel → Panel
refreshed p = record p { pending = false }

-- The change and input handlers.
unfoldable pub choose_kind : Kind → Panel → Panel
choose_kind kind p = record p { kind = kind; notice = kind_changed }

unfoldable pub type_price : List ℕ → Panel → Panel
type_price text p = record p { price = text; price_error = none; notice = price_changed }

unfoldable pub type_draft : String → Panel → Panel
type_draft text p = record p { draft = text }
