-- ===== src/Intake/Retry.antt =====
-- What survives a failed load, and what a loaded example sends.
use afterglow.Prelude.{
  ◌⊎◌, ◌≡◌, refl, ◌∙◌, ℕ, ◌<◌, ◌≤◌, true, false, List, [], ◌∷◌, String, Option, none, some, arith,
  length, All, Bool-cases, inl, inr, if◌then◌else◌,
}
use afterglow.Api.{Reservation, HoldState}
use afterglow.Price.{micros, price_micros}
use afterglow.Intake.{
  Kind, partial, clean, duplicate, replay, schema, window, Item, receipt, malformed, Plan, Panel,
  snapshotting, reserving, sending, receipts, Json, example_items, is_definitive, needs_plan,
}
use afterglow.Intake.Machine.{load_lost, load_click, obtain_hold, finish_load, send_click}

load_click_fresh :
    (json : Json) (q : Panel) (now cost : ℕ) (uuid : ℕ → String)
    → q.pending ≡ false
    → price_micros q.price ≡ micros cost
    → q.plan ≡ none
    → (load_click json true now uuid q).1 ≡ snapshotting cost ∷ []
unfolding load_click
load_click_fresh json q now cost uuid idle c e = rw (idle, c, load_click) (rw (e, needs_plan) refl)

load_click_uncertain :
    (json : Json) (q : Panel) (plan : Plan) (now cost : ℕ) (uuid : ℕ → String)
    → q.pending ≡ false
    → price_micros q.price ≡ micros cost
    → q.plan ≡ some plan
    → plan.hold ≡ none
    → (load_click json true now uuid q).1 ≡ reserving plan.key plan.input ∷ []
unfolding load_click
load_click_uncertain json q plan now cost uuid idle c e h =
    rw (idle, c, load_click) (rw (e, h, needs_plan, obtain_hold) refl)

load_lost-plan :
    (status : Option ℕ) (message : String) (p : Panel) (plan : Plan)
    → p.plan ≡ some plan
    → plan.hold ≡ none
    → ((load_lost status message p).pending ≡ false)
      × (price_micros (load_lost status message p).price ≡ price_micros p.price)
      × ((load_lost status message p).plan ≡ (if is_definitive status then none else some plan))
unfolding load_lost
load_lost-plan status message p plan e h = (refl, refl, ground arith)

-- The statuses with which the service refuses a request for good. Without a status, and with any
-- other one, such as a timeout, too many requests or an error of the server, the reservation may
-- have been made.
abbrev pub IsRefusal : Option ℕ → Type 0
IsRefusal none = ⊥
IsRefusal (some s) = (s ≡ 400) ⊎ (s ≡ 401) ⊎ (s ≡ 403) ⊎ (s ≡ 404) ⊎ (s ≡ 409) ⊎ (s ≡ 422)

refused : (s : ℕ) → is_definitive (some s) ≡ true → IsRefusal (some s)
unfolding is_definitive
refused s h = ground arith

unrefused : (s : ℕ) → is_definitive (some s) ≡ false → IsRefusal (some s) → ⊥
unfolding is_definitive
unrefused s h m = ground arith

known_refusal : (status : Option ℕ) → is_definitive status ≡ true → IsRefusal status
unfolding is_definitive
known_refusal none h = ground arith
known_refusal (some s) h = refused s h

unknown_refusal : (status : Option ℕ) → is_definitive status ≡ false → IsRefusal status → ⊥
unknown_refusal none h r = r
unknown_refusal (some s) h r = unrefused s h r

-- A reservation that failed with an unknown outcome keeps its plan, and the next load at any
-- accepted price repeats the request under the same key with the same content; one that was
-- refused for certain, with one of six statuses, is dropped, and the next load plans afresh.
pub load_after_failure :
    (json : Json) (p : Panel) (plan : Plan) (status : Option ℕ) (message : String) (now cost : ℕ)
    (uuid : ℕ → String)
    → p.plan ≡ some plan
    → plan.hold ≡ none
    → price_micros p.price ≡ micros cost
    → let started = (load_click json true now uuid (load_lost status message p)).1 in
      (IsRefusal status × (started ≡ snapshotting cost ∷ []))
      ⊎ ((IsRefusal status → ⊥) × (started ≡ reserving plan.key plan.input ∷ []))
load_after_failure json p plan status message now cost uuid e h c =
    let (idle, price, kept) = load_lost-plan status message p plan e h in
    let asked = price ∙ c in
    elim (Bool-cases (is_definitive status)) [
      | inl certain ↦ inl (
        known_refusal status certain,
        load_click_fresh json (load_lost status message p) now cost uuid idle asked
            (rw certain at kept),
      )
      | inr unknown ↦ inr (
        unknown_refusal status unknown,
        load_click_uncertain json (load_lost status message p) plan now cost uuid idle asked
            (rw unknown at kept) h,
      )
    ]

-- The receipts of an example report the hold they were made for, within what one batch may hold.
abbrev pub Reports : Reservation → Item → Type 0
Reports r (receipt x) = (x.reservation_id ≡ r.id) × (x.screen_id ≡ r.screen_id)
Reports r malformed = Unit

example_items-Reports :
    (kind : Kind) (r : Reservation) (uuid : ℕ → String)
    → All (Reports r) (example_items kind r uuid)
unfolding example_items
example_items-Reports partial r uuid = ground arith
example_items-Reports clean r uuid = ground arith
example_items-Reports duplicate r uuid = ground arith
example_items-Reports replay r uuid = ground arith
example_items-Reports schema r uuid = ground arith
example_items-Reports window r uuid = ground arith

example_items-length :
    (kind : Kind) (r : Reservation) (uuid : ℕ → String)
    → (1 ≤ length (example_items kind r uuid)) × (length (example_items kind r uuid) ≤ 5)
unfolding example_items
example_items-length partial r uuid = ground arith
example_items-length clean r uuid = ground arith
example_items-length duplicate r uuid = ground arith
example_items-length replay r uuid = ground arith
example_items-length schema r uuid = ground arith
example_items-length window r uuid = ground arith

-- What is relied on of `JSON`: reading back a body that was written gives its receipts, which are
-- then written without the spaces.
abbrev pub IsFaithful : Json → Type 0
IsFaithful json =
    (items : List Item)
    → json.parse (json.stringify items) ≡ receipts (json.compact items) (length items)

-- A hold that is still open yields an example that reports this hold and no other, and that "Send
-- batch" accepts as it stands: the body goes out, and the plan is dropped so that its hold is
-- never offered again.
pub send_loaded :
    (json : Json)
    → IsFaithful json
    → (now : ℕ) (uuid : ℕ → String) (r : Reservation) (p : Panel) → r.state ≡ HoldState.held
    → now < r.expires_at
    → let q = finish_load json now uuid r p in
      All (Reports r) (example_items p.kind r uuid)
      × (q.draft ≡ json.stringify (example_items p.kind r uuid))
      × ((send_click json true q).1 ≡ sending (json.compact (example_items p.kind r uuid)) ∷ [])
      × ((send_click json true q).0.plan ≡ none)
unfolding finish_load send_click
send_loaded json faithful now uuid r p state open' =
    let (low, high) = example_items-length p.kind r uuid in
    (
      example_items-Reports p.kind r uuid,
      ground arith,
      ground (arith, faithful (example_items p.kind r uuid)),
      ground (arith, faithful (example_items p.kind r uuid)),
    )
