-- ===== src/Intake/Keys.antt =====
-- The idempotency keys of the reservations that the intake page asks for.
use afterglow.Prelude.{
  ◌≡◌, refl, ℕ, Bool, ◌||◌, not, List, [], ◌∷◌, String, Option, none, some, arith, Option-cases,
  Bool-cases, inl, inr, Memᴰ, ltb, find, List-cases,
}
use afterglow.Api.{Snapshot, Reservation, ReservationInput, affords}
use afterglow.Price.{Priced-cases, price_micros}
use afterglow.Intake.{
  Plan, Panel, Task, snapshotting, reserving, sending, refreshing, Json, Parsed, unreadable,
  no_array, receipts, needs_plan,
}
use afterglow.Intake.Machine.{
  load_lost, finish_load, load_priced, load_click, snapshot_read, hold_read, send_click,
  send_parsed,
}
use afterglow.Intake.Commands.{
  Command, load, send, kind, price, draft, Reply, got_snapshot, got_hold, got_batch, got_refresh,
  failed, perform, resume,
}
use afterglow.Intake.Steps.{Fits}

-- A request for a reservation: its key and its content.
abbrev pub Request : Type 0
Request = String × ReservationInput

abbrev pub asks : List Task → List Request
asks [] = []
asks (reserving k i ∷ ts) = (k, i) ∷ asks ts
asks (snapshotting c ∷ ts) = asks ts
asks (sending b ∷ ts) = asks ts
asks (refreshing ∷ ts) = asks ts

-- The plan at hand, unless its reservation is known, was asked for.
abbrev pub IsAsked : List Request → Panel → Type 0
IsAsked h p = (plan : Plan) → p.plan ≡ some plan → plan.hold ≡ none → Memᴰ (plan.key, plan.input) h

-- The key that an answer brings, if it is one to make a plan with.
abbrev pub brings : Task → Reply → Option String
brings (snapshotting cost) (got_snapshot s uuid) = some (uuid 0)
brings _ _ = none

-- Of what a call starts, a request for a reservation repeats an earlier one or has the fresh key.
pub data Follows (h : List Request) (fresh : Option String) : Panel × List Task → Type 0 where
  no_request : {q : Panel} {ts : List Task} → asks ts ≡ [] → IsAsked h q → Follows h fresh (q, ts)
  repeated :
      {q : Panel} (k : String) (i : ReservationInput)
      → Memᴰ (k, i) h
      → IsAsked h q
      → Follows h fresh (q, reserving k i ∷ [])
  first :
      {q : Panel} (k : String) (i : ReservationInput)
      → fresh ≡ some k
      → IsAsked ((k, i) ∷ h) q
      → Follows h fresh (q, reserving k i ∷ [])

module _ (h : List Request) where
  load_lost-IsAsked :
      (status : Option ℕ) (message : String) (p : Panel)
      → IsAsked h p
      → IsAsked h (load_lost status message p)
  unfolding load_lost
  load_lost-IsAsked status message p a = λ x e n. ground (arith, a x)

  finish_load-IsAsked :
      (json : Json) (now : ℕ) (uuid : ℕ → String) (r : Reservation) (p : Panel) (plan : Plan)
      → p.plan ≡ some plan
      → plan.hold ≡ some r
      → IsAsked h (finish_load json now uuid r p)
  unfolding finish_load
  finish_load-IsAsked json now uuid r p plan e k = λ x f n. ground arith

  load_priced-Follows :
      (json : Json) (now : ℕ) (uuid : ℕ → String) (cost : ℕ) (p : Panel)
      → IsAsked h p
      → Follows h none (load_priced json now uuid cost p)
  unfolding load_priced
  load_priced-Follows json now uuid cost p a = elim (Bool-cases (needs_plan now cost p.plan)) [
    | inl fresh ↦ rw fresh (no_request refl a)
    | inr serves ↦ elim (Option-cases p.plan) [
      | inl nothing ↦ rw (serves, nothing) (no_request refl a)
      | inr (plan, found) ↦ elim (Option-cases plan.hold) [
        | inl unknown ↦
            rw (serves, found, unknown) (repeated plan.key plan.input (a plan found unknown) a)
        | inr (r, known) ↦
            rw (serves, found, known)
              (no_request refl (finish_load-IsAsked json now uuid r p plan found known))
      ]
    ]
  ]

  load_click-Follows :
      (json : Json) (demo : Bool) (now : ℕ) (uuid : ℕ → String) (p : Panel)
      → IsAsked h p
      → Follows h none (load_click json demo now uuid p)
  unfolding load_click
  load_click-Follows json demo now uuid p a = elim (Bool-cases (p.pending || not demo)) [
    | inl waits ↦ rw waits (no_request refl a)
    | inr free ↦ rw free (elim (Priced-cases (price_micros p.price)) [
      | inl (cost, c) ↦ rw c (load_priced-Follows json now uuid cost _ a)
      | inr (e, c) ↦ rw c (no_request refl a)
    ])
  ]

  send_parsed-Follows : (o : Parsed) (p : Panel) → IsAsked h p → Follows h none (send_parsed o p)
  unfolding send_parsed
  send_parsed-Follows (unreadable message) p a = no_request refl a
  send_parsed-Follows no_array p a = no_request refl a
  send_parsed-Follows (receipts body n) p a = elim (Bool-cases (ltb n 1 || ltb 50 n)) [
    | inl bad ↦ rw bad (no_request refl a)
    | inr good ↦ rw good (no_request refl (λ x e k. ground arith))
  ]

  send_click-Follows :
      (json : Json) (demo : Bool) (p : Panel)
      → IsAsked h p
      → Follows h none (send_click json demo p)
  unfolding send_click
  send_click-Follows json demo p a = elim (Bool-cases (p.pending || not demo)) [
    | inl waits ↦ rw waits (no_request refl a)
    | inr free ↦ rw free (send_parsed-Follows (json.parse p.draft) p a)
  ]

  pub perform-Follows :
      (json : Json) (c : Command) (p : Panel) → IsAsked h p → Follows h none (perform json c p)
  unfolding perform
  perform-Follows json (load demo now uuid) p a = load_click-Follows json demo now uuid p a
  perform-Follows json (send demo) p a = send_click-Follows json demo p a
  perform-Follows json (kind k) p a = no_request refl a
  perform-Follows json (price text) p a = no_request refl a
  perform-Follows json (draft text) p a = no_request refl a

  snapshot_read-Follows :
      (json : Json) (uuid : ℕ → String) (cost : ℕ) (s : Snapshot) (p : Panel)
      → IsAsked h p
      → Follows h (some (uuid 0)) (snapshot_read json uuid cost s p)
  unfolding snapshot_read
  snapshot_read-Follows json uuid cost s p a =
      elim (Option-cases (find (affords cost) s.campaigns)) [
        | inl poor ↦
            rw (poor, snapshot_read)
              (no_request refl (load_lost-IsAsked none "No campaign has the price available." p a))
        | inr (campaign, rich) ↦ (elim (List-cases s.screens) [
          | inl bare ↦
              rw (rich, bare, snapshot_read)
                (no_request refl
                  (load_lost-IsAsked none "No campaign has the price available." p a))
          | inr (screen, others, lit) ↦
              rw (rich, lit, snapshot_read)
                (first (uuid 0)
                  (record { campaign_id = campaign.id; screen_id = screen.id; cost_micros = cost })
                  refl (λ x e n. Memᴰ.head (ground arith)))
        ])
      ]

  hold_read-IsAsked :
      (json : Json) (now : ℕ) (uuid : ℕ → String) (r : Reservation) (p : Panel)
      → IsAsked h p
      → IsAsked h (hold_read json now uuid r p)
  unfolding hold_read
  hold_read-IsAsked json now uuid r p a = elim (Option-cases p.plan) [
    | inl nothing ↦ rw nothing (λ x e n. ground arith)
    | inr (plan, found) ↦ rw found (
        finish_load-IsAsked json now uuid r
          (record p { plan = some (record plan { hold = some r }) }) (record plan { hold = some r })
          refl refl)
  ]

  pub resume-Follows :
      (json : Json) (t : Task) (reply : Reply) (p : Panel)
      → Fits t reply
      → IsAsked h p
      → Follows h (brings t reply) (resume json t reply p)
  unfolding resume
  resume-Follows json (snapshotting cost) (got_snapshot s uuid) p fit a =
      snapshot_read-Follows json uuid cost s p a
  resume-Follows json (snapshotting cost) (failed status message) p fit a =
      no_request refl (load_lost-IsAsked status message p a)
  resume-Follows json (reserving k i) (got_hold r now uuid) p fit a =
      no_request refl (hold_read-IsAsked json now uuid r p a)
  resume-Follows json (reserving k i) (failed status message) p fit a =
      no_request refl (load_lost-IsAsked status message p a)
  resume-Follows json (sending b) (got_batch status r) p fit a =
      no_request refl (λ x e k. ground arith)
  resume-Follows json (sending b) (failed status message) p fit a = no_request refl a
  resume-Follows json refreshing got_refresh p fit a = no_request refl a
  resume-Follows json (snapshotting cost) (got_hold r now uuid) p fit a = absurd fit
  resume-Follows json (snapshotting cost) (got_batch status r) p fit a = absurd fit
  resume-Follows json (snapshotting cost) got_refresh p fit a = absurd fit
  resume-Follows json (reserving k i) (got_snapshot s uuid) p fit a = absurd fit
  resume-Follows json (reserving k i) (got_batch status r) p fit a = absurd fit
  resume-Follows json (reserving k i) got_refresh p fit a = absurd fit
  resume-Follows json (sending b) (got_snapshot s uuid) p fit a = absurd fit
  resume-Follows json (sending b) (got_hold r now uuid) p fit a = absurd fit
  resume-Follows json (sending b) got_refresh p fit a = absurd fit
  resume-Follows json refreshing (got_snapshot s uuid) p fit a = absurd fit
  resume-Follows json refreshing (got_hold r now uuid) p fit a = absurd fit
  resume-Follows json refreshing (got_batch status r) p fit a = absurd fit
  resume-Follows json refreshing (failed status message) p fit a = absurd fit
