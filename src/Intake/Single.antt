-- ===== src/Intake/Single.antt =====
-- One request at a time, and an uncertain plan that keeps to the price on display.
use afterglow.Prelude.{
  ◌≡◌, ℕ, Bool, true, false, ◌||◌, List, [], ◌∷◌, String, Option, none, some, arith, Option-cases,
  Bool-cases, inl, inr, ltb, ◌++◌, find, List-cases, refl,
}
use mathlib.Core.Bool.{false≢true}
use mathlib.Core.List.{append-nil}
use afterglow.Api.{Snapshot, Reservation, affords}
use afterglow.Price.{Priced-cases, micros, price_micros}
use afterglow.Intake.{
  Kind, Plan, Panel, Task, snapshotting, reserving, sending, refreshing, Json, Parsed, unreadable,
  no_array, receipts, price_disabled, needs_plan,
}
use afterglow.Intake.Machine.{
  load_lost, finish_load, obtain_hold, load_priced, load_click, snapshot_read, hold_read,
  send_parsed, choose_kind, type_draft,
}
use afterglow.Intake.Commands.{
  Command, load, send, kind, price, draft, Reply, got_snapshot, got_hold, got_batch, got_refresh,
  failed, perform, IsAllowed, resume,
}
use afterglow.Intake.Steps.{Fits, World, command, answer, Reach, here, next}

-- What the request that is out goes with.
abbrev pub Out : Panel → Task → Type 0
Out p (snapshotting cost) = (p.pending ≡ true) × (price_micros p.price ≡ micros cost)
Out p (reserving k i) =
    (p.pending ≡ true) × (p.plan ≡ some (record { key = k; input = i; hold = none }))
Out p (sending b) = (p.pending ≡ true) × (p.plan ≡ none)
Out p refreshing = (p.pending ≡ true) × (p.plan ≡ none)

abbrev pub Matches : Panel → List Task → Type 0
Matches p [] = p.pending ≡ false
Matches p (t ∷ []) = Out p t
Matches p (t ∷ u ∷ ts) = ⊥

-- A plan whose reservation is not known asks for the amount in the price field.
abbrev pub IsPriced : Panel → Type 0
IsPriced p =
    (plan : Plan)
    → p.plan ≡ some plan
    → plan.hold ≡ none
    → price_micros p.price ≡ micros plan.input.cost_micros

pub record IsSingle (panel : Panel) (tasks : List Task) : Type 0 where
  pub matched : Matches panel tasks
  pub priced : IsPriced panel

finish_load-IsSingle :
    (json : Json) (now : ℕ) (uuid : ℕ → String) (r : Reservation) (p : Panel) (plan : Plan)
    → p.plan ≡ some plan
    → plan.hold ≡ some r
    → IsSingle (finish_load json now uuid r p) []
unfolding finish_load
finish_load-IsSingle json now uuid r p plan e h = record {
  matched = ground arith;
  priced = λ x f n. ground arith;
}

load_lost-IsSingle :
    (status : Option ℕ) (message : String) (p : Panel)
    → IsPriced p
    → IsSingle (load_lost status message p) []
unfolding load_lost
load_lost-IsSingle status message p i = record {
  matched = refl;
  priced = λ x e n. ground (arith, i x);
}

load_priced-IsSingle :
    (json : Json) (now : ℕ) (uuid : ℕ → String) (cost : ℕ) (p : Panel)
    → p.pending ≡ true
    → price_micros p.price ≡ micros cost
    → IsPriced p
    → IsSingle (load_priced json now uuid cost p).0 (load_priced json now uuid cost p).1
unfolding load_priced
load_priced-IsSingle json now uuid cost p out c i = elim (Bool-cases (needs_plan now cost p.plan)) [
  | inl fresh ↦ rw fresh (record { matched = (out, c); priced = i })
  | inr serves ↦ elim (Option-cases p.plan) [
    | inl nothing ↦ rw (serves, nothing) (record { matched = (out, c); priced = i })
    | inr (plan, e) ↦ elim (Option-cases plan.hold) [
      | inl unknown ↦
          rw (serves, e)
            (rw (unknown, obtain_hold) (record { matched = (out, ground arith); priced = i }))
      | inr (r, held) ↦
          rw (serves, e)
            (rw (held, obtain_hold) (finish_load-IsSingle json now uuid r p plan e held))
    ]
  ]
]

load_click-IsSingle :
    (json : Json) (demo : Bool) (now : ℕ) (uuid : ℕ → String) (p : Panel)
    → p.pending ≡ false
    → IsPriced p
    → IsSingle (load_click json demo now uuid p).0 (load_click json demo now uuid p).1
unfolding load_click
load_click-IsSingle json false now uuid p idle i = simp idle (record { matched = idle; priced = i })
load_click-IsSingle json true now uuid p idle i = elim (Priced-cases (price_micros p.price)) [
  | inl (cost, c) ↦ rw c (simp idle (load_priced-IsSingle json now uuid cost _ refl c i))
  | inr (e, c) ↦ rw c (simp idle (record { matched = refl; priced = i }))
]

send_parsed-IsSingle :
    (o : Parsed) (p : Panel)
    → p.pending ≡ false
    → IsPriced p
    → IsSingle (send_parsed o p).0 (send_parsed o p).1
unfolding send_parsed
send_parsed-IsSingle (unreadable message) p idle i = record { matched = idle; priced = i }
send_parsed-IsSingle no_array p idle i = record { matched = idle; priced = i }
send_parsed-IsSingle (receipts body n) p idle i = elim (Bool-cases (ltb n 1 || ltb 50 n)) [
  | inl bad ↦ rw bad (record { matched = idle; priced = i })
  | inr good ↦ rw good (record { matched = (refl, refl); priced = λ x e h. cc })
]

perform-IsSingle :
    (json : Json) (c : Command) (p : Panel)
    → p.pending ≡ false
    → IsAllowed c p
    → IsPriced p
    → IsSingle (perform json c p).0 (perform json c p).1
unfolding perform price_disabled
perform-IsSingle json (load demo now uuid) p idle ok i =
    load_click-IsSingle json demo now uuid p idle i
perform-IsSingle json (send false) p idle ok i = simp idle (record { matched = idle; priced = i })
perform-IsSingle json (send true) p idle ok i =
    simp idle (send_parsed-IsSingle (json.parse p.draft) p idle i)
perform-IsSingle json (kind k) p idle ok i = record { matched = idle; priced = i }
perform-IsSingle json (price text) p idle ok i = record {
  matched = idle;
  priced = λ x e h. ground arith;
}
perform-IsSingle json (draft text) p idle ok i = record { matched = idle; priced = i }

pub Out-pending : (p : Panel) (t : Task) → Out p t → p.pending ≡ true
Out-pending p (snapshotting cost) m = m.0
Out-pending p (reserving k i) m = m.0
Out-pending p (sending b) m = m.0
Out-pending p refreshing m = m.0

Out-draft : (p : Panel) (t : Task) (text : String) → Out p t → Out (type_draft text p) t
unfolding type_draft
Out-draft p (snapshotting cost) text m = m
Out-draft p (reserving k i) text m = m
Out-draft p (sending b) text m = m
Out-draft p refreshing text m = m

Out-kind : (p : Panel) (t : Task) (k : Kind) → Out p t → Out (choose_kind k p) t
unfolding choose_kind
Out-kind p (snapshotting cost) k m = m
Out-kind p (reserving key i) k m = m
Out-kind p (sending b) k m = m
Out-kind p refreshing k m = m

-- While a request is out, a command starts nothing and keeps what the request goes with.
perform_busy :
    (json : Json) (c : Command) (p : Panel) (t : Task)
    → IsAllowed c p
    → IsSingle p (t ∷ [])
    → IsSingle (perform json c p).0 ((perform json c p).1 ++ (t ∷ []))
unfolding perform price_disabled
perform_busy json (load demo now uuid) p t ok s =
    let busy = Out-pending p t s.matched in simp busy s
perform_busy json (send demo) p t ok s = let busy = Out-pending p t s.matched in simp busy s
perform_busy json (kind k) p t ok s = record {
  matched = Out-kind p t k s.matched;
  priced = s.priced;
}
perform_busy json (price text) p t ok s =
    let busy = Out-pending p t s.matched in absurd (false≢true (ground arith))
perform_busy json (draft text) p t ok s = record {
  matched = Out-draft p t text s.matched;
  priced = s.priced;
}

snapshot_read-IsSingle :
    (json : Json) (uuid : ℕ → String) (cost : ℕ) (s : Snapshot) (p : Panel)
    → Out p (snapshotting cost)
    → IsPriced p
    → IsSingle (snapshot_read json uuid cost s p).0 (snapshot_read json uuid cost s p).1
unfolding snapshot_read
snapshot_read-IsSingle json uuid cost s p (out, c) i =
    elim (Option-cases (find (affords cost) s.campaigns)) [
      | inl poor ↦ rw (poor, snapshot_read) (load_lost-IsSingle none _ p i)
      | inr (campaign, rich) ↦ elim (List-cases s.screens) [
        | inl dark ↦ rw (rich, dark, snapshot_read) (load_lost-IsSingle none _ p i)
        | inr (screen, screens, lit) ↦
            rw (rich, lit, snapshot_read)
              (record { matched = (out, refl); priced = λ x e h. ground arith })
      ]
    ]

hold_read-IsSingle :
    (json : Json) (now : ℕ) (uuid : ℕ → String) (r : Reservation) (p : Panel) (plan : Plan)
    → p.plan ≡ some plan
    → IsSingle (hold_read json now uuid r p) []
unfolding hold_read
hold_read-IsSingle json now uuid r p plan e =
    let held : Plan = record plan { hold = some r } in
    rw (e, hold_read)
      (finish_load-IsSingle json now uuid r (record p { plan = some held }) held refl refl)

resume-IsSingle :
    (json : Json) (t : Task) (reply : Reply) (p : Panel)
    → Fits t reply
    → IsSingle p (t ∷ [])
    → IsSingle (resume json t reply p).0 (resume json t reply p).1
unfolding resume
resume-IsSingle json (snapshotting cost) (got_snapshot s uuid) p fit i =
    snapshot_read-IsSingle json uuid cost s p i.matched i.priced
resume-IsSingle json (snapshotting cost) (failed status message) p fit i =
    load_lost-IsSingle status message p i.priced
resume-IsSingle json (reserving k n) (got_hold r now uuid) p fit i =
    hold_read-IsSingle json now uuid r p (record { key = k; input = n; hold = none }) i.matched.1
resume-IsSingle json (reserving k n) (failed status message) p fit i =
    load_lost-IsSingle status message p i.priced
resume-IsSingle json (sending b) (got_batch status r) p fit i = record {
  matched = (i.matched.0, refl);
  priced = λ x e h. cc;
}
resume-IsSingle json (sending b) (failed status message) p fit i = record {
  matched = refl;
  priced = i.priced;
}
resume-IsSingle json refreshing got_refresh p fit i = record { matched = refl; priced = i.priced }
resume-IsSingle json _ _ p fit i = absurd fit

command-IsSingle :
    (json : Json) (c : Command) (p : Panel) (tasks : List Task)
    → IsAllowed c p
    → IsSingle p tasks
    → IsSingle (perform json c p).0 ((perform json c p).1 ++ tasks)
command-IsSingle json c p [] ok i = rw append-nil (perform-IsSingle json c p i.matched ok i.priced)
command-IsSingle json c p (t ∷ []) ok i = perform_busy json c p t ok i
command-IsSingle json c p (t ∷ u ∷ ts) ok i = absurd i.matched

answer-IsSingle :
    (json : Json) (p : Panel) (earlier later : List Task) (t : Task) (reply : Reply)
    → Fits t reply
    → IsSingle p (earlier ++ (t ∷ later))
    → IsSingle (resume json t reply p).0 ((resume json t reply p).1 ++ (earlier ++ later))
answer-IsSingle json p [] [] t reply fit i = rw append-nil (resume-IsSingle json t reply p fit i)
answer-IsSingle json p [] (u ∷ later) t reply fit i = absurd i.matched
answer-IsSingle json p (u ∷ []) later t reply fit i = absurd i.matched
answer-IsSingle json p (u ∷ v ∷ earlier) later t reply fit i = absurd i.matched

-- On every path from a page with no request out: at most one request is out, and `pending` is set
-- exactly for it; a reservation that is out carries the key and the content of the plan at hand;
-- no plan is at hand while a batch is sent; and a plan whose outcome is unknown asks for exactly
-- the amount in the price field.
pub Reach-IsSingle :
    {json : Json} {w v : World}
    → Reach json w v
    → IsSingle w.panel w.tasks
    → IsSingle v.panel v.tasks
Reach-IsSingle here i = i
Reach-IsSingle (next r (command w c ok)) i =
    command-IsSingle _ c w.panel w.tasks ok (Reach-IsSingle r i)
Reach-IsSingle (next r (answer w earlier later t reply e fit)) i =
    answer-IsSingle _ w.panel earlier later t reply fit (rw e at (Reach-IsSingle r i))
