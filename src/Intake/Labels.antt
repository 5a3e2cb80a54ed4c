-- ===== src/Intake/Labels.antt =====
-- The controls of the intake page say which request is out.
use afterglow.Prelude.{
  ◌≡◌, refl, ℕ, Bool, true, false, ◌||◌, List, [], ◌∷◌, String, some, arith, Option-cases,
  Bool-cases, inl, inr, ltb, ◌++◌, find, List-cases,
}
use mathlib.Core.List.{append-nil}
use afterglow.Api.{Snapshot, Reservation, affords}
use afterglow.Price.{Priced-cases, price_micros}
use afterglow.Intake.{
  Panel, Task, snapshotting, reserving, sending, refreshing, Json, Parsed, unreadable, no_array,
  receipts, needs_plan,
}
use afterglow.Intake.Machine.{
  finish_load, obtain_hold, load_priced, load_click, snapshot_read, hold_read, send_parsed,
}
use afterglow.Intake.Commands.{
  Command, load, send, kind, price, draft, Reply, got_snapshot, got_hold, got_batch, got_refresh,
  failed, perform, resume,
}
use afterglow.Intake.Steps.{Fits, World, command, answer, Reach, here, next}
use afterglow.Intake.Single.{IsSingle, Matches, Out-pending, Reach-IsSingle}

-- Whether a request belongs to "Load example".
abbrev pub prepares : List Task → Bool
prepares [] = false
prepares (snapshotting cost ∷ _) = true
prepares (reserving k i ∷ _) = true
prepares (sending b ∷ _) = false
prepares (refreshing ∷ _) = false

abbrev pub IsLabelled : Panel × List Task → Type 0
IsLabelled (p, tasks) = p.preparing ≡ prepares tasks

finish_load-preparing :
    (json : Json) (now : ℕ) (uuid : ℕ → String) (r : Reservation) (p : Panel)
    → (finish_load json now uuid r p).preparing ≡ false
unfolding finish_load
finish_load-preparing json now uuid r p = ground arith

load_priced-IsLabelled :
    (json : Json) (now : ℕ) (uuid : ℕ → String) (cost : ℕ) (p : Panel)
    → p.preparing ≡ true
    → IsLabelled (load_priced json now uuid cost p)
unfolding load_priced
load_priced-IsLabelled json now uuid cost p h = elim (Bool-cases (needs_plan now cost p.plan)) [
  | inl fresh ↦ rw fresh h
  | inr serves ↦ elim (Option-cases p.plan) [
    | inl nothing ↦ rw (serves, nothing) h
    | inr (plan, e) ↦ elim (Option-cases plan.hold) [
      | inl unknown ↦ rw (serves, e) (rw (unknown, obtain_hold) h)
      | inr (r, held) ↦
          rw (serves, e) (rw (held, obtain_hold) (finish_load-preparing json now uuid r p))
    ]
  ]
]

load_click-IsLabelled :
    (json : Json) (demo : Bool) (now : ℕ) (uuid : ℕ → String) (p : Panel)
    → p.pending ≡ false
    → p.preparing ≡ false
    → IsLabelled (load_click json demo now uuid p)
unfolding load_click
load_click-IsLabelled json false now uuid p idle h = simp idle h
load_click-IsLabelled json true now uuid p idle h = elim (Priced-cases (price_micros p.price)) [
  | inl (cost, c) ↦ rw c (simp idle (load_priced-IsLabelled json now uuid cost _ refl))
  | inr (e, c) ↦ rw c (simp idle h)
]

send_parsed-IsLabelled :
    (o : Parsed) (p : Panel) → p.preparing ≡ false → IsLabelled (send_parsed o p)
unfolding send_parsed
send_parsed-IsLabelled (unreadable message) p h = h
send_parsed-IsLabelled no_array p h = h
send_parsed-IsLabelled (receipts body n) p h = elim (Bool-cases (ltb n 1 || ltb 50 n)) [
  | inl bad ↦ rw bad h
  | inr good ↦ rw good h
]

perform-IsLabelled :
    (json : Json) (c : Command) (p : Panel)
    → p.pending ≡ false
    → p.preparing ≡ false
    → IsLabelled (perform json c p)
unfolding perform
perform-IsLabelled json (load demo now uuid) p idle h =
    load_click-IsLabelled json demo now uuid p idle h
perform-IsLabelled json (send false) p idle h = simp idle h
perform-IsLabelled json (send true) p idle h =
    simp idle (send_parsed-IsLabelled (json.parse p.draft) p h)
perform-IsLabelled json (kind k) p idle h = h
perform-IsLabelled json (price text) p idle h = h
perform-IsLabelled json (draft text) p idle h = h

-- While a request is out a command starts nothing and leaves `preparing`.
busy-IsLabelled :
    (json : Json) (c : Command) (p : Panel) (t : Task)
    → p.pending ≡ true
    → p.preparing ≡ prepares (t ∷ [])
    → IsLabelled ((perform json c p).0, (perform json c p).1 ++ (t ∷ []))
unfolding perform
busy-IsLabelled json (load demo now uuid) p t busy h = simp busy h
busy-IsLabelled json (send demo) p t busy h = simp busy h
busy-IsLabelled json (kind k) p t busy h = h
busy-IsLabelled json (price text) p t busy h = h
busy-IsLabelled json (draft text) p t busy h = h

snapshot_read-IsLabelled :
    (json : Json) (uuid : ℕ → String) (cost : ℕ) (s : Snapshot) (p : Panel)
    → p.preparing ≡ true
    → IsLabelled (snapshot_read json uuid cost s p)
unfolding snapshot_read
snapshot_read-IsLabelled json uuid cost s p h =
    elim (Option-cases (find (affords cost) s.campaigns)) [
      | inl poor ↦ rw (poor, snapshot_read) refl
      | inr (campaign, rich) ↦ elim (List-cases s.screens) [
        | inl dark ↦ rw (rich, dark, snapshot_read) refl
        | inr (screen, screens, lit) ↦ rw (rich, lit, snapshot_read) h
      ]
    ]

hold_read-preparing :
    (json : Json) (now : ℕ) (uuid : ℕ → String) (r : Reservation) (p : Panel)
    → (hold_read json now uuid r p).preparing ≡ false
unfolding hold_read
hold_read-preparing json now uuid r p = elim (Option-cases p.plan) [
  | inl nothing ↦ rw (nothing, hold_read) refl
  | inr (plan, e) ↦
      rw (e, hold_read)
        (finish_load-preparing json now uuid r
          (record p { plan = some (record plan { hold = some r }) }))
]

resume-IsLabelled :
    (json : Json) (t : Task) (reply : Reply) (p : Panel)
    → Fits t reply
    → p.preparing ≡ prepares (t ∷ [])
    → IsLabelled (resume json t reply p)
unfolding resume
resume-IsLabelled json (snapshotting cost) (got_snapshot s uuid) p fit h =
    snapshot_read-IsLabelled json uuid cost s p h
resume-IsLabelled json (snapshotting cost) (failed status message) p fit h = refl
resume-IsLabelled json (reserving k n) (got_hold r now uuid) p fit h =
    hold_read-preparing json now uuid r p
resume-IsLabelled json (reserving k n) (failed status message) p fit h = refl
resume-IsLabelled json (sending b) (got_batch status r) p fit h = h
resume-IsLabelled json (sending b) (failed status message) p fit h = h
resume-IsLabelled json refreshing got_refresh p fit h = h
resume-IsLabelled json _ _ p fit h = absurd fit

command-IsLabelled :
    (json : Json) (c : Command) (p : Panel) (tasks : List Task)
    → Matches p tasks
    → IsLabelled (p, tasks)
    → IsLabelled ((perform json c p).0, (perform json c p).1 ++ tasks)
command-IsLabelled json c p [] m h = rw append-nil (perform-IsLabelled json c p m h)
command-IsLabelled json c p (t ∷ []) m h = busy-IsLabelled json c p t (Out-pending p t m) h
command-IsLabelled json c p (t ∷ u ∷ ts) m h = absurd m

answer-IsLabelled :
    (json : Json) (p : Panel) (earlier later : List Task) (t : Task) (reply : Reply)
    → Fits t reply
    → Matches p (earlier ++ (t ∷ later))
    → IsLabelled (p, earlier ++ (t ∷ later))
    → IsLabelled ((resume json t reply p).0, (resume json t reply p).1 ++ (earlier ++ later))
answer-IsLabelled json p [] [] t reply fit m h =
    rw append-nil (resume-IsLabelled json t reply p fit h)
answer-IsLabelled json p [] (u ∷ later) t reply fit m h = absurd m
answer-IsLabelled json p (u ∷ []) later t reply fit m h = absurd m
answer-IsLabelled json p (u ∷ v ∷ earlier) later t reply fit m h = absurd m

pub Reach-IsLabelled :
    {json : Json} {w v : World}
    → Reach json w v
    → IsSingle w.panel w.tasks
    → IsLabelled (w.panel, w.tasks)
    → IsLabelled (v.panel, v.tasks)
Reach-IsLabelled here i h = h
Reach-IsLabelled (next r (command w c ok)) i h =
    command-IsLabelled _ c w.panel w.tasks (Reach-IsSingle r i).matched (Reach-IsLabelled r i h)
Reach-IsLabelled (next r (answer w earlier later t reply e fit)) i h =
    answer-IsLabelled _ w.panel earlier later t reply fit (rw e at (Reach-IsSingle r i).matched)
      (rw e at (Reach-IsLabelled r i h))
