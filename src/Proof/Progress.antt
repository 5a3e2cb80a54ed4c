-- ===== src/Proof/Progress.antt =====
-- Stages are verified in order, each with its evidence, over any number of executions.
use afterglow.Prelude.{
  ◌≡◌, refl, sym, ◌∙◌, ap, ℕ, zero, suc, ◌+◌, ◌≤◌, ◌<◌, Bool, true, false, List, [], ◌∷◌, String,
  Option, none, some, arith, all, get_elem?, set, length, Bool-cases, Option-cases, List-cases,
  find, inl, inr,
}
use native.Mathlib.Decide.{dec_lt}
use afterglow.Api.{Snapshot}
use afterglow.Console.Request.{Result, ok, thrown}
use afterglow.Proof.{Run, Outcome, and_then, Server, step}
use afterglow.Proof.Stages.{
  steps, works, stages, can_run, planned, prepared, execute, Click, execute_all,
}
use afterglow.Proof.OnRecord.{ShowsBelow, Shows, marks, IsProven, Proven, Proves}
use afterglow.Proof.Resume.{
  IsSame, reserve_stage-IsSame, accept_stage-IsSame, retry_stage-IsSame, reconcile_stage-IsSame,
  correct_stage-IsSame, verify_stage-IsSame,
}
use afterglow.Proof.Verified.{
  reserve_stage-Proves, accept_stage-Proves, retry_stage-Proves, reconcile_stage-Proves,
  correct_stage-Proves, verify_stage-Proves,
}

pub get_elem?-marks_lt : (n k i : ℕ) → i < k → k ≤ n → get_elem? (marks n k) i ≡ some true
get_elem?-marks_lt zero k i h l = absurd (omega arith)
get_elem?-marks_lt (suc n) zero i h l = absurd (omega arith)
get_elem?-marks_lt (suc n) (suc k) zero h l = refl
get_elem?-marks_lt (suc n) (suc k) (suc i) h l =
    get_elem?-marks_lt n k i (omega arith) (omega arith)

pub get_elem?-marks_eq : (n k : ℕ) → k < n → get_elem? (marks n k) k ≡ some false
get_elem?-marks_eq zero k h = absurd (omega arith)
get_elem?-marks_eq (suc n) zero h = refl
get_elem?-marks_eq (suc n) (suc k) h = get_elem?-marks_eq n k (omega arith)

set-marks : (n k : ℕ) → k < n → set (marks n k) k true ≡ marks n (suc k)
set-marks zero k h = absurd (omega arith)
set-marks (suc n) zero h = ap (λ t. true ∷ t) (marks-zero n)
  where
    marks-zero : (m : ℕ) → marks m zero ≡ marks m zero
    marks-zero m = refl
set-marks (suc n) (suc k) h = ap (λ t. true ∷ t) (set-marks n k (omega arith))

-- Where a run stands: the first `k` stages are verified.
pub record At (k : ℕ) (r : Run) : Type 0 where
  pub at_most : k ≤ 6
  pub in_order : r.done ≡ marks 6 k
  pub evidence : ShowsBelow k r

pub At-IsProven : (k : ℕ) (r : Run) → At k r → IsProven r
At-IsProven k r a = record {
  verified = k;
  at_most = a.at_most;
  in_order = a.in_order;
  evidence = a.evidence;
}

-- A stage before `k` is skipped, and stage `k` is worked on.
pub step_before :
    (i k : ℕ) (work : Run → Outcome) (r : Run) → i < k → At k r → step i work r ≡ (r, none)
unfolding step
step_before i k work r h a =
    let e = ap (λ flags. get_elem? flags i) a.in_order ∙ get_elem?-marks_lt 6 k i h a.at_most in
    rw (e, step) refl

-- The evidence is read neither from the flags nor from the stage that runs.
Shows-mark :
    (k : ℕ) (q : Run) (flags : List Bool) (i : ℕ)
    → Shows k q
    → Shows k (record q { done = flags; current = i })
Shows-mark zero q flags i h = h
Shows-mark (suc zero) q flags i h = h
Shows-mark (suc (suc zero)) q flags i h = h
Shows-mark (suc (suc (suc zero))) q flags i h = h
Shows-mark (suc (suc (suc (suc zero)))) q flags i h = h
Shows-mark (suc (suc (suc (suc (suc k))))) q flags i h = h

ShowsBelow-mark :
    (k : ℕ) (q : Run) (flags : List Bool) (i : ℕ)
    → ShowsBelow k q
    → ShowsBelow k (record q { done = flags; current = i })
ShowsBelow-mark zero q flags i h = tt
ShowsBelow-mark (suc k) q flags i (below, h) =
    (ShowsBelow-mark k q flags i below, Shows-mark k q flags i h)

-- What a step at `k` leaves: one stage more, or as many as before.
abbrev pub Stands : ℕ → Outcome → Type 0
Stands k (q, none) = At (suc k) q
Stands k (q, some message) = At k q

marked-Stands :
    (k : ℕ) (o : Outcome) (r : Run)
    → k < 6
    → r.done ≡ marks 6 k
    → IsSame r o
    → Proves k o
    → Stands k (and_then o (λ x. (record x { done = set x.done k true }, none)))
marked-Stands k (q, none) r h e same p = record {
  at_most = omega arith;
  in_order = ap (λ flags. set flags k true) (same.1 ∙ e) ∙ set-marks 6 k h;
  evidence = ShowsBelow-mark (suc k) q (set q.done k true) q.current p;
}
marked-Stands k (q, some message) r h e same p = record {
  at_most = omega arith;
  in_order = same.1 ∙ e;
  evidence = p;
}

pub step-Stands :
    (k : ℕ) (work : Run → Outcome) (r : Run)
    → k < 6
    → At k r
    → ((x : Run) → IsSame x (work x))
    → ((x : Run) → ShowsBelow k x → Proves k (work x))
    → Stands k (step k work r)
unfolding step
step-Stands k work r h a same p =
    let begun = record r { current = k } in
    let e = ap (λ flags. get_elem? flags k) a.in_order ∙ get_elem?-marks_eq 6 k h in
    rw (e, step)
      (marked-Stands k (work begun) r h a.in_order (same begun)
        (p begun (ShowsBelow-mark k r r.done k a.evidence)))

-- A list of works, from stage `i` on.
abbrev pub Numbered : ℕ → List (ℕ × (Run → Outcome)) → Type 0
Numbered i [] = Unit
Numbered i ((j, work) ∷ rest) =
    (j ≡ i)
    × ((x : Run) → IsSame x (work x))
    × ((x : Run) → ShowsBelow i x → Proves i (work x))
    × Numbered (suc i) rest

pub works-Numbered : (server : Server) → Numbered 0 (works server)
works-Numbered server = (
  refl,
  reserve_stage-IsSame server,
  reserve_stage-Proves server,
  (
    refl,
    accept_stage-IsSame server,
    accept_stage-Proves server,
    (
      refl,
      retry_stage-IsSame server,
      retry_stage-Proves server,
      (
        refl,
        reconcile_stage-IsSame server,
        reconcile_stage-Proves server,
        (
          refl,
          correct_stage-IsSame server,
          correct_stage-Proves server,
          (refl, verify_stage-IsSame server, verify_stage-Proves server, tt),
        ),
      ),
    ),
  ),
)

and_then-Proven :
    (i : ℕ) (o : Outcome) (rest : Run → Outcome)
    → Stands i o
    → ((q : Run) → At (suc i) q → Proven (rest q))
    → Proven (and_then o rest)
and_then-Proven i (q, none) rest h next = next q h
and_then-Proven i (q, some message) rest h next = At-IsProven i q h

steps-Proven :
    (list : List (ℕ × (Run → Outcome))) (i k : ℕ) (r : Run)
    → i ≤ k
    → i + length list ≡ 6
    → At k r
    → Numbered i list
    → Proven (steps list r)
unfolding steps
steps-Proven [] i k r l e a n =
    let full : k ≡ 6 = omega (arith, a.at_most) in
    (a.in_order ∙ ap (marks 6) full, rw full at a.evidence)
steps-Proven ((j, work) ∷ list) i k r l e a (number, same, p, n) = elim (dec_lt i k) [
  | yes before ↦
      rw (number, step_before i k work r before a, steps)
        (steps-Proven list (suc i) k r (omega arith) (omega arith) a n)
  | no after ↦
      let here : k ≡ i = omega arith in
      let at : At i r = rw (sym here) a in
      rw number (
        and_then-Proven i (step i work r) (λ q. steps list q)
          (step-Stands i work r (omega arith) at same p)
          (λ q at_next. steps-Proven list (suc i) (suc i) q (omega arith) (omega arith) at_next n))
]

pub stages-Proven : (server : Server) (r : Run) → IsProven r → Proven (stages server r)
unfolding stages
stages-Proven server r p =
    steps-Proven (works server) 0 p.verified r (omega arith) refl
      (record { at_most = p.at_most; in_order = p.in_order; evidence = p.evidence })
      (works-Numbered server)

-- A run that is there stands so.
abbrev pub IsSound : Option Run → Type 0
IsSound none = Unit
IsSound (some q) = IsProven q

-- What an execution ends with: a sound run and an error, or a run with all its evidence.
abbrev pub Ends : Option Run × Option String → Type 0
Ends (run, some message) = IsSound run
Ends (none, none) = ⊥
Ends (some q, none) = (q.done ≡ marks 6 6) × ShowsBelow 6 q

abbrev pub Ready : Result Run → Type 0
Ready (ok r) = IsProven r
Ready (thrown message status) = Unit

planned-Ready :
    (fresh : Result Snapshot) (wanted : String) (uuid : ℕ → String)
    → Ready (planned fresh wanted uuid)
unfolding planned
planned-Ready (thrown message status) wanted uuid = tt
planned-Ready (ok s) wanted uuid = elim (Option-cases (find (can_run wanted) s.campaigns)) [
  | inl nothing ↦ rw (nothing, planned) tt
  | inr (c, e) ↦ elim (List-cases s.screens) [
    | inl bare ↦ rw (e, bare, planned) tt
    | inr (screen, rest, f) ↦
        rw (e, f, planned)
          (record { verified = 0; at_most = omega arith; in_order = refl; evidence = tt })
  ]
]

pub prepared-Ready :
    (fresh : Result Snapshot) (wanted : String) (uuid : ℕ → String) (run : Option Run)
    → IsSound run
    → Ready (prepared fresh wanted uuid run)
unfolding prepared
prepared-Ready fresh wanted uuid none h = planned-Ready fresh wanted uuid
prepared-Ready fresh wanted uuid (some r) h = elim (Bool-cases (all (λ d. d) r.done)) [
  | inl finished ↦ rw finished (planned-Ready fresh wanted uuid)
  | inr unfinished ↦ rw unfinished h
]

Proven-Ends : (o : Outcome) → Proven o → Ends (some o.0, o.1)
Proven-Ends (q, none) p = p
Proven-Ends (q, some message) p = p

execute_from :
    (c : Click) (run : Option Run) (x : Result Run)
    → prepared c.fresh c.wanted c.uuid run ≡ x
    → Ready x
    → IsSound run
    → Ends (execute c.server c.fresh c.wanted c.uuid run)
unfolding execute
execute_from c run (ok r) e ready h =
    rw (e, execute) (Proven-Ends (stages c.server r) (stages-Proven c.server r ready))
execute_from c run (thrown message status) e ready h = rw (e, execute) h

pub execute-Ends :
    (c : Click) (run : Option Run)
    → IsSound run
    → Ends (execute c.server c.fresh c.wanted c.uuid run)
execute-Ends c run h =
    execute_from c run (prepared c.fresh c.wanted c.uuid run) refl
      (prepared-Ready c.fresh c.wanted c.uuid run h) h

pub Ends-IsSound : (o : Option Run × Option String) → Ends o → IsSound o.0
Ends-IsSound (run, some message) h = h
Ends-IsSound (none, none) h = absurd h
Ends-IsSound (some q, none) h = record {
  verified = 6;
  at_most = omega arith;
  in_order = h.0;
  evidence = h.1;
}

execute_all-IsSound :
    (clicks : List Click) (run : Option Run) → IsSound run → IsSound (execute_all clicks run)
unfolding execute_all
execute_all-IsSound [] run h = h
execute_all-IsSound (c ∷ clicks) run h =
    execute_all-IsSound clicks _ (Ends-IsSound _ (execute-Ends c run h))

-- However many executions are started one after the other, whatever the service answers to each
-- and wherever each stops: the run that is left has verified its stages in order, each with its
-- evidence on record (the envelopes of the plan's events, both answers of partial success with the
-- same identities, one settlement and one duplicate, the quarantine with its held budget, and the
-- final decisions); and an execution that reports no error has verified all six.
pub execute_all-Ends :
    (clicks : List Click) (last : Click)
    → Ends (execute last.server last.fresh last.wanted last.uuid (execute_all clicks none))
execute_all-Ends clicks last =
    execute-Ends last (execute_all clicks none) (execute_all-IsSound clicks none tt)
