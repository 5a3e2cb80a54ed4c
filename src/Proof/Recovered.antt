-- ===== src/Proof/Recovered.antt =====
-- What the tab's storage holds of the proof can always be resumed.
use afterglow.Prelude.{
  ◌≡◌, refl, ap, ◌∙◌, ℕ, zero, suc, Bool, true, false, List, [], ◌∷◌, ◌++◌, Option, none, some,
  arith, All, All-append, all, length, take, if◌then◌else◌, ◌==◌, Bool-cases, inl, inr,
}
use mathlib.Core.Path.{subst, subst⁻¹}
use afterglow.Console.Request.{Result, ok, thrown}
use afterglow.Proof.{Run}
use afterglow.Proof.Stages.{works, steps, stages, prepared, Click}
use afterglow.Proof.OnRecord.{marks, IsProven}
use afterglow.Proof.Resume.{IsResumed, prepared_unfinished}
use afterglow.Proof.Progress.{
  At, IsSound, Ready, prepared-Ready, execute-Ends, Ends-IsSound, works-Numbered,
}
use afterglow.Proof.Storage.{
  steps_saves, saves_from, saved_failure, saved_run, plans, execute_saves, stored_after, restore,
  Tab, Event, happen, happen_all, finished, interrupted, reloaded, cleared,
}
use afterglow.Proof.Written.{writes, steps-Leaves}
use afterglow.Proof.Saved.{IsSaved, same-IsResumed, stages_saves-IsSaved}

-- What holds of the storage before, and would hold of it after each save.
stored_after-holds :
    (Q : Option Run → Type 0) (through : List Bool) (saves : List Run) (old : Option Run)
    → All (λ q. Q (some q)) saves
    → Q old
    → Q (stored_after through saves old)
unfolding stored_after
stored_after-holds Q [] saves old h k = k
stored_after-holds Q (true ∷ through) [] old h k = k
stored_after-holds Q (false ∷ through) [] old h k = k
stored_after-holds Q (true ∷ through) (x ∷ saves) old (here, h) k =
    stored_after-holds Q through saves (some x) h here
stored_after-holds Q (false ∷ through) (x ∷ saves) old (here, h) k =
    stored_after-holds Q through saves old h k

All-weaken :
    {P : Run → Type 0} {Q : Run → Type 0} (list : List Run)
    → ((q : Run) → P q → Q q)
    → All P list
    → All Q list
All-weaken [] f h = tt
All-weaken (x ∷ list) f (p, h) = (f x p, All-weaken list f h)

saved_run-IsProven : (run : Option Run) → IsSound run → All IsProven (saved_run run)
saved_run-IsProven none h = tt
saved_run-IsProven (some r) h = (h, tt)

plan_saved : (b : Bool) (r : Run) → IsProven r → All IsProven (if b then r ∷ [] else [])
plan_saved true r h = (h, tt)
plan_saved false r h = tt

saves_from-IsProven :
    (c : Click) (run : Option Run) (x : Result Run)
    → Ready x
    → IsSound run
    → All IsProven (saves_from c run x)
unfolding saves_from
saves_from-IsProven c run (ok r) ready h =
    All-append IsProven (if plans run then r ∷ [] else []) _ (plan_saved (plans run) r ready) (
      All-weaken (steps_saves (works c.server) r ++ saved_failure (stages c.server r)) (λ q w. w.0)
        (stages_saves-IsSaved c r ready))
saves_from-IsProven c run (thrown message status) ready h = saved_run-IsProven run h

execute_saves-IsProven :
    (c : Click) (run : Option Run) → IsSound run → All IsProven (execute_saves c run)
unfolding execute_saves
execute_saves-IsProven c run h =
    saves_from-IsProven c run (prepared c.fresh c.wanted c.uuid run)
      (prepared-Ready c.fresh c.wanted c.uuid run h) h

-- The run of the page and the one in its storage are sound.
record IsSafe (t : Tab) : Type 0 where
  run : IsSound t.run
  stored : IsSound t.stored

restore-IsSound : (o : Option Run) → IsSound o → IsSound (restore o)
unfolding restore
restore-IsSound none h = tt
restore-IsSound (some r) h = elim (Bool-cases (length r.done == 6)) [
  | inl whole ↦ rw whole h
  | inr part ↦ rw part tt
]

kept-IsSound :
    (c : Click) (through : List Bool) (t : Tab)
    → IsSafe t
    → IsSound (stored_after through (execute_saves c t.run) t.stored)
kept-IsSound c through t h =
    stored_after-holds IsSound through (execute_saves c t.run) t.stored
      (execute_saves-IsProven c t.run h.run) h.stored

happen-IsSafe : (e : Event) (t : Tab) → IsSafe t → IsSafe (happen e t)
unfolding happen
happen-IsSafe (finished c through) t h = record {
  run = Ends-IsSound _ (execute-Ends c t.run h.run);
  stored = kept-IsSound c through t h;
}
happen-IsSafe (interrupted c through) t h = record {
  run = restore-IsSound _ (kept-IsSound c through t h);
  stored = kept-IsSound c through t h;
}
happen-IsSafe reloaded t h = record { run = restore-IsSound t.stored h.stored; stored = h.stored }
happen-IsSafe cleared t h = record { run = tt; stored = tt }

happen_all-IsSafe : (events : List Event) (t : Tab) → IsSafe t → IsSafe (happen_all events t)
unfolding happen_all
happen_all-IsSafe [] t h = h
happen_all-IsSafe (e ∷ events) t h = happen_all-IsSafe events (happen e t) (happen-IsSafe e t h)

-- What a page that was reloaded goes on with, where the run `r` was executed before.
abbrev pub GoesOn : Run → Option Run → Type 0
GoesOn r none = ⊥
GoesOn r (some q) = IsProven q × IsResumed r q

length-marks : (n k : ℕ) → length (marks n k) ≡ n
length-marks zero k = refl
length-marks (suc n) zero = ap suc (length-marks n zero)
length-marks (suc n) (suc k) = ap suc (length-marks n k)

restore-GoesOn : (r : Run) (o : Option Run) → GoesOn r o → GoesOn r (restore o)
unfolding restore
restore-GoesOn r none h = absurd h
restore-GoesOn r (some q) (proven, resumed) =
    let whole =
      ap (λ flags. length flags == 6) proven.in_order
      ∙ ap (λ n. n == 6) (length-marks 6 proven.verified) in
    rw whole (proven, resumed)

no_plan-IsSaved :
    (c : Click) (r : Run)
    → IsProven r
    → all (λ d. d) r.done ≡ false
    → All (IsSaved r) (saves_from c (some r) (ok r))
unfolding saves_from
no_plan-IsSaved c r h unfinished = rw unfinished (stages_saves-IsSaved c r h)

unfinished_saves :
    (c : Click) (r : Run)
    → IsProven r
    → all (λ d. d) r.done ≡ false
    → All (λ q. GoesOn r (some q)) (execute_saves c (some r))
unfolding execute_saves
unfinished_saves c r h unfinished =
    subst⁻¹ (λ x. All (IsSaved r) (saves_from c (some r) x))
      (prepared_unfinished c.fresh c.wanted c.uuid r unfinished) (no_plan-IsSaved c r h unfinished)

-- The tab as it is opened.
abbrev pub fresh_tab : Tab
fresh_tab = record { run = none; stored = none }

interrupted_tab :
    (c : Click) (through : List Bool) (r : Run)
    → IsProven r
    → all (λ d. d) r.done ≡ false
    → GoesOn r (happen (interrupted c through) (record { run = some r; stored = some r })).run
unfolding happen
interrupted_tab c through r h unfinished = restore-GoesOn r _ (
    stored_after-holds (GoesOn r) through (execute_saves c (some r)) (some r)
      (unfinished_saves c r h unfinished) (h, same-IsResumed r))

happen_all-append :
    (events : List Event) (e : Event) (t : Tab)
    → happen_all (events ++ (e ∷ [])) t ≡ happen e (happen_all events t)
unfolding happen_all
happen_all-append [] e t = refl
happen_all-append (d ∷ events) e t = happen_all-append events e (happen d t)

same_tab :
    (t : Tab) (r : Run)
    → t.run ≡ some r
    → t.stored ≡ some r
    → t ≡ record { run = some r; stored = some r }
same_tab t r here there i = record { run = here i; stored = there i }

-- What the first writes leave in the storage, and what a page that is left then goes on with.
written :
    (c : Click) (r q : Run) (n : ℕ)
    → IsProven r
    → all (λ d. d) r.done ≡ false
    → steps (take n (works c.server)) r ≡ (q, none)
    → stored_after (writes n r.done) (saves_from c (some r) (ok r)) (some r) ≡ some q
unfolding saves_from
written c r q n h unfinished e =
    let tail = saved_failure (stages c.server r) in
    let begun : At h.verified r = record {
      at_most = h.at_most;
      in_order = h.in_order;
      evidence = h.evidence;
    } in
    let left =
      steps-Leaves n (works c.server) 0 h.verified tail r q refl
        (subst (λ k. At k r) (omega arith) begun) (works-Numbered c.server) e in
    rw unfinished (
      subst⁻¹
        (λ flags.
          stored_after (writes n flags) (steps_saves (works c.server) r ++ tail) (some r) ≡ some q)
        h.in_order left)

kept_whole : (r q : Run) → GoesOn r (some q) → restore (some q) ≡ some q
unfolding restore
kept_whole r q (proven, resumed) =
    rw (ap length proven.in_order ∙ length-marks 6 proven.verified) refl

written_tab :
    (c : Click) (r q : Run) (n : ℕ)
    → IsProven r
    → all (λ d. d) r.done ≡ false
    → steps (take n (works c.server)) r ≡ (q, none)
    → (happen (interrupted c (writes n r.done)) (record { run = some r; stored = some r })).run
      ≡ some q
unfolding happen execute_saves
written_tab c r q n h unfinished e =
    let kept : stored_after (writes n r.done) (execute_saves c (some r)) (some r) ≡ some q =
      subst⁻¹ (λ x. stored_after (writes n r.done) (saves_from c (some r) x) (some r) ≡ some q)
        (prepared_unfinished c.fresh c.wanted c.uuid r unfinished)
        (written c r q n h unfinished e) in
    let goes : GoesOn r (some q) = subst (GoesOn r) kept (
      stored_after-holds (GoesOn r) (writes n r.done) (execute_saves c (some r)) (some r)
        (unfinished_saves c r h unfinished) (h, same-IsResumed r)) in
    ap restore kept ∙ kept_whole r q goes

-- After any executions, reloads in their middle, reloads between them and resets of the demo, with
-- any writes to the storage lost: where an unfinished run is on the page and in the storage, and
-- the page is reloaded at any moment of its next execution, the page goes on with a run that has
-- the same campaign, screen, keys and events, no stage of which is unverified that was verified
-- before, and whose verified stages are in order, each with its evidence on record. And where the
-- first `n` stages of that execution came to their end and gave the run `q`, and one write came
-- through for each of them that was not verified before, the page goes on with `q` itself.
pub interrupted-GoesOn :
    (events : List Event) (c : Click) (through : List Bool) (r q : Run) (n : ℕ)
    → (happen_all events fresh_tab).run ≡ some r
    → (happen_all events fresh_tab).stored ≡ some r
    → all (λ d. d) r.done ≡ false
    → steps (take n (works c.server)) r ≡ (q, none)
    → GoesOn r (happen_all (events ++ (interrupted c through ∷ [])) fresh_tab).run
      × ((happen_all (events ++ (interrupted c (writes n r.done) ∷ [])) fresh_tab).run ≡ some q)
interrupted-GoesOn events c through r q n here there unfinished e =
    let safe = happen_all-IsSafe events fresh_tab (record { run = tt; stored = tt }) in
    let proven : IsProven r = subst IsSound here safe.run in
    let same = same_tab (happen_all events fresh_tab) r here there in
    (
      subst⁻¹ (λ t. GoesOn r t.run) (happen_all-append events (interrupted c through) fresh_tab)
          (subst⁻¹ (λ t. GoesOn r (happen (interrupted c through) t).run) same
            (interrupted_tab c through r proven unfinished)),
      subst⁻¹ (λ t. t.run ≡ some q)
          (happen_all-append events (interrupted c (writes n r.done)) fresh_tab)
          (subst⁻¹ (λ t. (happen (interrupted c (writes n r.done)) t).run ≡ some q) same
            (written_tab c r q n proven unfinished e)),
    )
