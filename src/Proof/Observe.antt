-- ===== src/Proof/Observe.antt =====
-- The loop of `observe` in proof.js, with its clock: it reads every 350 ms until the decisions are
-- final or twenty seconds have passed.
use afterglow.Prelude.{
  ◌≡◌, refl, ℕ, zero, suc, ◌+◌, ◌*◌, ◌≤◌, Bool, true, false, List, [], ◌∷◌, Option, none, some, ltb,
  arith, if◌then◌else◌, Bool-cases, inl, inr,
}
use afterglow.Console.Request.{Result, ok, thrown}
use afterglow.Proof.{Evidence, Polls, is_terminal, observe_from, observe}

-- What the rounds of the loop meet: what each read gives, and the time when it is there.
pub record Reads : Type 0 where
  pub rows : ℕ → Result (List Evidence)
  pub clock : ℕ → ℕ

-- What one round does with its read: `late` is the test on the deadline, `rest` the next rounds.
abbrev observe_round :
    Result (List Evidence)
    → (late : Bool) → (rest : Option (Result (List Evidence))) → Option (Result (List Evidence))
observe_round (thrown message status) late rest = some (thrown message status)
observe_round (ok rows) late rest =
    if is_terminal rows
    then some (ok rows)
    else if late
    then some (
        thrown
          "Worker has not completed within 20 seconds. Check the Failure lab and connection, then resume this run."
          none)
    else rest

-- The loop from round `n` on, with fuel.
unfoldable pub observe_loop : ℕ → ℕ → ℕ → Reads → Option (Result (List Evidence))
observe_loop zero n deadline w = none
observe_loop (suc fuel) n deadline w =
    let rest = observe_loop fuel (n + 1) deadline w in
    observe_round (w.rows n) (ltb deadline (w.clock n)) rest

-- The reads up to the deadline, and the first one after it.
unfoldable pub polls_from : ℕ → ℕ → ℕ → Reads → Polls
polls_from zero n deadline w = record { timely = []; late = w.rows n }
polls_from (suc fuel) n deadline w =
    let rest = polls_from fuel (n + 1) deadline w in
    if ltb deadline (w.clock n)
    then record { timely = []; late = w.rows n }
    else record { timely = w.rows n ∷ rest.timely; late = rest.late }

-- What is relied on of `setTimeout` and the clock: a round takes at least its 350 ms.
pub record IsTicking (start : ℕ) (w : Reads) : Type 0 where
  pub begins : start ≤ w.clock 0
  pub ticks : (n : ℕ) → w.clock n + 350 ≤ w.clock (n + 1)

clock-ge : (start : ℕ) (w : Reads) → IsTicking start w → (n : ℕ) → start + 350 * n ≤ w.clock n
clock-ge start w t zero = omega (arith, t.begins)
clock-ge start w t (suc n) =
    let later : w.clock n + 350 ≤ w.clock (suc n) = grind (arith, t.ticks n) in
    omega (arith, clock-ge start w t n)

observe_round_lem :
    (x : Result (List Evidence)) (late : Bool) (rest : Option (Result (List Evidence))) (p : Polls)
    → (late ≡ false → rest ≡ some (observe p))
    → observe_round x late rest
      ≡ some (
          observe (
            if late
            then record { timely = []; late = x }
            else record { timely = x ∷ p.timely; late = p.late }))
unfolding observe
observe_round_lem (thrown message status) true rest p h = refl
observe_round_lem (thrown message status) false rest p h = refl
observe_round_lem (ok rows) true rest p h = elim (Bool-cases (is_terminal rows)) [
  | inl final ↦ rw (final, observe_from) refl
  | inr open' ↦ rw (open', observe_from) refl
]
observe_round_lem (ok rows) false rest p h = elim (Bool-cases (is_terminal rows)) [
  | inl final ↦ rw (final, observe_from) refl
  | inr open' ↦ rw (open', observe_from) (h refl)
]

observe_loop-ends :
    (fuel n start : ℕ) (w : Reads)
    → IsTicking start w
    → n ≤ 58
    → 59 ≤ n + fuel
    → observe_loop fuel n (start + 20000) w ≡ some (observe (polls_from fuel n (start + 20000) w))
unfolding observe_loop polls_from
observe_loop-ends zero n start w t few enough = absurd (omega arith)
observe_loop-ends (suc fuel) n start w t few enough =
    observe_round_lem (w.rows n) (ltb (start + 20000) (w.clock n))
      (observe_loop fuel (n + 1) (start + 20000) w) (polls_from fuel (n + 1) (start + 20000) w)
      (λ early.
        let soon : w.clock n ≤ start + 20000 = ground arith in
        let first_rounds : n + 1 ≤ 58 = omega (arith, clock-ge start w t n) in
        observe_loop-ends fuel (n + 1) start w t first_rounds (omega arith))

-- Under a clock on which each round takes at least 350 ms, the loop ends within 59 rounds, and its
-- result is that of the reads up to its deadline and the first one after it, whatever they give.
pub observe_loop-observe :
    (start : ℕ) (w : Reads)
    → IsTicking start w
    → observe_loop 59 0 (start + 20000) w ≡ some (observe (polls_from 59 0 (start + 20000) w))
observe_loop-observe start w t = observe_loop-ends 59 0 start w t (omega arith) (omega arith)
