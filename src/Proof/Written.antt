-- ===== src/Proof/Written.antt =====
-- What the stages of an execution have written by the time that the page is left.
use afterglow.Prelude.{
  ◌≡◌, refl, sym, ap, ◌∙◌, ℕ, zero, suc, ◌+◌, ◌<◌, Bool, true, false, List, [], ◌∷◌, ◌++◌, none,
  some, arith, length, get_elem?, take, is_some,
}
use mathlib.Core.Bool.{false≢true}
use mathlib.Core.Path.{subst, subst⁻¹}
use afterglow.Proof.{Run, Outcome, and_then, step}
use afterglow.Proof.Stages.{steps}
use afterglow.Proof.OnRecord.{marks}
use afterglow.Proof.Progress.{
  At, Stands, step-Stands, step_before, Numbered, get_elem?-marks_eq, get_elem?-marks_lt,
}
use afterglow.Proof.Storage.{saved_by, going_on, steps_saves, stored_after}

-- One write that came through for each of the first `n` stages that was not verified before.
abbrev pub writes : ℕ → List Bool → List Bool
writes zero flags = []
writes (suc n) [] = []
writes (suc n) (true ∷ flags) = writes n flags
writes (suc n) (false ∷ flags) = true ∷ writes n flags

-- The first `n` stages of the list give the run `q`, and it is what they leave in the storage.
abbrev Leaves : ℕ → List (ℕ × (Run → Outcome)) → List Bool → List Run → Run → Run → Type 0
Leaves n list flags tail r q =
    steps (take n list) r ≡ (q, none)
    → stored_after (writes n flags) (steps_saves list r ++ tail) (some r) ≡ some q

same_run : (r q : Run) → (let o : Outcome = (r, none) in o ≡ (q, none)) → some r ≡ some q
same_run r q e = ap (λ o. some o.0) e

worked-Leaves :
    (o : Outcome) (n : ℕ) (list : List (ℕ × (Run → Outcome))) (flags : List Bool) (tail : List Run)
    (r q : Run)
    → ((x : Run) → o ≡ (x, none) → Leaves n list flags tail x q)
    → and_then o (λ x. steps (take n list) x) ≡ (q, none)
    → stored_after
        (true ∷ writes n flags)
        ((saved_by o ++ going_on o (λ x. steps_saves list x)) ++ tail)
        (some r)
      ≡ some q
unfolding stored_after
worked-Leaves (x, none) n list flags tail r q h e = h x refl e
worked-Leaves (x, some message) n list flags tail r q h e =
    absurd (false≢true (sym (ap (λ o. is_some o.1) e)))

step_now :
    (n : ℕ) (work : Run → Outcome) (list : List (ℕ × (Run → Outcome))) (i : ℕ) (tail : List Run)
    (r q : Run)
    → i < 6
    → At i r
    → ((x : Run) → step i work r ≡ (x, none) → Leaves n list (marks (length list) 0) tail x q)
    → Leaves (suc n) ((i, work) ∷ list) (false ∷ marks (length list) 0) tail r q
unfolding steps steps_saves
step_now n work list i tail r q l a next h =
    let still_open = ap (λ flags. get_elem? flags i) a.in_order ∙ get_elem?-marks_eq 6 i l in
    rw still_open (worked-Leaves (step i work r) n list (marks (length list) 0) tail r q next h)

step_skipped :
    (n : ℕ) (work : Run → Outcome) (list : List (ℕ × (Run → Outcome))) (i k d : ℕ) (tail : List Run)
    (r q : Run)
    → i < k
    → At k r
    → Leaves n list (marks (length list) d) tail r q
    → Leaves (suc n) ((i, work) ∷ list) (true ∷ marks (length list) d) tail r q
unfolding steps steps_saves
step_skipped n work list i k d tail r q l a next h =
    let passed =
      ap (λ flags. get_elem? flags i) a.in_order ∙ get_elem?-marks_lt 6 k i l a.at_most in
    let skip = step_before i k work r l a in rw (passed, skip) (next (rw skip at h))

pub steps-Leaves :
    (n : ℕ) (list : List (ℕ × (Run → Outcome))) (i d : ℕ) (tail : List Run) (r q : Run)
    → i + length list ≡ 6
    → At (i + d) r
    → Numbered i list
    → Leaves n list (marks (length list) d) tail r q
unfolding steps steps_saves stored_after
steps-Leaves zero list i d tail r q e a s = same_run r q
steps-Leaves (suc n) [] i d tail r q e a s = same_run r q
steps-Leaves (suc n) ((j, work) ∷ list) i zero tail r q e a (number, same, p, s) =
    let at : At i r = subst (λ k. At k r) (omega arith) a in
    subst⁻¹ (λ x. Leaves (suc n) ((x, work) ∷ list) (false ∷ marks (length list) 0) tail r q) number
      (step_now n work list i tail r q (omega arith) at (λ x worked.
        steps-Leaves n list (suc i) 0 tail x q (omega arith)
          (subst (λ k. At k x) (omega arith)
            (subst (Stands i) worked (step-Stands i work r (omega arith) at same p)))
          s))
steps-Leaves (suc n) ((j, work) ∷ list) i (suc d) tail r q e a (number, same, p, s) =
    subst⁻¹ (λ x. Leaves (suc n) ((x, work) ∷ list) (true ∷ marks (length list) d) tail r q) number
      (step_skipped n work list i (i + suc d) d tail r q (omega arith) a (
        steps-Leaves n list (suc i) d tail r q (omega arith) (subst (λ k. At k r) (omega arith) a)
          s))
