-- ===== src/Proof/Saved.antt =====
-- Each save of the stages of an execution is a run that can be resumed.
use afterglow.Prelude.{
  ◌≡◌, refl, sym, ap, ◌∙◌, ℕ, suc, ◌+◌, ◌≤◌, List, [], ◌∷◌, ◌++◌, none, some, arith, All,
  All-append, length, get_elem?,
}
use mathlib.Core.Path.{subst⁻¹}
use native.Mathlib.Decide.{dec_lt}
use afterglow.Proof.{Run, Outcome, step}
use afterglow.Proof.Stages.{works, stages, Click}
use afterglow.Proof.OnRecord.{IsProven, Proven}
use afterglow.Proof.Resume.{IsResumed, stages-IsResumed, step-IsResumed, Keeps-refl}
use afterglow.Proof.Progress.{
  At, At-IsProven, Stands, step-Stands, step_before, Numbered, works-Numbered, get_elem?-marks_eq,
  get_elem?-marks_lt, stages-Proven,
}
use afterglow.Proof.Storage.{saved_by, going_on, steps_saves, saved_failure}

-- What is saved of an execution that goes on with the run `r`: the same identities, no verified
-- stage lost, and the evidence for those that are.
abbrev pub IsSaved : Run → Run → Type 0
IsSaved r q = IsProven q × IsResumed r q

pub same-IsResumed : (r : Run) → IsResumed r r
same-IsResumed r = record { same_plan = refl; still_verified = Keeps-refl r.done }

saved_by-IsSaved :
    (i : ℕ) (r : Run) (o : Outcome) → Stands i o → IsResumed r o.0 → All (IsSaved r) (saved_by o)
saved_by-IsSaved i r (q, none) h f = ((At-IsProven (suc i) q h, f), tt)
saved_by-IsSaved i r (q, some message) h f = tt

going_on-IsSaved :
    (i : ℕ) (r : Run) (o : Outcome) (rest : Run → List Run)
    → Stands i o
    → IsResumed r o.0
    → ((q : Run) → At (suc i) q → IsResumed r q → All (IsSaved r) (rest q))
    → All (IsSaved r) (going_on o rest)
going_on-IsSaved i r (q, none) rest h f next = next q h f
going_on-IsSaved i r (q, some message) rest h f next = tt

steps_saves-IsSaved :
    (list : List (ℕ × (Run → Outcome))) (i k : ℕ) (r q : Run)
    → i ≤ k
    → i + length list ≡ 6
    → At k q
    → IsResumed r q
    → Numbered i list
    → All (IsSaved r) (steps_saves list q)
unfolding steps_saves
steps_saves-IsSaved [] i k r q l e a f n = tt
steps_saves-IsSaved ((j, work) ∷ list) i k r q l e a f (number, same, p, n) = elim (dec_lt i k) [
  | yes before ↦
      let passed =
        ap (λ flags. get_elem? flags i) a.in_order ∙ get_elem?-marks_lt 6 k i before a.at_most in
      rw (number, passed, step_before i k work q before a)
        (steps_saves-IsSaved list (suc i) k r q (omega arith) (omega arith) a f n)
  | no after ↦
      let here : k ≡ i = omega arith in
      let at : At i q = rw (sym here) a in
      let still_open =
        ap (λ flags. get_elem? flags i) at.in_order ∙ get_elem?-marks_eq 6 i (omega arith) in
      let stands = step-Stands i work q (omega arith) at same p in
      let resumed = step-IsResumed i work r q same f in
      subst⁻¹ (λ x. All (IsSaved r) (steps_saves ((x, work) ∷ list) q)) number
        (rw still_open (
          All-append (IsSaved r) (saved_by (step i work q)) _
            (saved_by-IsSaved i r (step i work q) stands resumed)
            (going_on-IsSaved i r (step i work q) (λ x. steps_saves list x) stands resumed
              (λ x at_next g.
                steps_saves-IsSaved list (suc i) (suc i) r x (omega arith) (omega arith) at_next g
                  n))))
]

saved_failure-IsSaved :
    (r : Run) (o : Outcome) → Proven o → IsResumed r o.0 → All (IsSaved r) (saved_failure o)
saved_failure-IsSaved r (q, none) p f = tt
saved_failure-IsSaved r (q, some message) p f = ((p, f), tt)

-- All saves of the stages, and of their failure.
pub stages_saves-IsSaved :
    (c : Click) (r : Run)
    → IsProven r
    → All (IsSaved r) (steps_saves (works c.server) r ++ saved_failure (stages c.server r))
stages_saves-IsSaved c r h =
    All-append (IsSaved r) (steps_saves (works c.server) r) _
      (steps_saves-IsSaved (works c.server) 0 h.verified r r (omega arith) refl
        (record { at_most = h.at_most; in_order = h.in_order; evidence = h.evidence })
        (same-IsResumed r) (works-Numbered c.server))
      (saved_failure-IsSaved r (stages c.server r) (stages-Proven c.server r h)
        (stages-IsResumed c.server r))
