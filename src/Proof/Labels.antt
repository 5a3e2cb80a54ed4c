-- ===== src/Proof/Labels.antt =====
-- The proof's page says how far its run has come, and its button what a click does.
use afterglow.Prelude.{
  ◌≡◌, refl, ◌≤◌, ℕ, zero, suc, true, false, List, [], ◌∷◌, String, some, arith, all, ◌==◌, ◌≢◌,
  if◌then◌else◌,
}
use afterglow.Api.{Snapshot}
use afterglow.Console.Request.{Result, ok}
use afterglow.Proof.{Run}
use afterglow.Proof.Stages.{prepared, planned}
use afterglow.Proof.OnRecord.{marks, ShowsBelow}
use afterglow.Proof.Page.{
  ProofPage, all_verified, Card, complete, executing, pending, card, cards, completed, run_label,
  run_again, resume_run, facts, ring, all_checks, verifiable, at_stage,
}

-- The first `k` of `n` cards are complete, and the others stand as given.
abbrev pub standing : ℕ → ℕ → Card → List Card
standing zero k next = []
standing (suc n) (suc k) next = complete ∷ standing n k next
standing (suc n) zero next = next ∷ standing n zero pending

-- What holds of each number of stages holds of those up to six.
up_to_six : (P : ℕ → Type 0) → P 0 → P 1 → P 2 → P 3 → P 4 → P 5 → P 6 → (k : ℕ) → k ≤ 6 → P k
up_to_six P p0 p1 p2 p3 p4 p5 p6 zero h = p0
up_to_six P p0 p1 p2 p3 p4 p5 p6 (suc zero) h = p1
up_to_six P p0 p1 p2 p3 p4 p5 p6 (suc (suc zero)) h = p2
up_to_six P p0 p1 p2 p3 p4 p5 p6 (suc (suc (suc zero))) h = p3
up_to_six P p0 p1 p2 p3 p4 p5 p6 (suc (suc (suc (suc zero)))) h = p4
up_to_six P p0 p1 p2 p3 p4 p5 p6 (suc (suc (suc (suc (suc zero))))) h = p5
up_to_six P p0 p1 p2 p3 p4 p5 p6 (suc (suc (suc (suc (suc (suc zero)))))) h = p6
up_to_six P p0 p1 p2 p3 p4 p5 p6 (suc (suc (suc (suc (suc (suc (suc k))))))) h =
    absurd (omega arith)

abbrev pub of_marks : ℕ → Run → Run
of_marks k r = record r { done = marks 6 k }

-- An idle page with a run of `k` verified stages.
abbrev pub idle_page : ℕ → Run → ProofPage → ProofPage
idle_page k r p = record p { run = some (of_marks k r); running = false }

idle_cards :
    (r : Run) (p : ProofPage) (k : ℕ) → k ≤ 6 → cards (idle_page k r p) ≡ standing 6 k pending
unfolding cards card
idle_cards r p =
    up_to_six (λ k. cards (idle_page k r p) ≡ standing 6 k pending) refl refl refl refl refl refl
      refl

pub count_marks : (r : Run) (k : ℕ) → k ≤ 6 → completed (some (of_marks k r)) ≡ k
unfolding completed
count_marks r =
    up_to_six (λ k. completed (some (of_marks k r)) ≡ k) refl refl refl refl refl refl refl

all-marks : (k : ℕ) → k ≤ 6 → all (λ d. d) (marks 6 k) ≡ (k == 6)
all-marks = up_to_six (λ k. all (λ d. d) (marks 6 k) ≡ (k == 6)) refl refl refl refl refl refl refl

stage_cards :
    (r : Run) (p : ProofPage) (k : ℕ)
    → k ≤ 6
    → cards (at_stage (of_marks k r) k p) ≡ standing 6 k executing
unfolding cards card
stage_cards r p =
    up_to_six (λ k. cards (at_stage (of_marks k r) k p) ≡ standing 6 k executing) refl refl refl
      refl refl refl refl

-- What the page says of a run, and what the next click does with it.
pub record Tells (p : ProofPage) (r : Run) (k : ℕ) : Type 0 where
  pub at_most : k ≤ 6
  pub drawn : cards p ≡ standing 6 k pending
  pub count : completed p.run ≡ k
  pub evidence : ShowsBelow k r
  pub begins : cards (at_stage r k p) ≡ standing 6 k executing
  pub resumes :
      k ≢ 6
      → (run_label p ≡ resume_run)
        × (ring p ≡ verifiable)
        × ((facts p).two_cents ≡ false)
        × ((fresh : Result Snapshot) (wanted : String) (uuid : ℕ → String)
            → prepared fresh wanted uuid p.run ≡ ok r)
  pub starts_over :
      k ≡ 6
      → (run_label p ≡ run_again)
        × (ring p ≡ all_checks)
        × ((facts p).two_cents ≡ true)
        × ((fresh : Result Snapshot) (wanted : String) (uuid : ℕ → String)
            → prepared fresh wanted uuid p.run ≡ planned fresh wanted uuid)
  pub verified : p.message ≡ all_verified → k ≡ 6

label_of :
    (r : Run) (p : ProofPage) (k : ℕ)
    → k ≤ 6
    → run_label (idle_page k r p) ≡ (if k == 6 then run_again else resume_run)
unfolding run_label
label_of r p k h = rw (count_marks r k h) refl

ring_of :
    (r : Run) (p : ProofPage) (k : ℕ)
    → k ≤ 6
    → ring (idle_page k r p) ≡ (if k == 6 then all_checks else verifiable)
unfolding ring
ring_of r p k h = rw (count_marks r k h) refl

two_cents_of :
    (r : Run) (p : ProofPage) (k : ℕ) → k ≤ 6 → (facts (idle_page k r p)).two_cents ≡ (k == 6)
unfolding facts
two_cents_of r p k h = rw (count_marks r k h) refl

prepared_of :
    (r : Run) (k : ℕ)
    → k ≤ 6
    → (fresh : Result Snapshot) (wanted : String) (uuid : ℕ → String)
    → prepared fresh wanted uuid (some (of_marks k r))
      ≡ (if k == 6 then planned fresh wanted uuid else ok (of_marks k r))
unfolding prepared
prepared_of r k h fresh wanted uuid = rw (all-marks k h) refl

pub tells :
    (p : ProofPage) (r : Run) (k : ℕ)
    → k ≤ 6
    → ShowsBelow k (of_marks k r)
    → (p.message ≡ all_verified → k ≡ 6)
    → Tells (idle_page k r p) (of_marks k r) k
tells p r k h shows all_six =
    let label = label_of r p k h in
    let goes_on = prepared_of r k h in
    let word = ring_of r p k h in
    let price = two_cents_of r p k h in
    record {
      at_most = h;
      drawn = idle_cards r p k h;
      count = count_marks r k h;
      evidence = shows;
      begins = stage_cards r (idle_page k r p) k h;
      resumes = λ n.
          let unfinished : (k == 6) ≡ false = ground arith in
          (
            rw unfinished at label,
            rw unfinished at word,
            rw unfinished at price,
            rw unfinished at goes_on,
          );
      starts_over = λ e.
          let finished : (k == 6) ≡ true = ground arith in
          (rw finished at label, rw finished at word, rw finished at price, rw finished at goes_on);
      verified = all_six;
    }
