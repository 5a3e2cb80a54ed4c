-- ===== src/Proof/Panels.antt =====
-- The panel of the proof and its page say the same, and the panel's button does what it says.
use afterglow.Prelude.{◌↔◌, ◌≡◌, ℕ, false, String, some, is_some}
use afterglow.Api.{Snapshot}
use afterglow.Console.Request.{Result, ok}
use afterglow.Proof.{Run}
use afterglow.Proof.Stages.{prepared, planned}
use afterglow.Proof.Page.{
  ProofPage, Label, verifying_live, run_again, resume_run, start_proof, run_label, run_disabled,
  completed, cards, evidence_rows,
}
use afterglow.Proof.Inline.{InlineLabel, verifying, resume_existing, run_live, Inline}

-- The words of the panel's button for those of the page's.
abbrev pub in_panel : Label → InlineLabel
in_panel verifying_live = verifying
in_panel resume_run = resume_existing
in_panel run_again = run_live
in_panel start_proof = run_live

-- How the panel agrees with the page.
pub record Agrees (campaign : String) (p : ProofPage) (panel : Inline) : Type 0 where
  pub wanted : panel.wanted ≡ campaign
  pub selected : (panel.selected ≡ false) ↔ (campaign ≡ "")
  pub status : panel.status ≡ p.message
  pub enabled : panel.disabled ≡ run_disabled p
  pub words : panel.label ≡ in_panel (run_label p)
  pub shows : is_some panel.progress ≡ is_some p.run
  pub resumes :
      panel.label ≡ resume_existing
      → (r : Run) × (p.run ≡ some r)
        × (panel.progress
            ≡ some (record {
              campaign = r.plan.campaign;
              verified = completed p.run;
              cards = cards p;
              evidence = evidence_rows p.run;
            }))
        × ((fresh : Result Snapshot) (wanted : String) (uuid : ℕ → String)
            → prepared fresh wanted uuid p.run ≡ ok r)
  pub plans :
      panel.label ≡ run_live
      → (fresh : Result Snapshot) (uuid : ℕ → String)
      → prepared fresh panel.wanted uuid p.run ≡ planned fresh campaign uuid
