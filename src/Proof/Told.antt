-- ===== src/Proof/Told.antt =====
-- Between clicks the page of the proof tells how its run stands.
use afterglow.Prelude.{◌≡◌, ℕ, true, false, Option, none, some, ◌≢◌}
use afterglow.Proof.{Run}
use afterglow.Proof.OnRecord.{marks}
use afterglow.Proof.Progress.{IsSound}
use afterglow.Proof.Page.{
  ProofPage, all_verified, pending, cards, run_label, start_proof, export_disabled,
}
use afterglow.Proof.Labels.{standing, Tells}

-- What holds of the page between clicks.
pub record IsIdle (p : ProofPage) : Type 0 where
  pub sound : IsSound p.run
  pub idle : p.running ≡ false
  pub verified : p.message ≡ all_verified → (q : Run) × (p.run ≡ some q) × (q.done ≡ marks 6 6)

-- What the page tells: without a run that none is there, and of a run how far it has come.
abbrev pub IsTold : ProofPage → Option Run → Type 0
IsTold p none =
    (cards p ≡ standing 6 0 pending)
    × (run_label p ≡ start_proof)
    × (export_disabled p ≡ true)
    × (p.message ≢ all_verified)
IsTold p (some r) = (k : ℕ) × Tells p r k
