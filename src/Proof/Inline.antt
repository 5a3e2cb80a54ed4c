-- ===== src/Proof/Inline.antt =====
-- The panel of the proof on other pages, and the clicks on the proof's buttons: `inlineContents`,
-- `updateInline` and the listener of internal/console/web/proof.js, and the button of the overview
-- in internal/console/web/app.js that opens the panel.
use afterglow.Prelude.{
  ℕ, Bool, true, false, ◌&&◌, ◌||◌, not, List, String, Option, none, some, str_eq, if◌then◌else◌,
  all, filter, length, is_some,
}
use afterglow.Proof.{Evidence, Run}
use afterglow.Proof.Stages.{Click}
use afterglow.Proof.Page.{ProofPage, Message, Card, cards, evidence_rows, evidence_click, run_click}

pub data InlineLabel : Type 0 where
  verifying resume_existing run_live : InlineLabel

-- What is shown of a run: its campaign, how many stages are verified, the cards and the rows.
pub record Progress : Type 0 where
  pub campaign : String
  pub verified : ℕ
  pub cards : List Card
  pub evidence : List Evidence

pub record Inline : Type 0 where
  pub selected : Bool  -- whether a new run would use the selected campaign
  pub wanted : String  -- `data-proof-campaign`
  pub disabled : Bool
  pub label : InlineLabel
  pub status : Message
  pub progress : Option Progress  -- with the button to export

abbrev pub all_done : Option Run → Bool
all_done none = false
all_done (some r) = all (λ d. d) r.done

unfoldable pub inline_contents : String → ProofPage → Inline
unfolding cards evidence_rows
inline_contents campaign p = record {
  selected = not (str_eq campaign "");
  wanted = campaign;
  disabled = p.running || not p.demo;
  label =
      if p.running
      then verifying
      else if is_some p.run && not (all_done p.run)
      then resume_existing
      else run_live;
  status = p.message;
  progress = elim (p.run) [
    | none ↦ none
    | some r ↦ some (record {
      campaign = r.plan.campaign;
      verified = length (filter (λ d. d) r.done);
      cards = cards p;
      evidence = evidence_rows p.run;
    })
  ];
}

-- What `updateInline` sets: the panel, where it is on the page, and the assurance page's selector.
unfoldable pub update_inline : Option String → ProofPage → Option Inline × Bool
unfolding inline_contents
update_inline none p = (none, p.running)
update_inline (some campaign) p = (some (inline_contents campaign p), p.running)

-- A click on a button of the proof, with the answers that an execution would get.
pub data ProofClick : Type 0 where
  starting : Click → ProofClick
  exporting : ProofClick
  inspecting : ℕ → ProofClick

-- The page after a click, the run that is written to a file, and the evidence that a dialog shows.
unfoldable pub proof_click : ProofClick → ProofPage → ProofPage × Option Run × Option Evidence
unfolding run_click evidence_click
proof_click (starting c) p = (run_click c p, none, none)
proof_click exporting p = (p, p.run, none)
proof_click (inspecting i) p = (p, none, evidence_click i p)

-- "Run live proof" on the overview: whether the panel is open, and the proof. The panel asks for no
-- campaign, and a click on its button does nothing where that is disabled.
unfoldable pub overview_click : Click → Bool → ProofPage → Bool × ProofPage
unfolding inline_contents run_click
overview_click c open_before p = if not p.demo then (open_before, p) else (
  true,
  if (inline_contents "" p).disabled then p else run_click (record c { wanted = "" }) p,
)
