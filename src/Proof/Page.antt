-- ===== src/Proof/Page.antt =====
-- The page of the live proof in internal/console/web/proof.js: its cards, evidence rows, buttons
-- and messages, a click that starts `execute`, and one that inspects a row.
use afterglow.Prelude.{
  ℕ, Bool, true, false, ◌&&◌, ◌||◌, not, List, [], ◌∷◌, String, Option, none, some, ◌==◌,
  if◌then◌else◌, get_elem?, filter, length, is_some,
}
use afterglow.Proof.{Evidence, Run}
use afterglow.Proof.Stages.{Click, execute}

pub data Message : Type 0 where
  silent : Message
  verifying : ℕ → Message  -- the text of the stage
  failed_with : String → Message
  all_verified : Message

-- The closure's variables, and `runtime.demo`.
pub record ProofPage : Type 0 where
  pub run : Option Run
  pub running : Bool
  pub message : Message
  pub demo : Bool

-- The state of a card, as its class and its words say it.
pub data Card : Type 0 where
  complete executing pending : Card

abbrev pub is_done : Option Run → ℕ → Bool
is_done none i = false
is_done (some r) i = elim (get_elem? r.done i) [ none ↦ false | some d ↦ d ]

abbrev pub is_current : Option Run → ℕ → Bool
is_current none i = false
is_current (some r) i = r.current == i

unfoldable pub card : ProofPage → ℕ → Card
card p i =
    if is_done p.run i
    then complete
    else if p.running && is_current p.run i
    then executing
    else pending

unfoldable pub cards : ProofPage → List Card
unfolding card
cards p = card p 0 ∷ card p 1 ∷ card p 2 ∷ card p 3 ∷ card p 4 ∷ card p 5 ∷ []

-- `run?.final || run?.initial || []`
unfoldable pub evidence_rows : Option Run → List Evidence
evidence_rows none = []
evidence_rows (some r) = elim (r.final) [ none ↦ r.initial | some rows ↦ rows ]

-- `run?.steps.filter((s) => s.done).length || 0`
unfoldable pub completed : Option Run → ℕ
completed none = 0
completed (some r) = length (filter (λ d. d) r.done)

pub data Label : Type 0 where
  verifying_live run_again resume_run start_proof : Label

unfoldable pub run_label : ProofPage → Label
unfolding completed
run_label p =
    if p.running
    then verifying_live
    else if completed p.run == 6
    then run_again
    else if is_some p.run
    then resume_run
    else start_proof

-- The word in the ring.
pub data Ring : Type 0 where
  all_checks reading_outcomes verifiable : Ring

unfoldable pub ring : ProofPage → Ring
unfolding completed
ring p =
    if completed p.run == 6 then all_checks else if p.running then reading_outcomes else verifiable

-- `disabled` of the run button and of the export.
unfoldable pub run_disabled : ProofPage → Bool
run_disabled p = p.running || not p.demo

unfoldable pub export_disabled : ProofPage → Bool
export_disabled p = not (is_some p.run)

-- The numbers in the facts: the status of the batch, the replayed receipts, the total.
pub record Facts : Type 0 where
  pub multi_status : Bool
  pub replayed : Option ℕ
  pub two_cents : Bool

unfoldable pub facts : ProofPage → Facts
unfolding completed
facts p = record {
  multi_status = elim (p.run) [ none ↦ false | some r ↦ is_some r.batch ];
  replayed = elim (p.run) [
    | none ↦ none
    | some r ↦ elim (r.replay) [ none ↦ none | some a ↦ some a.replayed ]
  ];
  two_cents = completed p.run == 6;
}

-- `execute` behind its guard, from a click to its `finally`.
abbrev pub message_after : Option String → Message
message_after none = all_verified
message_after (some text) = failed_with text

unfoldable pub run_click : Click → ProofPage → ProofPage
unfolding execute
run_click c p =
    if p.running || not p.demo
    then p
    else let (run, failure) = execute c.server c.fresh c.wanted c.uuid p.run in
      record p { run = run; running = false; message = message_after failure }

-- What is drawn when a stage of the run begins.
abbrev pub at_stage : Run → ℕ → ProofPage → ProofPage
at_stage r i p = record p {
  run = some (record r { current = i });
  running = true;
  message = verifying i;
}

-- A click on "Inspect" in the row of that number: the record that the dialog shows.
unfoldable pub evidence_click : ℕ → ProofPage → Option Evidence
unfolding evidence_rows
evidence_click i p = elim (p.run) [ none ↦ none | some r ↦ get_elem? (evidence_rows (some r)) i ]

-- The page as it loads, where the tab has no saved run, and after clicks.
abbrev pub blank : Bool → ProofPage
blank demo = record { run = none; running = false; message = silent; demo = demo }

unfoldable pub click_all : List Click → ProofPage → ProofPage
unfolding run_click
click_all [] p = p
click_all (c ∷ clicks) p = click_all clicks (run_click c p)
