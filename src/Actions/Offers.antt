-- ===== src/Actions/Offers.antt =====
-- The buttons of the failure lab do what they say, one at a time.
use afterglow.Prelude.{
  ◌≡◌, refl, ap, ◌∙◌, true, false, List, [], ◌∷◌, String, Option, none, some, str_eq, if◌then◌else◌,
  All, Bool-cases, inl, inr,
}
use mathlib.Core.Path.{subst⁻¹}
use afterglow.Api.{Runtime}
use afterglow.Actions.{
  Kind, pause, other, Desk, action, click, scenario, start_scenario, Task, controlling, running,
  wants_pause,
}
use afterglow.Actions.Lab.{LabCard, is_paused, lab_cards, kind_of, sync_actions}

-- What the text of a card's button announces: the scenario of the service, or the dispatcher's
-- state.
abbrev pub announced : String → Option Task
announced text =
    if str_eq text "Send five receipts"
    then some (running "duplicate")
    else if str_eq text "Lose the acknowledgement"
    then some (running "crash")
    else if str_eq text "Send schema v99"
    then some (running "poison")
    else if str_eq text "Inject five failures"
    then some (running "retry")
    else if str_eq text "Resume worker"
    then some (controlling false)
    else if str_eq text "Pause worker"
    then some (controlling true)
    else if str_eq text "Race 32 reservations"
    then some (running "budget-race")
    else none

-- The name that stands above the button of a scenario.
abbrev pub headed : Task → String
headed (running name) =
    if str_eq name "duplicate"
    then "Duplicate delivery"
    else if str_eq name "crash"
    then "Crash after commit"
    else if str_eq name "poison"
    then "Unsupported schema"
    else if str_eq name "retry"
    then "Transient failure"
    else "Concurrent budget pressure"
headed _ = "Worker interruption"

-- A click on the card's button starts what is announced, and then nothing else can be started.
pub record IsOffered (c : LabCard) (after : Desk × List Task) : Type 0 where
  pub task : Task
  pub said : announced c.label ≡ some task
  pub heading : c.name ≡ headed task
  pub started : after.1 ≡ task ∷ []
  pub disabled : (sync_actions after.0).disabled ≡ true
  pub busy : (sync_actions after.0).busy ≡ true
  pub once : (k : Kind) → click (action k) after.0 ≡ (after.0, [])

free : (d : Desk) → (sync_actions d).disabled ≡ false → d.busy ≡ false
unfolding sync_actions
free d h = elim (Bool-cases d.busy) [ inl working ↦ cc (rw working at h) | inr idle ↦ idle ]

working-IsOffered :
    (c : LabCard) (d : Desk) (task : Task)
    → announced c.label ≡ some task
    → c.name ≡ headed task
    → IsOffered c (record d { busy = true }, task ∷ [])
unfolding click scenario sync_actions
working-IsOffered c d task e h = record {
  task = task;
  said = e;
  heading = h;
  started = refl;
  disabled = refl;
  busy = refl;
  once = λ k. refl;
}

click-start : (d : Desk) (k : Kind) → d.busy ≡ false → click (action k) d ≡ start_scenario k d
unfolding click scenario
click-start d k h = simp h refl

module _ (d : Desk) (idle : d.busy ≡ false) (c : LabCard) where
  named-IsOffered :
      (name : String)
      → kind_of c.action ≡ other name
      → announced c.label ≡ some (running name)
      → c.name ≡ headed (running name)
      → IsOffered c (click (action (kind_of c.action)) d)
  unfolding start_scenario
  named-IsOffered name e said head =
      subst⁻¹ (IsOffered c) (ap (λ k. click (action k) d) e ∙ click-start d (other name) idle)
        (working-IsOffered c d (running name) said head)

  pause-IsOffered :
      kind_of c.action ≡ pause
      → announced c.label ≡ some (controlling (wants_pause d.shell.runtime))
      → c.name ≡ "Worker interruption"
      → IsOffered c (click (action (kind_of c.action)) d)
  unfolding start_scenario
  pause-IsOffered e said head =
      subst⁻¹ (IsOffered c) (ap (λ k. click (action k) d) e ∙ click-start d pause idle)
        (working-IsOffered c d (controlling (wants_pause d.shell.runtime)) said head)

pause_label :
    (runtime : Option Runtime)
    → announced (if is_paused runtime then "Resume worker" else "Pause worker")
      ≡ some (controlling (wants_pause runtime))
pause_label none = refl
pause_label (some r) = elim (Bool-cases r.paused) [
  | inl paused ↦ rw paused refl
  | inr runs ↦ rw runs refl
]

-- While the buttons are enabled, a click on the one of any card starts one request, for what its
-- text announces and its card is headed with: the service's scenario of that text, or to pause the dispatcher where it runs and to
-- resume it where it is paused. All the buttons are disabled and marked as busy then, and another
-- click on any of them, should it be delivered, changes nothing.
pub lab_cards-IsOffered :
    (d : Desk)
    → (sync_actions d).disabled ≡ false
    → All (λ c. IsOffered c (click (action (kind_of c.action)) d)) (lab_cards d.shell.runtime)
unfolding lab_cards kind_of
lab_cards-IsOffered d h =
    let idle = free d h in
    (
      named-IsOffered d idle _ "duplicate" refl refl refl,
      (
        named-IsOffered d idle _ "crash" refl refl refl,
        (
          named-IsOffered d idle _ "poison" refl refl refl,
          (
            named-IsOffered d idle _ "retry" refl refl refl,
            (
              pause-IsOffered d idle _ refl (pause_label d.shell.runtime) refl,
              (named-IsOffered d idle _ "budget-race" refl refl refl, tt),
            ),
          ),
        ),
      ),
    )
