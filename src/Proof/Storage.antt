-- ===== src/Proof/Storage.antt =====
-- What an execution of the proof writes into the tab's storage (`save` in
-- internal/console/web/proof.js), and what a reload finds there.
use afterglow.Prelude.{
  ℕ, Bool, true, false, List, [], ◌∷◌, ◌++◌, Option, none, some, ◌==◌, if◌then◌else◌, all,
  get_elem?, length,
}
use afterglow.Console.Request.{Result, ok, thrown}
use afterglow.Proof.{Run, Outcome, step}
use afterglow.Proof.Stages.{works, stages, prepared, execute, Click}

-- The end of `step`: what it saves, and the run that the next stage takes.
abbrev pub saved_by : Outcome → List Run
saved_by (q, none) = q ∷ []
saved_by (q, some message) = []

abbrev pub going_on : Outcome → (Run → List Run) → List Run
going_on (q, none) rest = rest q
going_on (q, some message) rest = []

-- The runs that the stages save, in order. A stage that is skipped saves nothing.
unfoldable pub steps_saves : List (ℕ × (Run → Outcome)) → Run → List Run
unfolding step
steps_saves [] r = []
steps_saves ((i, work) ∷ rest) r =
    elim (get_elem? r.done i) [ some true ↦ [] | _ ↦ saved_by (step i work r) ]
    ++ going_on (step i work r) (λ q. steps_saves rest q)

-- The `catch` of `execute`.
abbrev pub saved_failure : Outcome → List Run
saved_failure (q, none) = []
saved_failure (q, some message) = q ∷ []

abbrev pub saved_run : Option Run → List Run
saved_run none = []
saved_run (some r) = r ∷ []

-- Whether `execute` plans a new run, which it saves at once.
abbrev pub plans : Option Run → Bool
plans none = true
plans (some r) = all (λ d. d) r.done

-- The saves of an execution that goes on with the run that was prepared.
unfoldable pub saves_from : Click → Option Run → Result Run → List Run
unfolding stages steps_saves
saves_from c run (thrown message status) = saved_run run
saves_from c run (ok r) =
    (if plans run then r ∷ [] else [])
    ++ (steps_saves (works c.server) r ++ saved_failure (stages c.server r))

unfoldable pub execute_saves : Click → Option Run → List Run
unfolding prepared saves_from
execute_saves c run = saves_from c run (prepared c.fresh c.wanted c.uuid run)

-- What is stored after saves, of which those marked came through. Where the marks end, the page
-- was left.
unfoldable pub stored_after : List Bool → List Run → Option Run → Option Run
stored_after (true ∷ through) (q ∷ saves) old = stored_after through saves (some q)
stored_after (false ∷ through) (q ∷ saves) old = stored_after through saves old
stored_after _ _ old = old

-- The test of the page as it loads, on what `save` wrote.
unfoldable pub restore : Option Run → Option Run
restore none = none
restore (some r) = if length r.done == 6 then some r else none

-- A tab: the run of its page, and what its storage holds.
pub record Tab : Type 0 where
  pub run : Option Run
  pub stored : Option Run

pub data Event : Type 0 where
  finished : Click → (through : List Bool) → Event  -- an execution that came to its end
  interrupted : Click → (through : List Bool) → Event  -- one during which the page was reloaded
  reloaded : Event
  cleared : Event  -- a reset of the demo, which clears the storage and reloads

unfoldable pub happen : Event → Tab → Tab
unfolding execute execute_saves stored_after restore
happen (finished c through) t = record {
  run = (execute c.server c.fresh c.wanted c.uuid t.run).0;
  stored = stored_after through (execute_saves c t.run) t.stored;
}
happen (interrupted c through) t =
    let kept = stored_after through (execute_saves c t.run) t.stored in
    record { run = restore kept; stored = kept }
happen reloaded t = record t { run = restore t.stored }
happen cleared t = record { run = none; stored = none }

unfoldable pub happen_all : List Event → Tab → Tab
unfolding happen
happen_all [] t = t
happen_all (e ∷ events) t = happen_all events (happen e t)
