-- ===== src/Actions/Busy.antt =====
-- One action at a time, beside a refresh that stays one at a time.
use afterglow.Prelude.{◌≡◌, refl, ◌+◌, true, false, List, [], ◌∷◌, ◌++◌, arith, if◌then◌else◌}
use afterglow.Console.Refresh.{IsSteady}
use afterglow.Actions.{
  Said, said, Button, Desk, Owner, by_action, by_button, Task, controlling, running, replaying,
  recording, refreshing, click, close_dialog, toast_faded, tell,
}
use afterglow.Actions.Machine.{
  Reply, got_control, got_scenario, got_ok, refresh_over, failed, Fits, resume, World, press,
  answer, background, ledger_event, closed, faded, Reach, here, next, then_refresh, freed,
  control_text,
}
use afterglow.Actions.Clicks.{
  weight, actions, actions-append, IsBusy, step-IsSteady, refresh-IsSteady, Quiet, tell-Quiet,
  click-Starts,
}

-- An answer takes its request from the count, and what it starts is added to it.
abbrev Ends : Task → Desk → Desk × List Task → Type 0
Ends t d o =
    (actions o.1 + (if d.busy then 1 else 0) ≡ weight t + (if o.0.busy then 1 else 0))
    × (IsSteady d.shell → IsSteady o.0.shell)

refreshed-Ends :
    (t : Task) (o : Owner) (d e : Desk)
    → weight t ≡ weight (refreshing o)
    → Quiet d e
    → Ends t d (then_refresh o e)
unfolding then_refresh
refreshed-Ends t by_action d e w (same, shell) =
    (ground arith, λ h. refresh-IsSteady e.shell (rw shell h))
refreshed-Ends t by_button d e w (same, shell) =
    (ground arith, λ h. refresh-IsSteady e.shell (rw shell h))

failed-Ends :
    (t : Task) (o : Owner) (d e : Desk)
    → weight t ≡ weight (refreshing o)
    → Quiet d e
    → (weight t ≡ 1 → d.busy ≡ true)
    → Ends t d (freed o e, [])
failed-Ends t by_action d e w (same, shell) some_busy =
    let set = some_busy w in (ground arith, λ h. rw shell h)
failed-Ends t by_button d e w (same, shell) some_busy = (ground arith, λ h. rw shell h)

replayed-Quiet : (text : Said) (d : Desk) → Quiet d (tell text false (close_dialog d))
unfolding tell close_dialog
replayed-Quiet text d = (refl, refl)

resume-Ends :
    (t : Task) (reply : Reply) (d : Desk)
    → Fits t reply
    → (weight t ≡ 1 → d.busy ≡ true)
    → Ends t d (resume t reply d)
unfolding resume
resume-Ends (controlling p) (got_control paused) d fit out =
    refreshed-Ends (controlling p) by_action d (tell (control_text paused) false d) refl
      (tell-Quiet (control_text paused) false d)
resume-Ends (running k) (got_scenario message) d fit out =
    refreshed-Ends (running k) by_action d (tell message false d) refl (tell-Quiet message false d)
resume-Ends (replaying id) got_ok d fit out =
    let text = said "Original payload requeued. Validation and charge protection still apply." in
    refreshed-Ends (replaying id) by_button d (tell text false (close_dialog d)) refl
      (replayed-Quiet text d)
resume-Ends (recording r) got_ok d fit out =
    let text = said "Playback receipt accepted durably. The worker will reconcile it." in
    refreshed-Ends (recording r) by_button d (tell text false d) refl (tell-Quiet text false d)
resume-Ends (refreshing by_action) refresh_over d fit out =
    failed-Ends (refreshing by_action) by_action d d refl (refl, refl) out
resume-Ends (refreshing by_button) refresh_over d fit out =
    failed-Ends (refreshing by_button) by_button d d refl (refl, refl) out
resume-Ends (controlling p) (failed message) d fit out =
    failed-Ends (controlling p) by_action d (tell (said message) true d) refl
      (tell-Quiet (said message) true d) out
resume-Ends (running k) (failed message) d fit out =
    failed-Ends (running k) by_action d (tell (said message) true d) refl
      (tell-Quiet (said message) true d) out
resume-Ends (replaying id) (failed message) d fit out =
    failed-Ends (replaying id) by_button d (tell (said message) true d) refl
      (tell-Quiet (said message) true d) out
resume-Ends (recording r) (failed message) d fit out =
    failed-Ends (recording r) by_button d (tell (said message) true d) refl
      (tell-Quiet (said message) true d) out
resume-Ends _ _ d fit out = absurd fit

-- The requests around the one that is answered.
actions-middle :
    (earlier later : List Task) (t : Task)
    → actions (earlier ++ (t ∷ later)) ≡ weight t + actions (earlier ++ later)
actions-middle earlier later t =
    omega (arith, actions-append earlier (t ∷ later), actions-append earlier later)

answer-IsBusy :
    (d : Desk) (earlier later : List Task) (t : Task) (reply : Reply)
    → Fits t reply
    → IsBusy d (earlier ++ (t ∷ later))
    → IsBusy (resume t reply d).0 ((resume t reply d).1 ++ (earlier ++ later))
answer-IsBusy d earlier later t reply fit i =
    let count = actions-middle earlier later t in
    let (ends, steady) =
      resume-Ends t reply d fit (λ one. ground (arith, i.one_at_a_time, count)) in
    record {
      one_at_a_time = ground (
        arith,
        i.one_at_a_time,
        count,
        ends,
        actions-append (resume t reply d).1 (earlier ++ later),
      );
      steady = steady i.steady;
    }

click-IsBusy :
    (b : Button) (d : Desk) (tasks : List Task)
    → IsBusy d tasks
    → IsBusy (click b d).0 ((click b d).1 ++ tasks)
click-IsBusy b d tasks i =
    let (starts, shell) = click-Starts b d in
    record {
      one_at_a_time = ground (arith, i.one_at_a_time, starts, actions-append (click b d).1 tasks);
      steady = rw shell i.steady;
    }

close_dialog-IsBusy :
    (d : Desk) (tasks : List Task) → IsBusy d tasks → IsBusy (close_dialog d) tasks
unfolding close_dialog
close_dialog-IsBusy d tasks i = record { one_at_a_time = i.one_at_a_time; steady = i.steady }

toast_faded-IsBusy : (d : Desk) (tasks : List Task) → IsBusy d tasks → IsBusy (toast_faded d) tasks
unfolding toast_faded
toast_faded-IsBusy d tasks i = record { one_at_a_time = i.one_at_a_time; steady = i.steady }

-- Whatever is clicked, and however the answers, the refreshes and the rest of the page mix: at most
-- one action waits for its request or for the refresh after it, `busy` is set exactly then, so that
-- no outcome leaves the actions blocked, and at most one refresh is out.
pub Reach-IsBusy : {w v : World} → Reach w v → IsBusy w.desk w.tasks → IsBusy v.desk v.tasks
Reach-IsBusy here i = i
Reach-IsBusy (next r (press w b)) i = click-IsBusy b w.desk w.tasks (Reach-IsBusy r i)
Reach-IsBusy (next r (answer w earlier later t reply e fit)) i =
    answer-IsBusy w.desk earlier later t reply fit (rw e at (Reach-IsBusy r i))
Reach-IsBusy (next r (background w e)) i =
    let h = Reach-IsBusy r i in
    record { one_at_a_time = h.one_at_a_time; steady = step-IsSteady e w.desk.shell h.steady }
Reach-IsBusy (next r (ledger_event w e)) i =
    let h = Reach-IsBusy r i in record { one_at_a_time = h.one_at_a_time; steady = h.steady }
Reach-IsBusy (next r (closed w)) i = close_dialog-IsBusy w.desk w.tasks (Reach-IsBusy r i)
Reach-IsBusy (next r (faded w)) i = toast_faded-IsBusy w.desk w.tasks (Reach-IsBusy r i)
