-- ===== src/Traffic/Refines.antt =====
-- The foot-traffic page keeps to what it promises of its imports.
use afterglow.Prelude.{
  ◌≡◌, sym, ◌≢◌, if_neg, ℕ, Bool, true, false, List, [], ◌∷◌, ◌++◌, String, Option, none, arith,
  Option-cases, Bool-cases, not, is_some, str_eq, ◌&&◌, inl, inr,
}
use mathlib.Core.List.{append-nil}
use afterglow.Traffic.{
  Attempts, Saved, Sample, Sample-discrete, Report, Panel, Owner, alone, by_import, by_empty, Task,
  Attempt, report_read, report_lost,
}
use afterglow.Traffic.Handlers.{put, send_batch, batch_answered}
use afterglow.Traffic.Machine.{
  Command, load, replay, empty, generate, refreshing, choosing, rendering, console_refreshing,
  perform, Reply, Fits, a_report, a_batch, a_result, an_emptied, a_failure, failed, resume, World,
  commanded, replied, Step, command, answer, environment, Reach, here, next,
}
use afterglow.Traffic.Machine
use afterglow.Traffic.Leaves.{Matches, Flags, perform-occupied, Out-occupied, put_self}
use afterglow.Traffic.Exclusive.{IsExclusive, Reach-IsExclusive}
use afterglow.Traffic.Spec.{
  Phase, idle, Updates, Cause, calling, answered, failing, changing, IsOut, Move, ignore, change,
  fetch, generate_feed, resend, nothing_kept, clear, refresh, choose, first_read, no_read, follow,
  fetched, accept, cleared, finish, fail, attempt, confirmed,
}

-- The phase of the page is the request that is out.
abbrev pub phase : List Task → Phase
phase [] = idle
phase (Task.reading k s m o ∷ _) = Phase.reading s o
phase (Task.fetching s ∷ _) = Phase.fetching s
phase (Task.sending s b ∷ _) = Phase.sending s b
phase (Task.clearing s ∷ _) = Phase.clearing s

put_ne : (id x : Sample) (a : Option Attempt) (f : Attempts) → x ≢ id → put id a f x ≡ f x
unfolding put
put_ne id x a f h = if_neg (Sample-discrete id x) (λ e. h (sym e)) a (f x)

put-Updates : (id : Sample) (a : Option Attempt) (f : Attempts) → Updates f id a (put id a f)
put-Updates id a f = record { at = put_self id a f; elsewhere = λ x h. put_ne id x a f h }

-- What one call starts from the idle page, or from the request that was answered.
abbrev Follows : Sample → Cause → Phase → Attempts → Panel × List Task → Type 0
Follows chosen cause p a (q, tasks) = Move chosen cause p a (phase tasks) q.attempts

perform-Follows :
    (c : Command) (p : Panel)
    → Flags p false false false
    → Follows p.selected (calling c) idle p.attempts (perform c p)
unfolding perform send_batch
perform-Follows load p f = simp (f.is_loading, f.is_importing, f.is_emptying) fetch
perform-Follows replay p f =
    simp (f.is_loading, f.is_importing, f.is_emptying)
      (elim (Option-cases (p.attempts p.selected)) [
        | inl nothing ↦ rw nothing (nothing_kept nothing)
        | inr (a, found) ↦ rw found (resend a found (put-Updates p.selected _ p.attempts))
      ])
perform-Follows empty p f = simp (f.is_loading, f.is_importing, f.is_emptying) clear
perform-Follows generate p f = simp (f.is_loading, f.is_importing, f.is_emptying) generate_feed
perform-Follows refreshing p f = simp (f.is_loading, f.is_importing, f.is_emptying) refresh
perform-Follows (choosing id) p f = simp (f.is_loading, f.is_importing, f.is_emptying) choose
perform-Follows rendering p f =
    simp (f.is_loading, f.is_importing, f.is_emptying)
      (elim (Bool-cases (not (is_some p.report) && str_eq p.error "" && true)) [
        | inl go ↦ rw go first_read
        | inr not_yet ↦ rw not_yet no_read
      ])
perform-Follows console_refreshing p f = simp (f.is_loading, f.is_importing, f.is_emptying) follow

report_read-attempts :
    (k : ℕ) (m : Bool) (o : Owner) (r : Report) (p : Panel)
    → (report_read k m o r p).attempts ≡ p.attempts
unfolding report_read
report_read-attempts k m alone r p = ground arith
report_read-attempts k m by_import r p = ground arith
report_read-attempts k m by_empty r p = ground arith

report_lost-attempts :
    (k : ℕ) (o : Owner) (message : String) (p : Panel)
    → (report_lost k o message p).attempts ≡ p.attempts
unfolding report_lost
report_lost-attempts k alone message p = ground arith
report_lost-attempts k by_import message p = ground arith
report_lost-attempts k by_empty message p = ground arith

-- What an answer is a cause for.
abbrev pub caused_by : Reply → Cause
caused_by (failed message) = failing
caused_by reply = answered

resume-Follows :
    {t : Task} {reply : Reply} (p : Panel)
    → Fits t reply
    → Matches p (t ∷ [])
    → Follows p.selected (caused_by reply) (phase (t ∷ [])) p.attempts (resume t reply p)
unfolding resume
resume-Follows p (a_report {k} {m} {o} r own) (f, latest, same) =
    rw (report_read-attempts k m o r p) finish
resume-Follows p (a_batch batch) (f, same) =
    rw same (fetched batch (put-Updates p.selected (attempt batch) p.attempts))
resume-Follows p (a_result {s} {b = batch} replayed inserted) (f, same, kept) =
    rw (same, kept, batch_answered)
      (simp f.is_loading (accept (put-Updates p.selected (confirmed batch) p.attempts)))
resume-Follows p an_emptied (f, same) =
    rw same (simp f.is_loading (cleared (put-Updates p.selected none p.attempts)))
resume-Follows p (a_failure {t = Task.reading k s m o} message) (f, latest, same) =
    rw (report_lost-attempts k o message p) (fail tt)
resume-Follows p (a_failure {t = Task.fetching s} message) h = fail tt
resume-Follows p (a_failure {t = Task.sending s batch} message) h = fail tt
resume-Follows p (a_failure {t = Task.clearing s} message) h = fail tt

phase-IsOut : (t : Task) → IsOut (phase (t ∷ []))
phase-IsOut (Task.reading k s m o) = tt
phase-IsOut (Task.fetching s) = tt
phase-IsOut (Task.sending s batch) = tt
phase-IsOut (Task.clearing s) = tt

commanded-Move :
    (c : Command) (p : Panel) (tasks : List Task)
    → Matches p tasks
    → let v = commanded c (record { panel = p; tasks = tasks }) in
      Move p.selected (calling c) (phase tasks) p.attempts (phase v.tasks) v.panel.attempts
commanded-Move c p [] m = rw append-nil (perform-Follows c p m)
commanded-Move c p (t ∷ []) m =
    rw (perform-occupied c p (Out-occupied p t m)) (ignore (phase-IsOut t))
commanded-Move c p (t ∷ u ∷ ts) m = absurd m

replied-Move :
    (p : Panel) (earlier later : List Task) (t : Task) (reply : Reply)
    → Fits t reply
    → Matches p (earlier ++ (t ∷ later))
    → let v =
        replied earlier t later reply (record { panel = p; tasks = earlier ++ (t ∷ later) }) in
      Move p.selected
        (caused_by reply)
        (phase (earlier ++ (t ∷ later)))
        p.attempts
        (phase v.tasks)
        v.panel.attempts
replied-Move p [] [] t reply fit m = rw append-nil (resume-Follows p fit m)
replied-Move p [] (u ∷ later) t reply fit m = absurd m
replied-Move p (u ∷ []) later t reply fit m = absurd m
replied-Move p (u ∷ v ∷ earlier) later t reply fit m = absurd m

-- What makes a step.
abbrev pub cause : {u v : World} → Step u v → Cause
cause (command w c) = calling c
cause (answer w earlier later t reply e fit) = caused_by reply
cause (environment w active writable) = changing

Step-Move :
    {u v : World} (s : Step u v)
    → IsExclusive u
    → Move u.panel.selected
        (cause s)
        (phase u.tasks)
        u.panel.attempts
        (phase v.tasks)
        v.panel.attempts
Step-Move (command w c) i = commanded-Move c w.panel w.tasks i.matched
Step-Move (answer w earlier later t reply e fit) i =
    rw e (replied-Move w.panel earlier later t reply fit (rw e at i.matched))
Step-Move (environment w active writable) i = change

-- Whatever was clicked and however the network answered before, the next step of the page is the
-- one move of its specification for what causes it. A handler that is called while a request is out
-- changes neither the request nor a batch. On the idle page a load fetches the feed of the chosen
-- sample, the generator the random one, an emptying clears the chosen sample, a choice or a
-- refresh reads a report, a redraw may read one, and a replay sends again the batch that is kept
-- for the chosen sample, or does nothing where none is. A batch that was fetched is kept before it
-- is sent, the answer to a batch confirms the one that was sent, only the answer to an emptying
-- forgets a batch, and no step touches the batch of another sample. A failed request leaves an idle
-- page and all batches as they were.
pub Reach-Moves :
    (selected : Sample) (attempts : Attempts) (saved : Option Saved) (active writable : Bool)
    {u v : World}
    → Reach (Machine.start selected attempts saved active writable) u
    → (s : Step u v)
    → Move u.panel.selected
        (cause s)
        (phase u.tasks)
        u.panel.attempts
        (phase v.tasks)
        v.panel.attempts
Reach-Moves selected attempts saved active writable r s =
    Step-Move s (Reach-IsExclusive selected attempts saved active writable r)
