-- ===== src/Traffic/Settles.antt =====
-- The operations of the foot-traffic page come to an end.
use afterglow.Prelude.{
  ◌≡◌, refl, ap, ◌⊎◌, ℕ, suc, ◌+◌, ◌≤◌, ◌<◌, Bool, false, List, [], ◌∷◌, ◌++◌, String, Option,
  arith, inl, inr,
}
use mathlib.Core.List.{append-nil}
use afterglow.Traffic.{Sample, Attempts, Saved, Panel, Task, occupied}
use afterglow.Traffic.Handlers.{send_batch, batch_answered}
use afterglow.Traffic.Machine
use afterglow.Traffic.Machine.{
  Reply, Fits, a_report, a_batch, a_result, an_emptied, a_failure, resume, World, replied, Step,
  answer, Reach, here, next, failed,
}
use afterglow.Traffic.Leaves.{Matches, Flags}
use afterglow.Traffic.Exclusive.{IsExclusive, Reach-IsExclusive}

-- How many answers an operation still takes at most.
abbrev pub waits : List Task → ℕ
waits [] = 0
waits (Task.reading k s m o ∷ _) = 1
waits (Task.clearing s ∷ _) = 2
waits (Task.sending s b ∷ _) = 2
waits (Task.fetching s ∷ _) = 3

-- A number of answers, one after the other, to requests that are out.
pub data Answers : ℕ → World → World → Type 0 where
  none_yet : {w : World} → Answers 0 w w
  one_more :
      {n : ℕ} {w u : World} (earlier later : List Task) (t : Task) (reply : Reply)
      → Answers n w u
      → u.tasks ≡ earlier ++ (t ∷ later)
      → Fits t reply
      → Answers (suc n) w (replied earlier t later reply u)

resume-waits :
    {t : Task} {reply : Reply} (p : Panel)
    → Fits t reply
    → Matches p (t ∷ [])
    → waits (resume t reply p).1 < waits (t ∷ [])
unfolding resume send_batch
resume-waits p (a_report r own) m = omega arith
resume-waits p (a_batch batch) m = omega arith
resume-waits p (a_result {b = batch} replayed inserted) (f, same, kept) =
    rw (kept, batch_answered) (simp f.is_loading (omega arith))
resume-waits p an_emptied (f, same) = simp f.is_loading (omega arith)
resume-waits p (a_failure {t = Task.reading k s m o} message) h = omega arith
resume-waits p (a_failure {t = Task.fetching s} message) h = omega arith
resume-waits p (a_failure {t = Task.sending s batch} message) h = omega arith
resume-waits p (a_failure {t = Task.clearing s} message) h = omega arith

waits-le : (tasks : List Task) → waits tasks ≤ 3
waits-le [] = omega arith
waits-le (Task.reading k s m o ∷ _) = omega arith
waits-le (Task.clearing s ∷ _) = omega arith
waits-le (Task.sending s b ∷ _) = omega arith
waits-le (Task.fetching s ∷ _) = omega arith

one-le-waits : (t : Task) → 1 ≤ waits (t ∷ [])
one-le-waits (Task.reading k s m o) = omega arith
one-le-waits (Task.clearing s) = omega arith
one-le-waits (Task.sending s b) = omega arith
one-le-waits (Task.fetching s) = omega arith

replied-waits :
    (p : Panel) (earlier later : List Task) (t : Task) (reply : Reply)
    → Fits t reply
    → Matches p (earlier ++ (t ∷ later))
    → let v =
        replied earlier t later reply (record { panel = p; tasks = earlier ++ (t ∷ later) }) in
      waits v.tasks < waits (earlier ++ (t ∷ later))
replied-waits p [] [] t reply fit m = rw append-nil (resume-waits p fit m)
replied-waits p [] (u ∷ later) t reply fit m = absurd m
replied-waits p (u ∷ []) later t reply fit m = absurd m
replied-waits p (u ∷ v ∷ earlier) later t reply fit m = absurd m

Answers-Reach : {n : ℕ} {start w v : World} → Reach start w → Answers n w v → Reach start v
Answers-Reach r none_yet = r
Answers-Reach r (one_more {u} earlier later t reply a e fit) =
    next (Answers-Reach r a) (answer u earlier later t reply e fit)

Answers-waits :
    {n : ℕ} {start w v : World}
    → ((x : World) → Reach start x → IsExclusive x)
    → Reach start w
    → Answers n w v
    → n + waits v.tasks ≤ waits w.tasks
Answers-waits one r none_yet = omega arith
Answers-waits {n = suc n} one r (one_more {u} earlier later t reply a e fit) =
    let before = Answers-waits one r a in
    let exclusive = one u (Answers-Reach r a) in
    let falls = replied-waits u.panel earlier later t reply fit (rw e at exclusive.matched) in
    omega (arith, ap waits e)

-- Nothing is out and every control is free, or exactly one answer is awaited, which may fail.
abbrev pub IsEnding : ℕ → World → World → Type 0
IsEnding n w v =
    ((v.tasks ≡ []) × (occupied v.panel ≡ false))
    ⊎ ((n < 3)
        × ((t : Task) × (v.tasks ≡ t ∷ [])
            × ((message : String) → Answers (suc n) w (replied [] t [] (failed message) v))))

free : (p : Panel) → Flags p false false false → occupied p ≡ false
unfolding occupied
free p f = ground arith

answered_once_more :
    (n : ℕ) (w : World) (p : Panel) (tasks : List Task)
    → Matches p tasks
    → n + waits tasks ≤ 3
    → Answers n w (record { panel = p; tasks = tasks })
    → IsEnding n w (record { panel = p; tasks = tasks })
answered_once_more n w p [] m h a = inl (refl, free p m)
answered_once_more n w p (t ∷ []) m h a = inr (
  omega (arith, one-le-waits t),
  (t, refl, λ message. one_more [] [] t (failed message) a refl (a_failure message)),
)
answered_once_more n w p (t ∷ u ∷ ts) m h a = absurd m

-- From any moment on, where nothing new is clicked: after at most three answers, whatever they
-- are, nothing is out and every control is free again; until then exactly one answer is awaited,
-- and a failure is among those that it can be.
pub Answers-IsEnding :
    (selected : Sample) (attempts : Attempts) (saved : Option Saved) (active writable : Bool)
    {n : ℕ} {w v : World}
    → Reach (Machine.start selected attempts saved active writable) w
    → Answers n w v
    → (n ≤ 3) × IsEnding n w v
Answers-IsEnding selected attempts saved active writable {n} {w} {v} r a =
    let one = λ (x : World) (y : Reach (Machine.start selected attempts saved active writable) x).
      Reach-IsExclusive selected attempts saved active writable y in
    let bound = Answers-waits one r a in
    let most = waits-le w.tasks in
    (
      omega arith,
      answered_once_more n w v.panel v.tasks (one v (Answers-Reach r a)).matched (omega arith) a,
    )
