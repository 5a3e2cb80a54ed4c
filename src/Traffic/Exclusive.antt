-- ===== src/Traffic/Exclusive.antt =====
-- At most one request is out, and the flags say which.
use afterglow.Prelude.{◌≡◌, Bool, List, [], ◌∷◌, ◌++◌, Option, some, arith}
use mathlib.Core.List.{append-nil}
use afterglow.Traffic.{
  Attempts, Saved, Sample, Report, Panel, Task, reading, fetching, sending, clearing,
}
use afterglow.Traffic.Machine.{
  Command, Reply, Fits, World, commanded, replied, Step, command, answer, environment, Reach, here,
  next, start,
}
use afterglow.Traffic.Leaves.{
  Matches, perform-occupied, perform-Leaves, resume-Leaves, Out-occupied,
}

pub record IsExclusive (w : World) : Type 0 where
  pub matched : Matches w.panel w.tasks
  pub belongs : (r : Report) → w.panel.report ≡ some r → r.sample ≡ w.panel.selected

commanded-IsExclusive :
    (c : Command) (p : Panel) (tasks : List Task)
    → IsExclusive (record { panel = p; tasks = tasks })
    → IsExclusive (commanded c (record { panel = p; tasks = tasks }))
commanded-IsExclusive c p [] i =
    let l = perform-Leaves c p i.matched i.belongs in
    record { matched = rw append-nil l.matched; belongs = l.belongs }
commanded-IsExclusive c p (t ∷ []) i = rw (perform-occupied c p (Out-occupied p t i.matched)) i
commanded-IsExclusive c p (t ∷ u ∷ ts) i = absurd i.matched

replied-IsExclusive :
    (p : Panel) (earlier later : List Task) (t : Task) (reply : Reply)
    → Fits t reply
    → Matches p (earlier ++ (t ∷ later))
    → ((r : Report) → p.report ≡ some r → r.sample ≡ p.selected)
    → IsExclusive
        (replied earlier t later reply (record { panel = p; tasks = earlier ++ (t ∷ later) }))
replied-IsExclusive p [] [] t reply fit m b =
    let l = resume-Leaves p fit m b in
    record { matched = rw append-nil l.matched; belongs = l.belongs }
replied-IsExclusive p [] (u ∷ later) t reply fit m b = absurd m
replied-IsExclusive p (u ∷ []) later t reply fit m b = absurd m
replied-IsExclusive p (u ∷ v ∷ earlier) later t reply fit m b = absurd m

Out-environment :
    (p : Panel) (active writable : Bool) (tasks : List Task)
    → Matches p tasks
    → Matches (record p { active = active; writable = writable }) tasks
Out-environment p active writable [] m = ground arith
Out-environment p active writable (reading k s n o ∷ []) (f, latest, same) =
    (ground arith, latest, same)
Out-environment p active writable (fetching s ∷ []) (f, m) = (ground arith, m)
Out-environment p active writable (sending s b ∷ []) (f, same, kept) = (ground arith, same, kept)
Out-environment p active writable (clearing s ∷ []) (f, m) = (ground arith, m)
Out-environment p active writable (t ∷ u ∷ ts) m = m

Step-IsExclusive : {u v : World} → Step u v → IsExclusive u → IsExclusive v
Step-IsExclusive (command w c) i = commanded-IsExclusive c w.panel w.tasks i
Step-IsExclusive (answer w earlier later t reply e fit) i =
    replied-IsExclusive w.panel earlier later t reply fit (rw e at i.matched) i.belongs
Step-IsExclusive (environment w active writable) i = record {
  matched = Out-environment w.panel active writable w.tasks i.matched;
  belongs = i.belongs;
}

-- From any restored page on, whatever is clicked and however the network answers: at most one
-- request is out; the flags that disable the controls are set exactly for it; a report that is
-- read has the latest ticket, so no answer is ever dropped; an import, an emptying and a report
-- that are out are of the sample that is still selected; and the report shown is that sample's.
pub Reach-IsExclusive :
    (selected : Sample) (attempts : Attempts) (saved : Option Saved) (active writable : Bool)
    {v : World}
    → Reach (start selected attempts saved active writable) v
    → IsExclusive v
Reach-IsExclusive selected attempts saved active writable here = record {
  matched = ground arith;
  belongs = λ r e. cc;
}
Reach-IsExclusive selected attempts saved active writable (next r s) =
    Step-IsExclusive s (Reach-IsExclusive selected attempts saved active writable r)
