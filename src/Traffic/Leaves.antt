-- ===== src/Traffic/Leaves.antt =====
-- What a command or an answer leaves of the foot-traffic page, where no other request is out.
use afterglow.Prelude.{
  if_pos, ◌∙◌, ◌≡◌, refl, ℕ, Bool, true, false, List, [], ◌∷◌, String, Option, some, arith,
  Option-cases, Bool-cases, not, is_some, str_eq, ◌&&◌, inl, inr,
}
use afterglow.Traffic.{
  Sample, Sample-discrete, Batch, Report, Panel, Owner, alone, by_import, by_empty, Task, reading,
  fetching, sending, clearing, Attempt, occupied, refresh, report_read, report_lost,
}
use afterglow.Traffic.Handlers.{put, send_batch, batch_answered}
use afterglow.Traffic.Machine.{
  Command, load, replay, empty, generate, refreshing, choosing, rendering, console_refreshing,
  perform, Reply, Fits, a_report, a_batch, a_result, an_emptied, a_failure, resume,
}

abbrev pub owned_by_import : Owner → Bool
owned_by_import by_import = true
owned_by_import _ = false

abbrev pub owned_by_empty : Owner → Bool
owned_by_empty by_empty = true
owned_by_empty _ = false

-- The flags that a request which is out goes with.
pub record Flags (p : Panel) (loading importing emptying : Bool) : Type 0 where
  pub is_loading : p.loading ≡ loading
  pub is_importing : p.importing ≡ importing
  pub is_emptying : p.emptying ≡ emptying

-- A request that is out fits the flags, the latest ticket, the selected sample and the attempt that
-- was kept.
abbrev pub Out : Panel → Task → Type 0
Out p (reading k s m o) =
    Flags p true (owned_by_import o) (owned_by_empty o) × (k ≡ p.generation) × (s ≡ p.selected)
Out p (fetching s) = Flags p false true false × (s ≡ p.selected)
Out p (sending s b) =
    Flags p false true false
    × (s ≡ p.selected)
    × (p.attempts p.selected ≡ some (record { batch = b; confirmed = false }))
Out p (clearing s) = Flags p false false true × (s ≡ p.selected)

-- Nothing is out and no flag is set, or one request is.
abbrev pub Matches : Panel → List Task → Type 0
Matches p [] = Flags p false false false
Matches p (t ∷ []) = Out p t
Matches p (t ∷ u ∷ ts) = ⊥

pub put_self : (id : Sample) (a : Option Attempt) (f : Sample → Option Attempt) → put id a f id ≡ a
unfolding put
put_self id a f = if_pos (Sample-discrete id id) refl a (f id)

-- While a request is out every command is refused.
pub perform-occupied : (c : Command) (p : Panel) → occupied p ≡ true → perform c p ≡ (p, [])
unfolding perform occupied
perform-occupied load p h = rw h
perform-occupied replay p h = rw h
perform-occupied empty p h = rw h
perform-occupied generate p h = rw h
perform-occupied refreshing p h = rw h
perform-occupied (choosing id) p h = rw h
perform-occupied rendering p h = ground arith
perform-occupied console_refreshing p h = ground arith

-- What a command or an answer leaves, if no other request is out.
pub record Leaves (out : Panel × List Task) : Type 0 where
  pub matched : Matches out.0 out.1
  pub belongs : (r : Report) → out.0.report ≡ some r → r.sample ≡ out.0.selected

refresh-Leaves :
    (manual : Bool) (o : Owner) (p : Panel)
    → Flags p false (owned_by_import o) (owned_by_empty o)
    → ((r : Report) → p.report ≡ some r → r.sample ≡ p.selected)
    → Leaves (refresh manual o p)
unfolding refresh
refresh-Leaves manual o p f b =
    rw (f.is_loading) (record { matched = (ground arith, refl, refl); belongs = b })

send_batch-Leaves :
    (batch : Batch) (p : Panel)
    → Flags p false true false
    → ((r : Report) → p.report ≡ some r → r.sample ≡ p.selected)
    → Leaves (send_batch batch p)
unfolding send_batch
send_batch-Leaves batch p f b = record {
  matched = (ground arith, refl, put_self p.selected _ p.attempts);
  belongs = b;
}

pub perform-Leaves :
    (c : Command) (p : Panel)
    → Flags p false false false
    → ((r : Report) → p.report ≡ some r → r.sample ≡ p.selected)
    → Leaves (perform c p)
unfolding perform
perform-Leaves load p f b =
    simp (f.is_loading, f.is_importing, f.is_emptying)
      (record { matched = (ground arith, refl); belongs = b })
perform-Leaves replay p f b =
    simp (f.is_loading, f.is_importing, f.is_emptying)
      (elim (Option-cases (p.attempts p.selected)) [
        | inl nothing ↦ rw nothing (record { matched = ground arith; belongs = b })
        | inr (a, found) ↦ rw found (send_batch-Leaves a.batch _ (ground arith) b)
      ])
perform-Leaves empty p f b =
    simp (f.is_loading, f.is_importing, f.is_emptying)
      (record { matched = (ground arith, refl); belongs = b })
perform-Leaves generate p f b =
    simp (f.is_loading, f.is_importing, f.is_emptying)
      (record { matched = (ground arith, refl); belongs = λ r e. ground (arith, b r) })
perform-Leaves refreshing p f b =
    simp (f.is_loading, f.is_importing, f.is_emptying)
      (record { matched = (ground arith, refl, refl); belongs = b })
perform-Leaves (choosing id) p f b =
    simp (f.is_loading, f.is_importing, f.is_emptying)
      (record { matched = (ground arith, refl, refl); belongs = λ r e. cc })
perform-Leaves rendering p f b =
    simp (f.is_loading, f.is_importing, f.is_emptying)
      (elim (Bool-cases (not (is_some p.report) && str_eq p.error "" && true)) [
        | inl go ↦ rw go (record { matched = (ground arith, refl, refl); belongs = b })
        | inr stay ↦ rw stay (record { matched = f; belongs = b })
      ])
perform-Leaves console_refreshing p f b =
    simp (f.is_loading, f.is_importing, f.is_emptying)
      (record { matched = (ground arith, refl, refl); belongs = b })

-- A report that is read or lost ends its refresh, and the function that awaited it.
report_read-Leaves :
    (k : ℕ) (m : Bool) (o : Owner) (r : Report) (p : Panel)
    → Flags p true (owned_by_import o) (owned_by_empty o)
    → k ≡ p.generation
    → r.sample ≡ p.selected
    → Leaves (report_read k m o r p, [])
unfolding report_read
report_read-Leaves k m alone r p f latest own = record {
  matched = ground arith;
  belongs = λ x e. ground arith;
}
report_read-Leaves k m by_import r p f latest own = record {
  matched = ground arith;
  belongs = λ x e. ground arith;
}
report_read-Leaves k m by_empty r p f latest own = record {
  matched = ground arith;
  belongs = λ x e. ground arith;
}

report_lost-Leaves :
    (k : ℕ) (o : Owner) (message : String) (p : Panel)
    → Flags p true (owned_by_import o) (owned_by_empty o)
    → k ≡ p.generation
    → ((r : Report) → p.report ≡ some r → r.sample ≡ p.selected)
    → Leaves (report_lost k o message p, [])
unfolding report_lost
report_lost-Leaves k alone message p f latest b = record {
  matched = ground arith;
  belongs = λ x e. ground (arith, b x);
}
report_lost-Leaves k by_import message p f latest b = record {
  matched = ground arith;
  belongs = λ x e. ground (arith, b x);
}
report_lost-Leaves k by_empty message p f latest b = record {
  matched = ground arith;
  belongs = λ x e. ground (arith, b x);
}

-- What the rest of each function leaves.
pub resume-Leaves :
    {t : Task} {reply : Reply} (p : Panel)
    → Fits t reply
    → Matches p (t ∷ [])
    → ((r : Report) → p.report ≡ some r → r.sample ≡ p.selected)
    → Leaves (resume t reply p)
unfolding resume
resume-Leaves p (a_report {k} {m} {o} r own) (f, latest, same) b =
    report_read-Leaves k m o r p f latest (own ∙ same)
resume-Leaves p (a_batch batch) (f, same) b = send_batch-Leaves batch p f b
resume-Leaves p (a_result {s} {b = batch} replayed inserted) (f, same, kept) b =
    rw (kept, batch_answered)
      (simp f.is_loading (record { matched = (ground arith, refl, refl); belongs = b }))
resume-Leaves p an_emptied (f, same) b =
    simp f.is_loading (record { matched = (ground arith, refl, refl); belongs = λ r e. cc })
resume-Leaves p (a_failure {t = reading k s m o} message) (f, latest, same) b =
    report_lost-Leaves k o message p f latest b
resume-Leaves p (a_failure {t = fetching s} message) (f, same) b = record {
  matched = ground arith;
  belongs = b;
}
resume-Leaves p (a_failure {t = sending s batch} message) (f, same, kept) b = record {
  matched = ground arith;
  belongs = b;
}
resume-Leaves p (a_failure {t = clearing s} message) (f, same) b = record {
  matched = ground arith;
  belongs = b;
}

pub Out-occupied : (p : Panel) (t : Task) → Out p t → occupied p ≡ true
unfolding occupied
Out-occupied p (reading k s m o) (f, _, _) = ground arith
Out-occupied p (fetching s) (f, _) = ground arith
Out-occupied p (sending s b) (f, _, _) = ground arith
Out-occupied p (clearing s) (f, _) = ground arith
