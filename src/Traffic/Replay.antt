-- ===== src/Traffic/Replay.antt =====
-- Sending a batch again.
use afterglow.Prelude.{◌≡◌, refl, ℕ, ◌+◌, Bool, true, false, [], ◌∷◌, String, some, arith}
use afterglow.Traffic.{Sample, Batch, Panel, Report, sending, reading, by_import, import_failed}
use afterglow.Traffic.Handlers.{batch_answered}
use afterglow.Traffic.Machine.{perform, replay, resume, failed, got_result, got_report}
use afterglow.Traffic.Leaves.{Out, put_self}

-- A batch whose answer was lost is kept as unconfirmed, the notice says that it can be sent again,
-- and the next replay sends that very batch of that sample.
pub replay_after_failure :
    (p : Panel) (s : Sample) (b : Batch) (message : String)
    → Out p (sending s b)
    → let q = (resume (sending s b) (failed message) p).0 in
      (q.notice ≡ import_failed message true) × ((perform replay q).1 ≡ sending s b ∷ [])
unfolding resume perform
replay_after_failure p s b message (f, same, kept) = (rw kept refl, ground arith)

-- A batch that was answered is kept as confirmed; once the report that follows it is read or lost,
-- a replay sends it again unchanged.
pub replay_after_success :
    (p : Panel) (s : Sample) (b : Batch) (replayed : Bool) (inserted : ℕ) (r : Report)
    → Out p (sending s b)
    → let q = (resume (sending s b) (got_result replayed inserted) p).0 in
      let refreshed = (resume (reading (p.generation + 1) s false by_import) (got_report r) q).0 in
      (q.attempts s ≡ some (record { batch = b; confirmed = true }))
      × ((perform replay refreshed).1 ≡ sending s b ∷ [])
unfolding resume perform
replay_after_success p s b replayed inserted r (f, same, kept) =
    let held = put_self p.selected (some (record { batch = b; confirmed = true })) p.attempts in
    rw (same, kept, batch_answered) (simp f.is_loading (ground (arith, held), ground (arith, held)))
