-- ===== src/Traffic/Spec.antt =====
-- What the foot-traffic page promises of its imports, without its flags, tickets and notices: one
-- operation at a time, and a batch that is kept before it is sent and until the sample is emptied.
use afterglow.Prelude.{◌≡◌, ◌≢◌, true, false, Option, none, some}
use afterglow.Traffic.{Sample, random, Batch, Attempt, Attempts, Owner, alone, by_import, by_empty}
use afterglow.Traffic.Machine.{
  Command, load, replay, empty, generate, refreshing, choosing, rendering, console_refreshing,
}

pub data Phase : Type 0 where
  idle : Phase
  fetching : Sample → Phase
  sending : Sample → Batch → Phase
  clearing : Sample → Phase
  reading : Sample → Owner → Phase

-- One sample's attempt changes, and no other's.
pub record Updates (a : Attempts) (s : Sample) (v : Option Attempt) (b : Attempts) : Type 0 where
  pub at : b s ≡ v
  pub elsewhere : (x : Sample) → x ≢ s → b x ≡ a x

abbrev pub attempt : Batch → Option Attempt
attempt batch = some (record { batch = batch; confirmed = false })

abbrev pub confirmed : Batch → Option Attempt
confirmed batch = some (record { batch = batch; confirmed = true })

-- What makes the page move: a handler that is called, an answer that came with what was asked for,
-- a failed request, or a change of the session or of the storage.
pub data Cause : Type 0 where
  calling : Command → Cause
  answered failing changing : Cause

-- A request is out.
abbrev pub IsOut : Phase → Type 0
IsOut idle = ⊥
IsOut phase = Unit

-- What happens next, for the chosen sample and the cause: the phase and the attempts before, and
-- after.
pub data Move (chosen : Sample) : Cause → Phase → Attempts → Phase → Attempts → Type 0 where
  -- While a request is out, no handler starts another.
  ignore : {c : Command} {p : Phase} {a : Attempts} → IsOut p → Move chosen (calling c) p a p a
  change : {p : Phase} {a : Attempts} → Move chosen changing p a p a
  fetch : {a : Attempts} → Move chosen (calling load) idle a (fetching chosen) a
  generate_feed : {a : Attempts} → Move chosen (calling generate) idle a (fetching random) a
  -- Only the batch that is kept is sent again.
  resend :
      {a b : Attempts} (kept : Attempt)
      → a chosen ≡ some kept
      → Updates a chosen (attempt kept.batch) b
      → Move chosen (calling replay) idle a (sending chosen kept.batch) b
  nothing_kept : {a : Attempts} → a chosen ≡ none → Move chosen (calling replay) idle a idle a
  clear : {a : Attempts} → Move chosen (calling empty) idle a (clearing chosen) a
  refresh : {a : Attempts} → Move chosen (calling refreshing) idle a (reading chosen alone) a
  choose :
      {s : Sample} {a : Attempts} → Move chosen (calling (choosing s)) idle a (reading s alone) a
  first_read : {a : Attempts} → Move chosen (calling rendering) idle a (reading chosen alone) a
  no_read : {a : Attempts} → Move chosen (calling rendering) idle a idle a
  follow : {a : Attempts} → Move chosen (calling console_refreshing) idle a (reading chosen alone) a
  fetched :
      {s : Sample} {a b : Attempts} (batch : Batch)
      → Updates a s (attempt batch) b
      → Move chosen answered (fetching s) a (sending s batch) b
  accept :
      {s : Sample} {batch : Batch} {a b : Attempts}
      → Updates a s (confirmed batch) b
      → Move chosen answered (sending s batch) a (reading s by_import) b
  cleared :
      {s : Sample} {a b : Attempts}
      → Updates a s none b
      → Move chosen answered (clearing s) a (reading s by_empty) b
  finish : {s : Sample} {o : Owner} {a : Attempts} → Move chosen answered (reading s o) a idle a
  -- Whichever request failed, what is kept stays.
  fail : {p : Phase} {a : Attempts} → IsOut p → Move chosen failing p a idle a
