-- ===== src/Traffic/Handlers.antt =====
-- The functions of the foot-traffic page that start an operation, and what each does with the
-- answer that it waited for.
use afterglow.Prelude.{
  Bool, true, false, ◌&&◌, ◌||◌, not, List, [], ◌∷◌, ℕ, String, Option, none, some, str_eq,
  if◌then◌else◌, is_some, ite,
}
use afterglow.Traffic.{
  Sample, Sample-discrete, random, is_random, Batch, Attempt, Attempts, Panel, silent,
  nothing_to_replay, checking_again, importing_windows, replay_verified, emptying_sample, committed,
  import_failed, emptied, not_emptied, alone, by_import, by_empty, Task, fetching, sending,
  clearing, occupied, remember, refresh,
}

-- `attempts[id] = a`, and `delete attempts[id]` for none.
unfoldable pub put : Sample → Option Attempt → Attempts → Attempts
unfolding Sample-discrete
put id a attempts s = ite (Sample-discrete id s) a (attempts s)

-- The middle of `ingest`: the exact input is kept before it is sent.
unfoldable pub send_batch : Batch → Panel → Panel × List Task
unfolding remember put
send_batch batch p = (
  remember (record p {
    attempts = put p.selected (some (record { batch = batch; confirmed = false })) p.attempts;
  }),
  sending p.selected batch ∷ [],
)

-- `ingest`, up to its first await or to the send.
unfoldable pub ingest : Bool → Panel → Panel × List Task
unfolding send_batch occupied
ingest replay p =
    if occupied p then (p, []) else elim (if replay then p.attempts p.selected else none) [
      | some attempt ↦
          send_batch attempt.batch (record p { importing = true; notice = checking_again })
      | none ↦
          if replay
          then (record p { notice = nothing_to_replay }, [])
          else (record p { importing = true; notice = importing_windows }, fetching p.selected ∷ [])
    ]

-- The `catch` and `finally` of `ingest`.
abbrev is_unconfirmed : Option Attempt → Bool
is_unconfirmed none = false
is_unconfirmed (some a) = not a.confirmed

unfoldable pub ingest_failed : String → Panel → Panel
ingest_failed message p = record p {
  notice = import_failed message (is_unconfirmed (p.attempts p.selected));
  importing = false;
}

-- The answer to the batch. Without an attempt to confirm, the assignment throws.
unfoldable pub batch_answered : Bool → ℕ → Panel → Panel × List Task
unfolding remember put refresh ingest_failed
batch_answered replayed inserted p = elim (p.attempts p.selected) [
  | none ↦ (ingest_failed "Cannot set properties of undefined" p, [])
  | some attempt ↦
      refresh false by_import
        (record (remember (record p {
          attempts = put p.selected (some (record attempt { confirmed = true })) p.attempts;
        })) { notice = if replayed then replay_verified else committed inserted })
]

unfoldable pub empty_batch : Panel → Panel × List Task
unfolding occupied
empty_batch p =
    if occupied p
    then (p, [])
    else (record p { emptying = true; notice = emptying_sample }, clearing p.selected ∷ [])

unfoldable pub empty_answered : Panel → Panel × List Task
unfolding remember put refresh
empty_answered p =
    refresh false by_empty
      (record (remember (record p { attempts = put p.selected none p.attempts })) {
        report = none;
        error = "";
        notice = emptied p.selected;
      })

unfoldable pub empty_failed : String → Panel → Panel
empty_failed message p = record p { notice = not_emptied message; emptying = false }

unfoldable pub random_feed : Panel → Panel × List Task
unfolding occupied remember ingest
random_feed p =
    if occupied p
    then (p, [])
    else ingest false (
        remember (record p {
          report = if is_random p.selected then p.report else none;
          selected = random;
          error = "";
        }))

-- The change handler of the sample selector.
unfoldable pub choose : Sample → Panel → Panel × List Task
unfolding occupied remember refresh
choose id p =
    if occupied p
    then (p, [])
    else refresh false alone
        (remember (record p { selected = id; report = none; error = ""; notice = silent }))

-- The microtask of `render`.
unfoldable pub rendered : Panel → Panel × List Task
unfolding refresh occupied
rendered p =
    if not (is_some p.report) && str_eq p.error "" && not (occupied p)
    then refresh false alone p
    else (p, [])

-- The page's own refresh button, and the console's.
unfoldable pub refresh_click : Panel → Panel × List Task
unfolding refresh occupied
refresh_click p = if occupied p then (p, []) else refresh true alone p

unfoldable pub console_refresh : Panel → Panel × List Task
unfolding refresh
console_refresh p = if p.importing || p.emptying then (p, []) else refresh true alone p
