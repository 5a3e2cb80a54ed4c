-- ===== src/Console/Refresh.antt =====
-- The refresh of the console: one at a time, and a last good snapshot that failures keep.
use afterglow.Prelude.{
  ◌≡◌, refl, ℕ, zero, suc, Bool, true, false, ◌&&◌, not, List, [], ◌∷◌, Option, none, some, arith,
  is_some, if◌then◌else◌, All, ap, ◌∙◌, ◌⊎◌, inl, inr, Bool-cases,
}
use afterglow.Api.{Snapshot, Runtime}

pub record Shell : Type 0 where
  pub state : Option Snapshot
  pub runtime : Option Runtime
  pub refreshing : Bool
  pub live_paused : Bool
  pub last_updated : Option ℕ
  pub connection_lost : Bool
  pub requests : ℕ  -- how many refreshes wait for their two answers

abbrev pub start : Shell
start = record {
  state = none;
  runtime = none;
  refreshing = false;
  live_paused = false;
  last_updated = none;
  connection_lost = false;
  requests = 0;
}

-- `refresh` up to its await.
unfoldable pub refresh : Shell → Shell
refresh s = if s.refreshing then s else record s { refreshing = true; requests = suc s.requests }

-- Both answers, at a time; or the first failure.
unfoldable pub refreshed : ℕ → Snapshot → Runtime → Shell → Shell
refreshed now snapshot runtime s = record s {
  state = some snapshot;
  runtime = some runtime;
  last_updated = some now;
  connection_lost = false;
  refreshing = false;
}

unfoldable pub refresh_failed : Shell → Shell
refresh_failed s = record s { connection_lost = true; refreshing = false }

-- What `freshness` shows: the banner's kinds, and the time that it names.
pub data Banner : Type 0 where
  hidden : Banner
  interrupted paused : Option ℕ → Banner

unfoldable pub freshness : Shell → Banner
freshness s =
    if s.connection_lost
    then interrupted s.last_updated
    else if s.live_paused
    then paused s.last_updated
    else hidden

-- The pause button, and the timer's tick.
unfoldable pub live_toggle : Shell → Shell
unfolding refresh
live_toggle s =
    let t = record s { live_paused = not s.live_paused } in if t.live_paused then t else refresh t

unfoldable pub tick : Bool → Shell → Shell
unfolding refresh
tick document_hidden s = if not s.live_paused && not document_hidden then refresh s else s

pub data Event : Type 0 where
  asked toggled lost : Event
  ticked : (document_hidden : Bool) → Event
  answered : ℕ → Snapshot → Runtime → Event

-- An answer is ignored where nothing waits for it.
unfoldable pub settle : ℕ → (Shell → Shell) → Shell → Shell
settle zero end' s = s
settle (suc n) end' s = end' (record s { requests = n })

unfoldable pub step : Event → Shell → Shell
unfolding refresh live_toggle tick settle refreshed refresh_failed
step asked s = refresh s
step toggled s = live_toggle s
step (ticked document_hidden) s = tick document_hidden s
step (answered now snapshot runtime) s = settle s.requests (refreshed now snapshot runtime) s
step lost s = settle s.requests refresh_failed s

unfoldable pub run : List Event → Shell → Shell
run [] s = s
run (e ∷ es) s = run es (step e s)

pub record IsSteady (s : Shell) : Type 0 where
  pub one_at_a_time : s.requests ≡ (if s.refreshing then 1 else 0)
  pub together : is_some s.state ≡ is_some s.last_updated
  pub both : is_some s.state ≡ is_some s.runtime

settle-IsSteady :
    (n : ℕ) (now : ℕ) (x : Snapshot) (r : Runtime) (s : Shell)
    → s.requests ≡ n
    → IsSteady s
    → IsSteady (settle n (refreshed now x r) s)
unfolding settle refreshed
settle-IsSteady zero now x r s e i = i
settle-IsSteady (suc n) now x r s e i = ground arith

lost-IsSteady :
    (n : ℕ) (s : Shell) → s.requests ≡ n → IsSteady s → IsSteady (settle n refresh_failed s)
unfolding settle refresh_failed
lost-IsSteady zero s e i = i
lost-IsSteady (suc n) s e i = ground arith

step-IsSteady : (e : Event) (s : Shell) → IsSteady s → IsSteady (step e s)
unfolding step
step-IsSteady asked s i = ground arith
step-IsSteady toggled s i = ground arith
step-IsSteady (ticked document_hidden) s i = ground arith
step-IsSteady (answered now x r) s i = settle-IsSteady s.requests now x r s refl i
step-IsSteady lost s i = lost-IsSteady s.requests s refl i

-- After any requests, ticks, pauses, answers and failures: at most one refresh waits, exactly while
-- `refreshing` is set, so that none is ever blocked for good; and a snapshot is held exactly
-- together with its runtime and the time of its arrival.
pub run-IsSteady : (es : List Event) (s : Shell) → IsSteady s → IsSteady (run es s)
unfolding run
run-IsSteady [] s i = i
run-IsSteady (e ∷ es) s i = run-IsSteady es (step e s) (step-IsSteady e s i)

abbrev pub is_answer : Event → Bool
is_answer (answered now x r) = true
is_answer _ = false

step-keeps :
    (e : Event) (s : Shell)
    → is_answer e ≡ false
    → ((step e s).state ≡ s.state) × ((step e s).last_updated ≡ s.last_updated)
unfolding step
step-keeps asked s h = ground arith
step-keeps toggled s h = ground arith
step-keeps (ticked document_hidden) s h = ground arith
step-keeps (answered now x r) s h = cc
step-keeps lost s h = ground (arith, settle_lost-keeps s.requests s)
  where
    settle_lost-keeps :
        (n : ℕ) (s : Shell)
        → ((settle n refresh_failed s).state ≡ s.state)
          × ((settle n refresh_failed s).last_updated ≡ s.last_updated)
    settle_lost-keeps zero s = (refl, refl)
    settle_lost-keeps (suc n) s = (refl, refl)

-- Without an answer nothing takes the snapshot away: whatever is asked, paused, ticked or lost, the
-- last snapshot and its time stay, and once the connection counts as lost the banner says so with
-- that time.
pub run-keeps :
    (es : List Event) (s : Shell)
    → All (λ e. is_answer e ≡ false) es
    → ((run es s).state ≡ s.state)
      × ((run es s).last_updated ≡ s.last_updated)
      × (((run es s).connection_lost ≡ false) ⊎ (freshness (run es s) ≡ interrupted s.last_updated))
unfolding run freshness
run-keeps [] s h =
    (refl, refl, elim (Bool-cases s.connection_lost) [ inl l ↦ inr (rw l) | inr l ↦ inl l ])
run-keeps (e ∷ es) s (h, hs) =
    let (same, since) = step-keeps e s h in
    let (state, time, banner) = run-keeps es (step e s) hs in
    (
      state ∙ same,
      time ∙ since,
      elim banner [ inl l ↦ inl l | inr l ↦ inr (l ∙ ap interrupted since) ],
    )
