-- ===== src/Traffic/Wired.antt =====
-- The controls are enabled exactly where using them starts a request.
use afterglow.Prelude.{
  ◌≡◌, refl, sym, ◌∙◌, Bool, true, false, List, [], none, arith, length, Bool-cases, Option-cases,
  inl, inr, if◌then◌else◌,
}
use mathlib.Core.Bool.{false≢true}
use afterglow.Traffic.{Panel, Task, random, is_random, occupied, replay_disabled, refresh, remember}
use afterglow.Traffic.Handlers.{send_batch, ingest, empty_batch, random_feed, refresh_click}
use afterglow.Traffic.Machine.{perform}
use afterglow.Traffic.Controls.{
  Button, is_disabled, is_busy, update_button, clicked, select_disabled, load_button, replay_button,
  refresh_button, empty_button, random_button,
}

-- One request is out, and every control waits for it.
pub record IsWaiting (b : Button) (after : Panel × List Task) : Type 0 where
  pub one_request : length after.1 ≡ 1
  pub disabled : (c : Button) → (update_button c after.0).disabled ≡ true
  pub select : select_disabled after.0 ≡ true
  pub busy : (update_button b after.0).busy ≡ true

-- Nothing is asked for, and nothing but the notice changes.
pub record IsIdle (p : Panel) (after : Panel × List Task) : Type 0 where
  pub no_request : after.1 ≡ []
  pub unchanged : after.0 ≡ record p { notice = after.0.notice }

abbrev pub IsWired : Button → Panel → Bool → Type 0
IsWired b p true = IsIdle p (perform (clicked b) p)
IsWired b p false = IsWaiting b (perform (clicked b) p)

waiting :
    (b : Button) (q : Panel) (started : List Task)
    → length started ≡ 1
    → occupied q ≡ true
    → (update_button b q).busy ≡ true
    → IsWaiting b (q, started)
unfolding update_button select_disabled occupied replay_disabled
waiting b q started one h busy = record {
  one_request = one;
  disabled = λ c. every c;
  select = h;
  busy = busy;
}
  where
    every : (c : Button) → (update_button c q).disabled ≡ true
    every load_button = h
    every replay_button = rw h refl
    every refresh_button = h
    every empty_button = h
    every random_button = h

idle : (p : Panel) → IsIdle p (p, [])
idle p = record { no_request = refl; unchanged = refl }

wired :
    (b : Button) (p : Panel) (d : Bool)
    → (d ≡ true → IsIdle p (perform (clicked b) p))
    → (d ≡ false → IsWaiting b (perform (clicked b) p))
    → IsWired b p d
wired b p true still starts = still refl
wired b p false still starts = starts refl

-- One flag is enough.
importing-occupied : (p : Panel) → p.importing ≡ true → occupied p ≡ true
unfolding occupied
importing-occupied p h = ground arith

emptying-occupied : (p : Panel) → p.emptying ≡ true → occupied p ≡ true
unfolding occupied
emptying-occupied p h = ground arith

loading-occupied : (p : Panel) → p.loading ≡ true → occupied p ≡ true
unfolding occupied
loading-occupied p h = ground arith

occupied-loading : (p : Panel) → occupied p ≡ false → p.loading ≡ false
unfolding occupied
occupied-loading p h = ground arith

load-IsIdle : (p : Panel) → occupied p ≡ true → IsIdle p (ingest false p)
unfolding ingest
load-IsIdle p h = rw h (idle p)

import-IsWaiting :
    (b : Button) (q : Panel) (started : List Task)
    → length started ≡ 1
    → q.importing ≡ true
    → ((r : Panel) → r.importing ≡ true → (update_button b r).busy ≡ true)
    → IsWaiting b (q, started)
import-IsWaiting b q started one h shows =
    waiting b q started one (importing-occupied q h) (shows q h)

-- Loading, also of a random feed, which selects it first.
load-IsWaiting :
    (b : Button) (p : Panel)
    → ((q : Panel) → q.importing ≡ true → (update_button b q).busy ≡ true)
    → occupied p ≡ false
    → IsWaiting b (ingest false p)
unfolding ingest
load-IsWaiting b p shows h = rw h (import-IsWaiting b _ _ refl refl shows)

replay-IsIdle : (p : Panel) → replay_disabled p ≡ true → IsIdle p (ingest true p)
unfolding ingest replay_disabled
replay-IsIdle p h = elim (Bool-cases (occupied p)) [
  | inl out ↦ rw out (idle p)
  | inr free ↦ elim (Option-cases (p.attempts p.selected)) [
    | inl no_attempt ↦ rw (free, no_attempt) (record { no_request = refl; unchanged = refl })
    | inr (a, kept) ↦ absurd (false≢true (rw (free, kept) at h))
  ]
]

replay-IsWaiting : (p : Panel) → replay_disabled p ≡ false → IsWaiting replay_button (ingest true p)
unfolding ingest replay_disabled send_batch update_button is_busy remember
replay-IsWaiting p h = elim (Bool-cases (occupied p)) [
  | inl out ↦ absurd (false≢true (sym (rw out at h)))
  | inr free ↦ elim (Option-cases (p.attempts p.selected)) [
    | inl no_attempt ↦ absurd (false≢true (sym (rw (free, no_attempt) at h)))
    | inr (a, kept) ↦ rw (free, kept) (import-IsWaiting replay_button _ _ refl refl (λ q e. e))
  ]
]

loading-IsWaiting :
    (q : Panel) (started : List Task)
    → length started ≡ 1
    → q.loading ≡ true
    → IsWaiting refresh_button (q, started)
unfolding update_button is_busy
loading-IsWaiting q started one h = waiting refresh_button q started one (loading-occupied q h) h

emptying-IsWaiting :
    (q : Panel) (started : List Task)
    → length started ≡ 1
    → q.emptying ≡ true
    → IsWaiting empty_button (q, started)
unfolding update_button is_busy
emptying-IsWaiting q started one h = waiting empty_button q started one (emptying-occupied q h) h

refresh-IsIdle : (p : Panel) → occupied p ≡ true → IsIdle p (refresh_click p)
unfolding refresh_click
refresh-IsIdle p h = rw h (idle p)

refresh-IsWaiting : (p : Panel) → occupied p ≡ false → IsWaiting refresh_button (refresh_click p)
unfolding refresh_click refresh
refresh-IsWaiting p h = rw (h, occupied-loading p h) (loading-IsWaiting _ _ refl refl)

empty-IsIdle : (p : Panel) → occupied p ≡ true → IsIdle p (empty_batch p)
unfolding empty_batch
empty-IsIdle p h = rw h (idle p)

empty-IsWaiting : (p : Panel) → occupied p ≡ false → IsWaiting empty_button (empty_batch p)
unfolding empty_batch
empty-IsWaiting p h = rw h (emptying-IsWaiting _ _ refl refl)

random-IsIdle : (p : Panel) → occupied p ≡ true → IsIdle p (random_feed p)
unfolding random_feed
random-IsIdle p h = rw h (idle p)

-- What is left of the page once the random sample is chosen.
abbrev chosen_random : Panel → Panel
chosen_random p = remember (record p {
  report = if is_random p.selected then p.report else none;
  selected = random;
  error = "";
})

random_feed-ingest :
    (p : Panel) → occupied p ≡ false → random_feed p ≡ ingest false (chosen_random p)
unfolding random_feed
random_feed-ingest p h = rw h refl

chosen_random-occupied : (p : Panel) → occupied (chosen_random p) ≡ occupied p
unfolding occupied remember
chosen_random-occupied p = refl

random-IsWaiting : (p : Panel) → occupied p ≡ false → IsWaiting random_button (random_feed p)
unfolding update_button is_busy
random-IsWaiting p h =
    rw (random_feed-ingest p h)
      (load-IsWaiting random_button (chosen_random p) (λ r e. e) (chosen_random-occupied p ∙ h))

-- A button of the page is enabled exactly where a click on it starts a request: one, for which
-- all buttons and the choice of a sample are disabled then and the button is marked as busy. A
-- click on a disabled one, should it be delivered, starts none and changes at most the notice.
pub update_button-IsWired : (b : Button) (p : Panel) → IsWired b p (update_button b p).disabled
unfolding update_button is_disabled is_busy perform
update_button-IsWired load_button p =
    wired load_button p _ (load-IsIdle p) (load-IsWaiting load_button p (λ q e. e))
update_button-IsWired replay_button p =
    wired replay_button p _ (replay-IsIdle p) (replay-IsWaiting p)
update_button-IsWired refresh_button p =
    wired refresh_button p _ (refresh-IsIdle p) (refresh-IsWaiting p)
update_button-IsWired empty_button p = wired empty_button p _ (empty-IsIdle p) (empty-IsWaiting p)
update_button-IsWired random_button p =
    wired random_button p _ (random-IsIdle p) (random-IsWaiting p)
