-- ===== src/Actions/Clicks.antt =====
-- What clicks start: an action sets `busy`, and nothing else touches it or the shell.
use afterglow.Prelude.{
  ◌≡◌, refl, ℕ, ◌+◌, Bool, true, false, List, [], ◌∷◌, ◌++◌, String, Option, none, some, arith,
  is_some, if◌then◌else◌, Bool-cases, inl, inr, find, str_eq,
}
use afterglow.Api.{Snapshot, Reservation}
use afterglow.Console.Refresh
use afterglow.Console.Refresh.{Shell, IsSteady, refresh, run-IsSteady, asked}
use afterglow.Ledger.{handle, chosen}
use afterglow.Actions.{
  Detail, Said, said, Kind, reserve, pause, Button, action, delivery, filtering, screen, replay,
  proof, Desk, by_action, by_button, Task, controlling, running, replaying, recording, refreshing,
  click, scenario, tell, delivery_content, screen_content, shown, open_form, show_delivery,
  show_screen, record_playback, find_playback, start_scenario,
}

-- The requests of an action, the refresh at its end included.
abbrev pub weight : Task → ℕ
weight (controlling p) = 1
weight (running k) = 1
weight (replaying id) = 0
weight (recording r) = 0
weight (refreshing by_action) = 1
weight (refreshing by_button) = 0

abbrev pub actions : List Task → ℕ
actions [] = 0
actions (t ∷ ts) = weight t + actions ts

pub actions-append : (ts us : List Task) → actions (ts ++ us) ≡ actions ts + actions us
actions-append [] us = omega arith
actions-append (t ∷ ts) us = omega (arith, actions-append ts us)

-- `busy` is set exactly while an action waits, and no two wait at once.
pub record IsBusy (desk : Desk) (tasks : List Task) : Type 0 where
  pub one_at_a_time : actions tasks ≡ (if desk.busy then 1 else 0)
  pub steady : IsSteady desk.shell

pub step-IsSteady : (e : Refresh.Event) (s : Shell) → IsSteady s → IsSteady (Refresh.step e s)
step-IsSteady e s h = unfold Refresh.run in run-IsSteady (e ∷ []) s h

pub refresh-IsSteady : (s : Shell) → IsSteady s → IsSteady (refresh s)
refresh-IsSteady s h = unfold Refresh.step in step-IsSteady asked s h

-- What touches neither the flag nor the shell.
abbrev pub Quiet : Desk → Desk → Type 0
Quiet d e = (e.busy ≡ d.busy) × (e.shell ≡ d.shell)

pub tell-Quiet : (text : Said) (error : Bool) (d : Desk) → Quiet d (tell text error d)
unfolding tell
tell-Quiet text error d = elim (Bool-cases (is_some d.detail)) [
  | inl open' ↦ rw open' (refl, refl)
  | inr no_dialog ↦ rw no_dialog (refl, refl)
]

shown-Quiet : (content : Option Detail) (d : Desk) → Quiet d (shown content d)
unfolding shown
shown-Quiet none d = (refl, refl)
shown-Quiet (some content) d = (refl, refl)

-- The flag and the shell after some code, for the requests it starts.
abbrev pub Starts : Desk → Desk × List Task → Type 0
Starts d o =
    (actions o.1 + (if d.busy then 1 else 0) ≡ (if o.0.busy then 1 else 0)) × (o.0.shell ≡ d.shell)

Quiet-Starts : (d e : Desk) (ts : List Task) → actions ts ≡ 0 → Quiet d e → Starts d (e, ts)
Quiet-Starts d e ts none' (same, shell) = (ground arith, shell)

open_form-Quiet : (o : Option Snapshot) (d : Desk) → Quiet d (open_form o d)
unfolding open_form
open_form-Quiet none d = tell-Quiet _ true d
open_form-Quiet (some s) d = (refl, refl)

show_delivery-Quiet :
    (o : Option Snapshot) (id : String) (d : Desk) → Quiet d (show_delivery o id d)
unfolding show_delivery
show_delivery-Quiet none id d = (refl, refl)
show_delivery-Quiet (some s) id d = shown-Quiet (delivery_content s id) d

show_screen-Quiet : (o : Option Snapshot) (id : String) (d : Desk) → Quiet d (show_screen o id d)
unfolding show_screen
show_screen-Quiet none id d = (refl, refl)
show_screen-Quiet (some s) id d = shown-Quiet (screen_content s id) d

record_playback-Starts : (o : Option Reservation) (d : Desk) → Starts d (record_playback o d)
unfolding record_playback
record_playback-Starts none d =
    let text = said "Cannot read properties of undefined" in
    Quiet-Starts d (tell text true d) [] refl (tell-Quiet text true d)
record_playback-Starts (some r) d = Quiet-Starts d d (recording r ∷ []) refl (refl, refl)

find_playback-Starts :
    (o : Option Snapshot) (id : String) (d : Desk) → Starts d (find_playback o id d)
unfolding find_playback
find_playback-Starts none id d =
    let text = said "Cannot read properties of null" in
    Quiet-Starts d (tell text true d) [] refl (tell-Quiet text true d)
find_playback-Starts (some s) id d =
    record_playback-Starts (find (λ x. str_eq x.id id) s.reservations) d

start_scenario-Starts : (k : Kind) (d : Desk) → d.busy ≡ false → Starts d (start_scenario k d)
unfolding start_scenario
start_scenario-Starts reserve d idle =
    Quiet-Starts d (open_form d.shell.state d) [] refl (open_form-Quiet d.shell.state d)
start_scenario-Starts pause d idle = (ground arith, refl)
start_scenario-Starts (Kind.other name) d idle = (ground arith, refl)

guarded-Starts :
    (b : Bool) (d : Desk) (o : Desk × List Task)
    → (b ≡ false → Starts d o)
    → Starts d (if b then (d, []) else o)
guarded-Starts true d o h = Quiet-Starts d d [] refl (refl, refl)
guarded-Starts false d o h = h refl

pub click-Starts : (b : Button) (d : Desk) → Starts d (click b d)
unfolding click scenario
click-Starts (action k) d =
    guarded-Starts d.busy d (start_scenario k d) (λ idle. start_scenario-Starts k d idle)
click-Starts (delivery id) d =
    Quiet-Starts d (show_delivery d.shell.state id d) [] refl
      (show_delivery-Quiet d.shell.state id d)
click-Starts (filtering f) d =
    Quiet-Starts d (record d { ledger = handle (chosen f) d.ledger }) [] refl (refl, refl)
click-Starts (screen id) d =
    Quiet-Starts d (show_screen d.shell.state id d) [] refl (show_screen-Quiet d.shell.state id d)
click-Starts (replay id) d = Quiet-Starts d d (replaying id ∷ []) refl (refl, refl)
click-Starts (proof id) d = find_playback-Starts d.shell.state id d
