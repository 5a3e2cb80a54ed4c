-- ===== src/Traffic/Controls.antt =====
-- The controls of the foot-traffic page as `update` of internal/console/web/foottraffic.js sets
-- them: five buttons and the choice of a sample feed.
use afterglow.Prelude.{Bool, String, Option, none, some, if◌then◌else◌}
use afterglow.Traffic.{is_random, Attempt, Panel, occupied, replay_disabled}
use afterglow.Traffic.Machine.{Command, load, replay, empty, generate, refreshing}

pub data Button : Type 0 where
  load_button replay_button refresh_button empty_button random_button : Button

-- A button, as drawn. `none` where its text stays.
pub record Drawn : Type 0 where
  pub disabled : Bool
  pub busy : Bool  -- `aria-busy`
  pub label : Option String

unfoldable pub is_disabled : Button → Panel → Bool
unfolding occupied replay_disabled
is_disabled replay_button p = replay_disabled p
is_disabled _ p = occupied p

unfoldable pub is_busy : Button → Panel → Bool
is_busy refresh_button p = p.loading
is_busy empty_button p = p.emptying
is_busy _ p = p.importing

-- `attempts[selected]?.confirmed !== false`
abbrev replay_label : Option Attempt → String
replay_label none = "Replay last batch"
replay_label (some a) = if a.confirmed then "Replay last batch" else "Retry last batch"

unfoldable pub label : Button → Panel → Option String
label replay_button p = some (replay_label (p.attempts p.selected))
label load_button p =
    some (if is_random p.selected then "Generate another feed" else "Load sample feed")
label _ p = none

unfoldable pub update_button : Button → Panel → Drawn
unfolding is_disabled is_busy label
update_button b p = record { disabled = is_disabled b p; busy = is_busy b p; label = label b p }

-- The choice of a sample feed.
unfoldable pub select_disabled : Panel → Bool
unfolding occupied
select_disabled p = occupied p

-- What a click on a button asks for.
abbrev pub clicked : Button → Command
clicked load_button = load
clicked replay_button = replay
clicked refresh_button = refreshing
clicked empty_button = empty
clicked random_button = generate
