-- ===== src/Overview/Holds.antt =====
-- The table of reservations on the campaign page: `campaigns` of internal/console/web/app.js.
use afterglow.Prelude.{ℕ, List, [], ◌∷◌, map, String, Option, none, some}
use afterglow.Api.{HoldState, Reservation}

-- The last cell: a button, with its `data-proof`, or "Final".
pub data Action : Type 0 where
  record_playback : String → Action
  final : Action

pub record HoldRow : Type 0 where
  pub id : String
  pub campaign : String
  pub screen : String
  pub amount : ℕ
  pub state : HoldState
  pub action : Action

unfoldable pub action_of : HoldState → String → Action
action_of HoldState.held id = record_playback id
action_of _ id = final

unfoldable pub hold_row : Reservation → HoldRow
unfolding action_of
hold_row r = record {
  id = r.id;
  campaign = r.campaign_id;
  screen = r.screen_id;
  amount = r.cost_micros;
  state = r.state;
  action = action_of r.state r.id;
}

-- Without reservations a text stands in place of the table.
unfoldable pub holds_table : List Reservation → Option (List HoldRow)
unfolding hold_row
holds_table [] = none
holds_table (r ∷ rs) = some (map hold_row (r ∷ rs))
