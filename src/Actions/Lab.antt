-- ===== src/Actions/Lab.antt =====
-- The failure lab: its scenarios, the buttons with a `data-action`, and how they are disabled
-- (`lab`, `button` and `syncActions` of internal/console/web/app.js).
use afterglow.Prelude.{
  Bool, false, ◌||◌, not, List, [], ◌∷◌, String, Option, none, some, str_eq, if◌then◌else◌,
}
use afterglow.Api.{Runtime}
use afterglow.Actions.{Kind, reserve, pause, other, Desk}

-- A card: its number, its name, its `data-action` and the text of its button.
pub record LabCard : Type 0 where
  pub number : String
  pub name : String
  pub action : String
  pub label : String

abbrev pub is_paused : Option Runtime → Bool
is_paused none = false
is_paused (some r) = r.paused

unfoldable pub lab_cards : Option Runtime → List LabCard
lab_cards runtime =
    record {
      number = "01";
      name = "Duplicate delivery";
      action = "duplicate";
      label = "Send five receipts";
    }
    ∷ record {
      number = "02";
      name = "Crash after commit";
      action = "crash";
      label = "Lose the acknowledgement";
    }
    ∷ record {
      number = "03";
      name = "Unsupported schema";
      action = "poison";
      label = "Send schema v99";
    }
    ∷ record {
      number = "04";
      name = "Transient failure";
      action = "retry";
      label = "Inject five failures";
    }
    ∷ record {
      number = "05";
      name = "Worker interruption";
      action = "pause";
      label = if is_paused runtime then "Resume worker" else "Pause worker";
    }
    ∷ record {
      number = "06";
      name = "Concurrent budget pressure";
      action = "budget-race";
      label = "Race 32 reservations";
    }
    ∷ []

-- The tests of `scenario` on the button's action.
unfoldable pub kind_of : String → Kind
kind_of text =
    if str_eq text "reserve" then reserve else if str_eq text "pause" then pause else other text

-- `syncActions`, for every button with an action.
pub record Synced : Type 0 where
  pub disabled : Bool
  pub busy : Bool  -- `aria-busy`

unfoldable pub sync_actions : Desk → Synced
sync_actions d = record {
  disabled = d.busy || not (elim (d.shell.runtime) [ none ↦ false | some r ↦ r.demo ]);
  busy = d.busy;
}
