-- ===== src/Api.antt =====
-- The values that the console reads from and sends to the Go service, as the JSON field names of
-- internal/core/model.go and internal/core/assurance.go give them. Coordinates are left out: the
-- console uses them only to draw the map.
use afterglow.Prelude.{ℕ, Bool, true, false, List, String, ◌+◌, leb}

pub data Status : Type 0 where
  accepted settled duplicate quarantined failed : Status

pub data HoldState : Type 0 where
  held : HoldState
  settled : HoldState
  released : HoldState

pub record Campaign : Type 0 where
  pub id : String
  pub name : String
  pub budget_micros : ℕ
  pub reserved_micros : ℕ
  pub spent_micros : ℕ

pub record Screen : Type 0 where
  pub id : String
  pub name : String
  pub market : String
  pub format : String

pub record ReservationInput : Type 0 where
  pub campaign_id : String
  pub screen_id : String
  pub cost_micros : ℕ

pub record Reservation : Type 0 where
  pub id : String
  pub campaign_id : String
  pub screen_id : String
  pub cost_micros : ℕ
  pub state : HoldState
  pub created_at : ℕ
  pub expires_at : ℕ

pub record Delivery : Type 0 where
  pub id : String
  pub schema_version : ℕ
  pub event_id : String
  pub reservation_id : String
  pub screen_id : String
  pub played_at : ℕ
  pub duration_ms : ℕ
  pub status : Status
  pub reason : String
  pub received_at : ℕ
  pub attempts : ℕ

-- A status that the server's map leaves out counts as 0, as `counts.x || 0` reads it.
pub record Snapshot : Type 0 where
  pub campaigns : List Campaign
  pub screens : List Screen
  pub reservations : List Reservation
  pub deliveries : List Delivery
  pub counts : Status → ℕ

pub record Runtime : Type 0 where
  pub demo : Bool
  pub can_reset : Bool
  pub paused : Bool
  pub breaker_open : Bool
  pub storage : String
  pub transport : String

-- `c.budget_micros - c.spent_micros - c.reserved_micros >= cost`, over the integers.
unfoldable pub affords : ℕ → Campaign → Bool
affords cost c = leb (cost + c.spent_micros + c.reserved_micros) c.budget_micros

abbrev pub same_status : Status → Status → Bool
same_status accepted accepted = true
same_status Status.settled Status.settled = true
same_status duplicate duplicate = true
same_status quarantined quarantined = true
same_status failed failed = true
same_status _ _ = false

-- `["quarantined", "failed"].includes(s)`
abbrev pub is_exception : Status → Bool
is_exception quarantined = true
is_exception failed = true
is_exception _ = false
