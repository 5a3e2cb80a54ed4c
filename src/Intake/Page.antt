-- ===== src/Intake/Page.antt =====
-- What the intake page shows: `results` and `update` of internal/console/web/intake.js.
use afterglow.Prelude.{
  ℕ, ◌+◌, Bool, ◌&&◌, ◌||◌, not, List, map, String, Option, none, some, ◌==◌, if◌then◌else◌,
  is_some,
}
use afterglow.Price.{PriceError}
use afterglow.Intake.{Kind, Panel, Notice, ItemResult, price_disabled}

-- What the partner is to do about an item.
pub data Advice : Type 0 where
  retry_unchanged check_ledger resolve_problem : Advice

pub record ResultRow : Type 0 where
  pub number : ℕ
  pub status : ℕ
  pub replayed : Bool
  pub detail : String
  pub receipt : Option String
  pub advice : Advice

unfoldable pub advice : ItemResult → Advice
advice r =
    if r.retryable
    then retry_unchanged
    else if r.status == 202
    then check_ledger
    else resolve_problem

unfoldable pub result_row : ItemResult → ResultRow
unfolding advice
result_row r = record {
  number = r.index + 1;
  status = r.status;
  replayed = r.replayed;
  detail = r.detail;
  receipt = r.id;
  advice = advice r;
}

pub data Results : Type 0 where
  none_yet : Results
  answered : (http accepted rejected replayed : ℕ) → List ResultRow → Results

unfoldable pub results : Panel → Results
unfolding result_row
results p = elim (p.result) [
  | none ↦ none_yet
  | some r ↦ answered p.http_status r.accepted r.rejected r.replayed (map result_row r.results)
]

-- The elements that `update` sets.
pub record Controls : Type 0 where
  pub status : Notice
  pub results : Results
  pub payload_disabled : Bool
  pub example_disabled : Bool
  pub price_error : Option PriceError
  pub price_invalid : Bool
  pub price_disabled : Bool
  pub explained : Kind
  pub example_label : String
  pub buttons_disabled : Bool  -- "Load example" and "Send batch"
  pub submit_label : String

unfoldable pub update : (demo : Bool) → Panel → Controls
unfolding results price_disabled
update demo p = record {
  status = p.notice;
  results = results p;
  payload_disabled = p.pending;
  example_disabled = p.pending;
  price_error = p.price_error;
  price_invalid = is_some p.price_error;
  price_disabled = price_disabled p;
  explained = p.kind;
  example_label = if p.preparing then "Preparing…" else "Load example";
  buttons_disabled = p.pending || not demo;
  submit_label = if p.pending && not p.preparing then "Sending…" else "Send batch →";
}
