-- ===== src/Overview.antt =====
-- The numbers of the overview and the campaign pages of internal/console/web/app.js: `metrics`,
-- `flow`, the next step of `overview`, `campaignsTable`, `progress` and the balances of
-- `campaigns`. The texts around them and the map are left out.
pub mod Adds
pub mod NetworkMap
pub mod Fits
pub mod Holds
mod Tests
use afterglow.Prelude.{
  ℕ, zero, suc, ◌+◌, ◌-◌, Bool, true, false, ◌||◌, List, [], ◌∷◌, map, ◌==◌, leb, ltb,
  if◌then◌else◌,
}
use afterglow.Api.{Status, accepted, duplicate, quarantined, failed, Campaign, Snapshot, Runtime}
use afterglow.Ledger.{View, intake, recovery, lab}

-- `total(field)`
unfoldable pub total : (Campaign → ℕ) → List Campaign → ℕ
total field [] = 0
total field (c ∷ campaigns) = field c + total field campaigns

-- `(counts.quarantined || 0) + (counts.failed || 0)`
unfoldable pub exceptions : (Status → ℕ) → ℕ
exceptions counts = counts quarantined + counts failed

pub record Metrics : Type 0 where
  pub settled_spend : ℕ
  pub verified_plays : ℕ
  pub duplicates : ℕ
  pub attention : ℕ
  pub awaiting : ℕ

unfoldable pub metrics : Snapshot → Metrics
unfolding total exceptions
metrics s = record {
  settled_spend = total (λ c. c.spent_micros) s.campaigns;
  verified_plays = s.counts Status.settled;
  duplicates = s.counts duplicate;
  attention = exceptions s.counts;
  awaiting = s.counts accepted;
}

-- `Object.values(counts).reduce((a, n) => a + n, 0)`
abbrev pub sum_counts : (Status → ℕ) → ℕ
sum_counts counts =
    counts accepted + counts Status.settled + counts duplicate + counts quarantined + counts failed

pub data FlowState : Type 0 where
  worker_paused cooling_down auditable : FlowState

-- The numbers of the four rows, and what stands below them.
pub record Flow : Type 0 where
  pub receipts : ℕ
  pub pending : ℕ
  pub decided : ℕ
  pub settled : ℕ
  pub warning : Bool
  pub state : FlowState

unfoldable pub flow : Snapshot → Runtime → Flow
flow s runtime = record {
  receipts = sum_counts s.counts;
  pending = s.counts accepted;
  decided = sum_counts s.counts - s.counts accepted;
  settled = s.counts Status.settled;
  warning = runtime.paused || runtime.breaker_open;
  state =
      if runtime.paused
      then worker_paused
      else if runtime.breaker_open
      then cooling_down
      else auditable;
}

-- What the overview says of the queue, and where it sends the reader.
pub data Queue : Type 0 where
  paused : Queue
  waiting : ℕ → Queue
  clear : Queue

pub record NextStep : Type 0 where
  pub queue : Queue
  pub recorded : ℕ  -- the exceptions that the text names, where there are any
  pub link : View

unfoldable pub next_step : Snapshot → Runtime → NextStep
unfolding exceptions
next_step s runtime = record {
  queue =
      if runtime.paused
      then paused
      else if ltb 0 (s.counts accepted)
      then waiting (s.counts accepted)
      else clear;
  recorded = exceptions s.counts;
  link = if runtime.paused then lab else if ltb 0 (exceptions s.counts) then recovery else intake;
}

-- A width in percent: `part / whole * 100`.
pub record Share : Type 0 where
  pub part : ℕ
  pub whole : ℕ

pub record Bar : Type 0 where
  pub spent : Share
  pub held : Share

unfoldable pub progress : Campaign → Bar
progress c = record {
  spent = record { part = c.spent_micros; whole = c.budget_micros };
  held = record { part = c.reserved_micros; whole = c.budget_micros };
}

-- A row of the table of campaigns.
pub record Row : Type 0 where
  pub committed : ℕ
  pub budget : ℕ
  pub bar : Bar
  pub at_cap : Bool

unfoldable pub campaign_row : Campaign → Row
unfolding progress
campaign_row c = record {
  committed = c.spent_micros + c.reserved_micros;
  budget = c.budget_micros;
  bar = progress c;
  at_cap = c.spent_micros + c.reserved_micros == c.budget_micros;
}

-- `budget - spent - reserved` micros, which may be less than none.
pub data Amount : Type 0 where
  plus minus : ℕ → Amount

pub record Balance : Type 0 where
  pub available : Amount
  pub bar : Bar
  pub settled : ℕ
  pub held : ℕ
  pub budget : ℕ

unfoldable pub balance : Campaign → Balance
unfolding progress
balance c = record {
  available =
      if leb (c.spent_micros + c.reserved_micros) c.budget_micros
      then plus (c.budget_micros - c.spent_micros - c.reserved_micros)
      else minus (c.spent_micros + c.reserved_micros - c.budget_micros);
  bar = progress c;
  settled = c.spent_micros;
  held = c.reserved_micros;
  budget = c.budget_micros;
}
