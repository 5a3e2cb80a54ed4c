-- ===== src/Overview/Adds.antt =====
-- The numbers on the overview and the campaign pages agree with each other.
use afterglow.Prelude.{
  ℕ, map, false, ltb, ◌≡◌, refl, ◌↔◌, ◌+◌, ◌≤◌, Bool, true, List, [], ◌∷◌, arith, All, Bool-cases,
  inl, inr, leb, ==_iff,
}
use afterglow.Api.{Campaign, Snapshot, Runtime, accepted, quarantined, failed}
use afterglow.Ledger.{View, recovery, lab, intake}
use afterglow.Overview.{
  FlowState, worker_paused, cooling_down, auditable, Queue, paused, waiting, clear, metrics,
  Metrics, flow, Flow, next_step, NextStep, exceptions, total, Bar, progress, campaign_row, plus,
  minus, Balance, balance,
}

-- What the service keeps: no more is spent and held than the budget, which is not zero.
pub record IsFunded (c : Campaign) : Type 0 where
  pub budget : 1 ≤ c.budget_micros
  pub committed : c.spent_micros + c.reserved_micros ≤ c.budget_micros

-- The bar of a campaign: first what is settled and then what is held, as parts of the budget, which
-- they fill exactly where the campaign is at its cap.
pub record IsDrawn (c : Campaign) (b : Bar) (at_cap : Bool) : Type 0 where
  pub spent : (b.spent.part ≡ c.spent_micros) × (b.spent.whole ≡ c.budget_micros)
  pub held : (b.held.part ≡ c.reserved_micros) × (b.held.whole ≡ c.budget_micros)
  pub full : (at_cap ≡ true) ↔ (b.spent.part + b.held.part ≡ b.spent.whole)

-- What is available makes up the budget with what is settled and held.
abbrev pub MakesUp : Balance → Type 0
MakesUp b = elim (b.available) [ plus n ↦ n + b.settled + b.held ≡ b.budget | minus n ↦ ⊥ ]

-- The row and the balance of a campaign agree with each other.
pub record IsRight (c : Campaign) : Type 0 where
  pub bar : IsDrawn c (campaign_row c).bar (campaign_row c).at_cap
  pub same_bar : (balance c).bar ≡ (campaign_row c).bar
  pub committed : (campaign_row c).committed ≡ (balance c).settled + (balance c).held
  pub same_budget : (balance c).budget ≡ (campaign_row c).budget
  pub settled : (balance c).settled ≡ (campaign_row c).bar.spent.part
  pub held : (balance c).held ≡ (campaign_row c).bar.held.part
  pub balance : MakesUp (balance c)

-- Where the next step leads: to the lab that resumes a paused dispatcher, else to the recovery queue
-- where something needs attention, and else to the intake.
abbrev pub Leads : Runtime → Metrics → View → Type 0
Leads runtime m lab = runtime.paused ≡ true
Leads runtime m recovery = (runtime.paused ≡ false) × (1 ≤ m.attention)
Leads runtime m intake = (runtime.paused ≡ false) × (m.attention ≡ 0)
Leads runtime m view = ⊥

-- What is said of the queue: that it is paused, how many wait, or that it is clear.
abbrev pub Says : Runtime → Metrics → Queue → Type 0
Says runtime m paused = runtime.paused ≡ true
Says runtime m (waiting n) = (runtime.paused ≡ false) × (n ≡ m.awaiting) × (1 ≤ n)
Says runtime m clear = (runtime.paused ≡ false) × (m.awaiting ≡ 0)

-- What stands below the flow: the first that holds of a paused worker and an open breaker, with a
-- warning, or that all can be audited.
abbrev pub Warns : Runtime → Bool → FlowState → Type 0
Warns runtime warning worker_paused = (warning ≡ true) × (runtime.paused ≡ true)
Warns runtime warning cooling_down =
    (warning ≡ true) × (runtime.paused ≡ false) × (runtime.breaker_open ≡ true)
Warns runtime warning auditable =
    (warning ≡ false) × (runtime.paused ≡ false) × (runtime.breaker_open ≡ false)

pub record AddsUp (runtime : Runtime) (m : Metrics) (f : Flow) (n : NextStep) : Type 0 where
  pub receipts : f.pending + f.decided ≡ f.receipts
  pub decided : m.verified_plays + m.duplicates + m.attention ≡ f.decided
  pub pending : m.awaiting ≡ f.pending
  pub settled : m.verified_plays ≡ f.settled
  pub recorded : n.recorded ≡ m.attention
  pub warns : Warns runtime f.warning f.state
  pub leads : Leads runtime m n.link
  pub says : Says runtime m n.queue

MakesUp-balance : (c : Campaign) → IsFunded c → MakesUp (balance c)
unfolding balance
MakesUp-balance c h = elim (Bool-cases (leb (c.spent_micros + c.reserved_micros) c.budget_micros)) [
  | inl covered ↦ rw covered (omega (arith, h.committed))
  | inr over ↦ ground (arith, h.committed)
]

campaign_row-IsRight : (c : Campaign) → IsFunded c → IsRight c
unfolding campaign_row progress balance
campaign_row-IsRight c h = record {
  bar = record {
    spent = (refl, refl);
    held = (refl, refl);
    full = ==_iff (c.spent_micros + c.reserved_micros) c.budget_micros;
  };
  same_bar = refl;
  committed = refl;
  same_budget = refl;
  settled = refl;
  held = refl;
  balance = MakesUp-balance c h;
}

All-IsRight : (campaigns : List Campaign) → All IsFunded campaigns → All IsRight campaigns
All-IsRight [] h = tt
All-IsRight (c ∷ campaigns) (h, hs) = (campaign_row-IsRight c h, All-IsRight campaigns hs)

-- The sum of a list.
abbrev pub added : List ℕ → ℕ
added [] = 0
added (n ∷ ns) = n + added ns

total-added :
    (campaigns : List Campaign)
    → total (λ c. c.spent_micros) campaigns
      ≡ added (map (λ c. (campaign_row c).bar.spent.part) campaigns)
unfolding total campaign_row progress
total-added [] = refl
total-added (c ∷ campaigns) = omega (arith, total-added campaigns)

total-le :
    (campaigns : List Campaign)
    → All IsFunded campaigns
    → total (λ c. c.spent_micros) campaigns ≤ added (map (λ c. (campaign_row c).budget) campaigns)
unfolding total campaign_row
total-le [] h = omega arith
total-le (c ∷ campaigns) (h, hs) =
    let rest = total-le campaigns hs in let own = h.committed in omega arith

link-Leads :
    (s : Snapshot) (runtime : Runtime) → Leads runtime (metrics s) (next_step s runtime).link
unfolding metrics next_step exceptions
link-Leads s runtime = elim (Bool-cases runtime.paused) [
  | inl stopped ↦ rw stopped refl
  | inr running ↦ elim (Bool-cases (ltb 0 (s.counts quarantined + s.counts failed))) [
    | inl some_left ↦ rw (running, some_left) (refl, ground arith)
    | inr none_left ↦ rw (running, none_left) (refl, ground arith)
  ]
]

queue-Says :
    (s : Snapshot) (runtime : Runtime) → Says runtime (metrics s) (next_step s runtime).queue
unfolding metrics next_step
queue-Says s runtime = elim (Bool-cases runtime.paused) [
  | inl stopped ↦ rw stopped refl
  | inr running ↦ elim (Bool-cases (ltb 0 (s.counts accepted))) [
    | inl some_wait ↦ rw (running, some_wait) (refl, refl, ground arith)
    | inr none_wait ↦ rw (running, none_wait) (refl, ground arith)
  ]
]

flow-Warns :
    (s : Snapshot) (runtime : Runtime)
    → Warns runtime (flow s runtime).warning (flow s runtime).state
unfolding flow
flow-Warns s runtime = elim (Bool-cases runtime.paused) [
  | inl stopped ↦ rw stopped (refl, refl)
  | inr running ↦ elim (Bool-cases runtime.breaker_open) [
    | inl cooling ↦ rw (running, cooling) (refl, refl, refl)
    | inr sound ↦ rw (running, sound) (refl, refl, refl)
  ]
]

counts_add :
    (s : Snapshot) (runtime : Runtime)
    → AddsUp runtime (metrics s) (flow s runtime) (next_step s runtime)
unfolding metrics flow next_step exceptions
counts_add s runtime = record {
  receipts = omega arith;
  decided = omega arith;
  pending = refl;
  settled = refl;
  recorded = refl;
  warns = flow-Warns s runtime;
  leads = link-Leads s runtime;
  says = queue-Says s runtime;
}

-- Over campaigns that keep to budgets above zero. The counts on the overview agree: the receipts
-- are those that wait and those that are decided, and the decided are the verified plays, the
-- duplicates and the ones that need attention. The text says that the dispatcher is paused, or how
-- many receipts wait, or that none does; below the flow stands that the worker is paused, else that
-- the breaker is open, each with a warning, and else that all can be audited; and the link leads to
-- the lab where the dispatcher is paused, else to the recovery queue exactly where something needs
-- attention, and else to the intake. For each campaign both bars show what is settled and what is
-- held of its budget, fill it exactly where the row says that the cap is reached, and agree with the
-- balance, whose available amount makes up the budget with what is settled and held. The settled
-- spend is the sum of the settled bars of all campaigns, and within their budgets together.
pub overview-AddsUp :
    (s : Snapshot) (runtime : Runtime)
    → All IsFunded s.campaigns
    → AddsUp runtime (metrics s) (flow s runtime) (next_step s runtime)
      × All IsRight s.campaigns
      × ((metrics s).settled_spend ≡ added (map (λ c. (campaign_row c).bar.spent.part) s.campaigns))
      × ((metrics s).settled_spend ≤ added (map (λ c. (campaign_row c).budget) s.campaigns))
unfolding metrics
overview-AddsUp s runtime h = (
  counts_add s runtime,
  All-IsRight s.campaigns h,
  total-added s.campaigns,
  total-le s.campaigns h,
)
