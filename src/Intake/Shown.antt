-- ===== src/Intake/Shown.antt =====
-- What the controls and the results of the intake page show.
use afterglow.Prelude.{
  Option, none, Pairs, Pairs-map, ◌≢◌, suc, ◌≡◌, ◌↔◌, ◌⊎◌, refl, ap, ℕ, Bool, true, false, ◌||◌,
  ◌&&◌, not, List, [], ◌∷◌, String, some, arith, Option-cases, inl, inr, if◌then◌else◌, is_some,
}
use afterglow.Price.{PriceError}
use afterglow.Intake.{
  Plan, Panel, Task, sending, Json, ItemResult, BatchResult, price_disabled, is_uncertain,
}
use afterglow.Intake.Commands.{got_batch, resume}
use afterglow.Intake.Steps.{World, Reach}
use afterglow.Intake.Single.{IsSingle, Matches, Out-pending, Reach-IsSingle}
use afterglow.Intake.Labels.{prepares, IsLabelled, Reach-IsLabelled}
use afterglow.Intake.Page.{
  advice, result_row, ResultRow, retry_unchanged, check_ledger, resolve_problem, Results, none_yet,
  answered, results, Controls, update,
}

-- A row of the results: the item's number from one, its status, and what the partner is to do.
pub record IsRowOf (r : ItemResult) (row : ResultRow) : Type 0 where
  pub number : row.number ≡ suc r.index
  pub status : row.status ≡ r.status
  pub replayed : row.replayed ≡ r.replayed
  pub words : (row.detail ≡ r.detail) × (row.receipt ≡ r.id)
  pub transient : r.retryable ≡ true → row.advice ≡ retry_unchanged
  pub durable : r.retryable ≡ false → r.status ≡ 202 → row.advice ≡ check_ledger
  pub resolved : r.retryable ≡ false → r.status ≢ 202 → row.advice ≡ resolve_problem

-- The results of an answer: its status and counts, and one row for each item, in order.
abbrev pub AreOf : ℕ → BatchResult → Results → Type 0
AreOf status r none_yet = ⊥
AreOf status r (answered http accepted rejected replayed rows) =
    (http ≡ status)
    × (accepted ≡ r.accepted)
    × (rejected ≡ r.rejected)
    × (replayed ≡ r.replayed)
    × Pairs IsRowOf r.results rows

row-IsRowOf : (r : ItemResult) → IsRowOf r (result_row r)
unfolding result_row advice
row-IsRowOf r = record {
  number = omega arith;
  status = refl;
  replayed = refl;
  words = (refl, refl);
  transient = λ h. rw h refl;
  durable = λ h e. ground arith;
  resolved = λ h e. ground arith;
}

-- The results are those of the answer that is held, if one is.
abbrev pub AreHeld : Panel → Results → Type 0
AreHeld p shown = elim (p.result) [ none ↦ shown ≡ none_yet | some r ↦ AreOf p.http_status r shown ]

results-AreHeld : (p : Panel) → AreHeld p (results p)
unfolding results
results-AreHeld p = elim (Option-cases p.result) [
  | inl nothing ↦ rw nothing refl
  | inr (r, e) ↦ rw e (refl, refl, refl, refl, Pairs-map IsRowOf result_row row-IsRowOf r.results)
]

-- The request for the plan is unsettled: it is not known whether its budget is held.
abbrev pub IsUnsettled : Option Plan → Type 0
IsUnsettled none = ⊥
IsUnsettled (some plan) = plan.hold ≡ none

is_uncertain-IsUnsettled :
    (free : Bool) (plan : Option Plan)
    → (not free || is_uncertain plan ≡ true) ↔ ((free ≡ false) ⊎ IsUnsettled plan)
is_uncertain-IsUnsettled false plan = (λ h. inl refl, λ h. refl)
is_uncertain-IsUnsettled true none =
    (λ h. absurd (ground arith), λ h. elim h [ inl e ↦ absurd (ground arith) | inr u ↦ absurd u ])
is_uncertain-IsUnsettled true (some plan) = elim (Option-cases plan.hold) [
  | inl nothing ↦ (λ h. inr nothing, λ h. rw nothing refl)
  | inr (r, e) ↦ (
    λ h. absurd (ground arith),
    λ h. elim h [ inl f ↦ absurd (ground arith) | inr u ↦ absurd (ground arith) ],
  )
]

is_some_iff : (e : Option PriceError) → (is_some e ≡ false) ↔ (e ≡ none)
is_some_iff none = (λ h. refl, λ h. refl)
is_some_iff (some e) = (λ h. absurd (ground arith), λ h. ap is_some h)

-- What the controls show: whether no request is out, whether one of "Load example" is, and whether
-- the service is a demo.
pub record IsShown (free prepares demo : Bool) (p : Panel) (c : Controls) : Type 0 where
  pub results : AreHeld p c.results
  pub notice : c.status ≡ p.notice
  pub buttons : c.buttons_disabled ≡ not free || not demo
  pub payload : c.payload_disabled ≡ not free
  pub choice : c.example_disabled ≡ not free
  pub price : (c.price_disabled ≡ true) ↔ ((free ≡ false) ⊎ IsUnsettled p.plan)
  pub refused : c.price_error ≡ p.price_error
  pub marked : (c.price_invalid ≡ false) ↔ (p.price_error ≡ none)
  pub explained : c.explained ≡ p.kind
  pub example : c.example_label ≡ (if prepares then "Preparing…" else "Load example")
  pub submit : c.submit_label ≡ (if not free && not prepares then "Sending…" else "Send batch →")

abbrev pub is_free : List Task → Bool
is_free [] = true
is_free _ = false

shown :
    (demo : Bool) (p : Panel) (tasks : List Task)
    → Matches p tasks
    → IsLabelled (p, tasks)
    → IsShown (is_free tasks) (prepares tasks) demo p (update demo p)
unfolding update price_disabled
shown demo p [] m h = record {
  results = results-AreHeld p;
  notice = refl;
  buttons = rw m refl;
  payload = m;
  choice = m;
  price = rw m (is_uncertain-IsUnsettled true p.plan);
  refused = refl;
  marked = is_some_iff p.price_error;
  explained = refl;
  example = rw h refl;
  submit = rw m refl;
}
shown demo p (t ∷ []) m h =
    let busy = Out-pending p t m in
    record {
      results = results-AreHeld p;
      notice = refl;
      buttons = rw busy refl;
      payload = busy;
      choice = busy;
      price = rw busy (is_uncertain-IsUnsettled false p.plan);
      refused = refl;
      marked = is_some_iff p.price_error;
      explained = refl;
      example = rw h refl;
      submit = rw (busy, h) refl;
    }
shown demo p (t ∷ u ∷ ts) m h = absurd m

-- What an answer to a batch leaves is what the page shows.
answered-AreOf :
    (demo : Bool) (json : Json) (body : String) (status : ℕ) (r : BatchResult) (p : Panel)
    → AreOf status r (update demo (resume json (sending body) (got_batch status r) p).0).results
unfolding update results resume
answered-AreOf demo json body status r p =
    (refl, refl, refl, refl, Pairs-map IsRowOf result_row row-IsRowOf r.results)

-- On every path from a page with no request out: while one is, both buttons, the request body, the
-- choice of an example and the price are disabled, and a text says which: "Preparing…" where it
-- belongs to "Load example", "Sending…" where it belongs to "Send batch" or to the refresh after
-- it. With none out they are enabled, the buttons only in a demo and the price only where no
-- reservation is unsettled, and the texts are the usual ones. The results are those of the answer
-- that is held, if one is: its status and counts, and a row for each item in order, which says to
-- retry a transient failure unchanged, to look into the ledger for an accepted receipt, and to
-- resolve the problem otherwise; and an answer to a batch replaces them by its own.
pub Reach-IsShown :
    (demo : Bool) {json : Json} {w v : World} (body : String) (status : ℕ) (r : BatchResult)
    → Reach json w v
    → IsSingle w.panel w.tasks
    → w.panel.preparing ≡ prepares w.tasks
    → IsShown (is_free v.tasks) (prepares v.tasks) demo v.panel (update demo v.panel)
      × AreOf status r
          (update demo (resume json (sending body) (got_batch status r) v.panel).0).results
Reach-IsShown demo {json} {v} body status r path i h = (
  shown demo v.panel v.tasks (Reach-IsSingle path i).matched (Reach-IsLabelled path i h),
  answered-AreOf demo json body status r v.panel,
)
