-- ===== src/Ledger.antt =====
-- The delivery ledger and the recovery queue of internal/console/web/app.js: which rows a search
-- and a filter leave, their order, the pages of twenty, and the handlers that move between them.
-- `String.prototype.toLowerCase` and `localeCompare` read Unicode tables: they are parameters.
pub mod Rows
pub mod Counts
pub mod Pages
pub mod Table
pub mod Telling
mod Tests
use Prim.Native.Nat.{compare, Ordering}
use text.Mathlib.Text.{find?}
use afterglow.Prelude.{
  ℕ, ◌+◌, ◌-◌, ◌*◌, ◌/◌, min, max, Bool, true, false, ◌&&◌, ◌||◌, not, List, [], ◌∷◌, String, leb,
  ◌==◌, if◌then◌else◌, length, take, drop, any, filter as keep, is_some,
}
use afterglow.Api.{Status, Delivery, same_status, is_exception}

-- The keys of `views`.
pub data View : Type 0 where
  foot_traffic assurance proof intake overview campaigns ledger recovery lab architecture : View

pub data Filter : Type 0 where
  all : Filter
  only : Status → Filter

pub data Sort : Type 0 where
  newest oldest : Sort

pub record LedgerView : Type 0 where
  pub active : View
  pub filter : Filter
  pub search : String
  pub page : ℕ
  pub sort : Sort

abbrev pub is_recovery : View → Bool
is_recovery recovery = true
is_recovery _ = false

-- `filter === "all" || d.status === filter`
unfoldable pub passes : Filter → Delivery → Bool
passes all d = true
passes (only s) d = same_status d.status s

unfoldable pub in_view : View → Filter → Delivery → Bool
unfolding passes
in_view active f d = if is_recovery active then is_exception d.status && passes f d else passes f d

-- One step of a stable sort whose comparison answers "not after" by `before`.
unfoldable pub insert : (Delivery → Delivery → Bool) → Delivery → List Delivery → List Delivery
insert before d [] = d ∷ []
insert before d (e ∷ rows) =
    let rest = insert before d rows in if before d e then d ∷ e ∷ rows else e ∷ rest

unfoldable pub sort_rows : (Delivery → Delivery → Bool) → List Delivery → List Delivery
unfolding insert
sort_rows before [] = []
sort_rows before (d ∷ rows) = insert before d (sort_rows before rows)

-- `x || y` on the signs of two comparisons.
abbrev pub or_else : Ordering → Ordering → Ordering
or_else Ordering.eq o = o
or_else o _ = o

abbrev pub not_gt : Ordering → Bool
not_gt Ordering.gt = false
not_gt _ = true

module _ (lower : String → String) where
  unfoldable pub found : String → String → Bool
  found search text = is_some (find? (lower text) (lower search))

  unfoldable pub matches : LedgerView → Delivery → Bool
  unfolding in_view found
  matches v d =
      in_view v.active v.filter d
      && any (found v.search) (d.id ∷ d.event_id ∷ d.screen_id ∷ d.reservation_id ∷ d.reason ∷ [])

module _ (collate : String → String → Ordering) where
  unfoldable pub before : Sort → Delivery → Delivery → Bool
  before oldest a b = not_gt (or_else (compare a.received_at b.received_at) (collate a.id b.id))
  before newest a b = not_gt (or_else (compare b.received_at a.received_at) (collate a.id b.id))

module _ (lower : String → String) (collate : String → String → Ordering) where
  unfoldable pub filtered : LedgerView → List Delivery → List Delivery
  unfolding matches before sort_rows
  filtered v deliveries = sort_rows (before collate v.sort) (keep (matches lower v) deliveries)

-- What one render of the results shows, with the buttons' `disabled`.
pub record Page : Type 0 where
  pub rows : List Delivery
  pub start : ℕ
  pub total : ℕ
  pub number : ℕ
  pub pages : ℕ
  pub previous_disabled : Bool
  pub next_disabled : Bool

-- `Math.max(1, Math.ceil(n / 20))`
unfoldable pub page_count : ℕ → ℕ
page_count n = max 1 ((n + 19) / 20)

-- `rows.slice(start, start + 20)`
unfoldable pub page_rows : List Delivery → ℕ → List Delivery
page_rows rows page = take 20 (drop (page * 20) rows)

-- The clamped page number is written back.
unfoldable pub ledger_results : LedgerView → List Delivery → LedgerView × Page
unfolding page_count page_rows
ledger_results v rows =
    let pages = page_count (length rows) in
    let page = min v.page (pages - 1) in
    (
      record v { page = page },
      record {
        rows = page_rows rows page;
        start = page * 20;
        total = length rows;
        number = page + 1;
        pages = pages;
        previous_disabled = page == 0;
        next_disabled = leb (pages - 1) page;
      },
    )

-- The handlers that touch the ledger's state. A page button hands over its `disabled` as it was
-- rendered.
pub data LedgerEvent : Type 0 where
  sorted : Sort → LedgerEvent
  turned : (next disabled : Bool) → LedgerEvent
  cleared : LedgerEvent
  chosen : Filter → LedgerEvent
  typed : String → LedgerEvent
  navigated : View → LedgerEvent

unfoldable pub handle : LedgerEvent → LedgerView → LedgerView
handle (sorted s) v = record v { sort = s; page = 0 }
handle (turned next true) v = v
handle (turned true false) v = record v { page = v.page + 1 }
handle (turned false false) v = record v { page = v.page - 1 }
handle cleared v = record v { search = ""; filter = all; page = 0 }
handle (chosen f) v = record v { page = 0; filter = f }
handle (typed text) v = record v { search = text; page = 0 }
handle (navigated view) v = record v { search = ""; filter = all; page = 0; active = view }

-- The number beside a filter button.
unfoldable pub option_count : View → Filter → List Delivery → ℕ
unfolding passes
option_count active f deliveries =
    length
      (keep (λ d. (not (is_recovery active) || is_exception d.status) && passes f d) deliveries)
