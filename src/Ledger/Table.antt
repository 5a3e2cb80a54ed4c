-- ===== src/Ledger/Table.antt =====
-- The table of receipts: `ledgerTable` and `recent` of internal/console/web/app.js. A cell holds
-- the texts that it is made of, before they are shortened, cased and escaped.
use afterglow.Prelude.{
  ℕ, Bool, true, false, ◌&&◌, ◌||◌, not, List, [], ◌∷◌, map, String, Option, none, some, str_eq,
  if◌then◌else◌, take, length,
}
use Prim.Native.Nat.{Ordering}
use afterglow.Api.{Status, Delivery, is_exception}
use afterglow.Ledger.{View, ledger, LedgerView, Filter, all, is_recovery, filtered, ledger_results}

-- The words below a decision that needs attention.
pub data Words : Type 0 where
  because : String → Words
  inspect : Words

pub data Last : Type 0 where
  received attempts : ℕ → Last

pub record Row : Type 0 where
  pub link : String  -- `data-delivery`
  pub event : String
  pub screen : String
  pub hold : Option (String × ℕ)  -- the reservation and when it was played
  pub decision : Status
  pub words : Option Words
  pub last : Last

abbrev pub words_of : String → Words
words_of reason = if str_eq reason "" then inspect else because reason

unfoldable pub row : (compact : Bool) → Delivery → Row
row compact d = record {
  link = d.id;
  event = d.event_id;
  screen = d.screen_id;
  hold = if compact then none else some (d.reservation_id, d.played_at);
  decision = d.status;
  words = if not compact && is_exception d.status then some (words_of d.reason) else none;
  last = if compact then received d.received_at else attempts d.attempts;
}

-- The texts that stand in place of an empty table, and the rows of another. The first has a button
-- that clears the filters.
pub data Table : Type 0 where
  no_match nothing_to_recover nothing_yet : Table
  rows : List Row → Table

abbrev pub is_ledger : View → Bool
is_ledger ledger = true
is_ledger _ = false

abbrev pub is_all : Filter → Bool
is_all all = true
is_all _ = false

unfoldable pub ledger_table : (compact : Bool) → LedgerView → List Delivery → Table
unfolding row
ledger_table compact v [] =
    if not (str_eq v.search "") || (not compact && is_ledger v.active && not (is_all v.filter))
    then no_match
    else if is_recovery v.active
    then nothing_to_recover
    else nothing_yet
ledger_table compact v (d ∷ ds) = rows (map (row compact) (d ∷ ds))

-- `recent`, on the overview.
unfoldable pub recent : LedgerView → List Delivery → Table
unfolding ledger_table
recent v deliveries = ledger_table true v (take 3 deliveries)

-- `ledgerResults`: the table of the page that is drawn.
unfoldable pub results_table :
    (String → String) → (String → String → Ordering) → LedgerView → List Delivery → Table
unfolding filtered ledger_results ledger_table
results_table lower collate v deliveries =
    let (at, page) = ledger_results v (filtered lower collate v deliveries) in
    ledger_table false at page.rows

-- The report that "Export matches" writes to a file, and the number that the toast tells.
pub record ReceiptsReport : Type 0 where
  pub observed_at : Option ℕ
  pub filter : Filter
  pub search : String
  pub receipts : List Delivery

unfoldable pub export_receipts :
    (String → String)
    → (String → String → Ordering)
    → Option ℕ
    → LedgerView
    → List Delivery
    → ReceiptsReport × ℕ
unfolding filtered
export_receipts lower collate last_updated v deliveries =
    let receipts = filtered lower collate v deliveries in
    (
      record {
        observed_at = last_updated;
        filter = v.filter;
        search = v.search;
        receipts = receipts;
      },
      length receipts,
    )
