-- ===== src/Ledger/Tests.antt =====
-- Rows and pages on concrete input.
use Prim.Native.Nat.{compare, Ordering}
use afterglow.Prelude.{
  ◌≡◌, refl, inr, none, Option, ℕ, zero, suc, ◌+◌, true, false, [], ◌∷◌, List, String, arith,
  length,
}
use afterglow.Text.{codes}
use afterglow.Api.{Status, Delivery}
use afterglow.Ledger.{
  LedgerView, recovery, only, oldest, filtered, ledger_results, page_rows, handle, turned, chosen,
  cleared, option_count, page_count, all,
}
use afterglow.Ledger.Table.{ReceiptsReport, export_receipts, nothing_to_recover, results_table}
use afterglow.Ledger.Telling.{Means, results_table-Means}
use afterglow.Ledger.Rows.{IsCollation, Shows, filtered-Shows}
use afterglow.Ledger.Pages.{
  export_receipts-pages, first_pages, first_pages_all, InRange, ledger_results-InRange,
  next_then_previous,
}
use afterglow.Ledger.Counts.{option_count-filtered}

abbrev as_it_is : String → String
as_it_is s = s

abbrev by_length : String → String → Ordering
by_length a b = compare (length (codes a)) (length (codes b))

by_length-IsCollation : IsCollation by_length
by_length-IsCollation = record { total = λ a b h. ground arith; trans = λ a b c h k. ground arith }

abbrev delivery : String → Status → ℕ → Delivery
delivery id status at = record {
  id = id;
  schema_version = 1;
  event_id = "e";
  reservation_id = "r";
  screen_id = "s";
  played_at = 0;
  duration_ms = 10000;
  status = status;
  reason = "on_time";
  received_at = at;
  attempts = 1;
}

abbrev deliveries : List Delivery
deliveries =
    delivery "d1" Status.settled 5
    ∷ delivery "d2" Status.failed 9
    ∷ delivery "d3" Status.failed 7
    ∷ []

abbrev view : LedgerView
view = record {
  active = recovery;
  filter = only Status.failed;
  search = "time";
  page = 3;
  sort = oldest;
}

filtered-Shows_example :
    Shows as_it_is by_length view deliveries (filtered as_it_is by_length view deliveries)
filtered-Shows_example = filtered-Shows as_it_is by_length by_length-IsCollation view deliveries

oldest_failure_first :
    filtered as_it_is by_length view deliveries
    ≡ delivery "d3" Status.failed 7 ∷ delivery "d2" Status.failed 9 ∷ []
unfolding filtered
oldest_failure_first = refl

option_count-filtered_example :
    option_count recovery (only Status.failed) deliveries
    ≡ length (
        filtered as_it_is by_length
          (handle (chosen (only Status.failed)) (handle cleared view))
          deliveries)
option_count-filtered_example =
    option_count-filtered as_it_is by_length refl view (only Status.failed) deliveries

three_on_one_page : first_pages deliveries (page_count (length deliveries)) ≡ deliveries
three_on_one_page = first_pages_all deliveries

ledger_results-InRange_example :
    InRange (ledger_results view deliveries).0 (ledger_results view deliveries).1
ledger_results-InRange_example = ledger_results-InRange view deliveries

abbrev copies : ℕ → List Delivery
copies zero = []
copies (suc n) = delivery "d" Status.settled n ∷ copies n

abbrev first_page : LedgerView
first_page = record view { page = 0 }

there_and_back :
    let (at, page) = ledger_results first_page (copies 30) in
    let (there, after) = ledger_results (handle (turned true false) at) (copies 30) in
    (after.start ≡ page.start + 20)
    × (after.rows ≡ page_rows (copies 30) (at.page + 1))
    × (after.previous_disabled ≡ false)
    × ((ledger_results (handle (turned false false) there) (copies 30)).1 ≡ page)
unfolding ledger_results
there_and_back = next_then_previous first_page (copies 30) refl

results_table-Means_example :
    Means as_it_is by_length refl view deliveries (results_table as_it_is by_length view deliveries)
results_table-Means_example = results_table-Means as_it_is by_length refl view deliveries (inr refl)

abbrev quarantined_only : LedgerView
quarantined_only = record view { filter = only Status.quarantined; search = "" }

-- With the filter for quarantined receipts, the recovery queue says that nothing needs recovery,
-- although two receipts have failed.
two_are_left :
    (results_table as_it_is by_length quarantined_only deliveries ≡ nothing_to_recover)
    × (option_count recovery all deliveries ≡ 2)
unfolding results_table option_count
two_are_left = (refl, refl)

abbrev of_test : Option ℕ → ReceiptsReport × ℕ
of_test at = export_receipts as_it_is by_length at view deliveries

export_receipts-pages_example :
    let found = filtered as_it_is by_length view deliveries in
    let page = (ledger_results view found).1 in
    ((of_test none).0.receipts ≡ first_pages found page.pages)
    × ((of_test none).0.filter ≡ view.filter)
    × ((of_test none).0.search ≡ view.search)
    × ((of_test none).1 ≡ page.total)
export_receipts-pages_example = export_receipts-pages as_it_is by_length none view deliveries
