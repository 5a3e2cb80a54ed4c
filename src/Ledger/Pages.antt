-- ===== src/Ledger/Pages.antt =====
-- The pages of the ledger: none of the rows is lost or shown twice, and the page number stays in
-- range under every handler.
use Prim.Native.Nat.{Ordering}
use afterglow.Prelude.{
  String, Option, ◌≡◌, refl, sym, ap, ◌∙◌, ℕ, zero, suc, ◌+◌, ◌-◌, ◌*◌, ◌≤◌, ◌<◌, min, true, false,
  List, [], ◌∷◌, ◌++◌, arith, length, take, drop, length-take, length-drop,
}
use native.Mathlib.Nat.{zero-add, suc-add}
use afterglow.Api.{Delivery}
use afterglow.Ledger.Table.{export_receipts}
use afterglow.Ledger.{
  filtered, LedgerView, turned, Page, page_count, page_rows, ledger_results, handle,
}

module _ {ℓ} {A : Type ℓ} where
  take_nil : (n : ℕ) → take {A = A} n [] ≡ []
  take_nil zero = refl
  take_nil (suc n) = refl

  take-add : (m n : ℕ) (xs : List A) → take (m + n) xs ≡ take m xs ++ take n (drop m xs)
  take-add zero n xs = rw zero-add refl
  take-add (suc m) n [] = rw suc-add (sym (take_nil n))
  take-add (suc m) n (x ∷ xs) = rw (suc-add) (ap (λ t. x ∷ t) (take-add m n xs))

  take_all : (n : ℕ) (xs : List A) → length xs ≤ n → take n xs ≡ xs
  take_all zero [] h = refl
  take_all zero (x ∷ xs) h = absurd (omega arith)
  take_all (suc n) [] h = refl
  take_all (suc n) (x ∷ xs) h = ap (λ t. x ∷ t) (take_all n xs (omega arith))

-- The rows of the first `n` pages, one after the other.
abbrev pub first_pages : List Delivery → ℕ → List Delivery
first_pages rows zero = []
first_pages rows (suc n) = first_pages rows n ++ page_rows rows n

first_pages-take : (rows : List Delivery) (n : ℕ) → first_pages rows n ≡ take (n * 20) rows
unfolding page_rows
first_pages-take rows zero = refl
first_pages-take rows (suc n) =
    ap (λ t. t ++ take 20 (drop (n * 20) rows)) (first_pages-take rows n)
    ∙ sym (take-add (n * 20) 20 rows)
    ∙ ap (λ k. take k rows) (omega arith)

page_count-covers : (n : ℕ) → n ≤ page_count n * 20
unfolding page_count
page_count-covers n = omega arith

-- The pages in order are the rows: none is lost, repeated or moved, whatever their number.
pub first_pages_all : (rows : List Delivery) → first_pages rows (page_count (length rows)) ≡ rows
first_pages_all rows =
    first_pages-take rows (page_count (length rows))
    ∙ take_all _ rows (page_count-covers (length rows))

-- How a page and its footer agree with the page number that is written back.
pub record InRange (v : LedgerView) (p : Page) : Type 0 where
  pub page_exists : v.page < p.pages
  pub number_shown : p.number ≡ v.page + 1
  pub starts : p.start ≡ v.page * 20
  pub counted : length p.rows ≡ min (p.start + 20) p.total - p.start
  pub at_most : length p.rows ≤ 20
  pub some_row : 0 < p.total → 0 < length p.rows

-- Whatever page number is held and whatever the rows, the page written back exists, is the one
-- that the footer numbers, starts at its twenty, holds as many rows as the footer counts and at
-- most twenty, and has a row where there is any row at all.
pub ledger_results-InRange :
    (v : LedgerView) (rows : List Delivery)
    → InRange (ledger_results v rows).0 (ledger_results v rows).1
unfolding ledger_results
ledger_results-InRange v rows =
    let page = min v.page (page_count (length rows) - 1) in
    let shown = length-take 20 (drop (page * 20) rows) in
    let left = length-drop (page * 20) rows in
    record {
      page_exists = omega arith;
      number_shown = omega arith;
      starts = omega arith;
      counted = omega (arith, shown, left);
      at_most = omega (arith, shown, left);
      some_row = λ h. omega (arith, shown, left);
    }

-- Pressing Next on a page where it is enabled shows the page after it, twenty rows further on;
-- pressing Previous there shows the page that was left.
pub next_then_previous :
    (v : LedgerView) (rows : List Delivery)
    → let (at, page) = ledger_results v rows in
      page.next_disabled ≡ false
      → let (there, after) = ledger_results (handle (turned true false) at) rows in
        (after.start ≡ page.start + 20)
        × (after.rows ≡ page_rows rows (at.page + 1))
        × (after.previous_disabled ≡ false)
        × ((ledger_results (handle (turned false false) there) rows).1 ≡ page)
unfolding handle ledger_results
next_then_previous v rows h =
    let k = min v.page (page_count (length rows) - 1) in
    let within : min (k + 1) (page_count (length rows) - 1) ≡ k + 1 = ground arith in
    let back : min (k + 1 - 1) (page_count (length rows) - 1) ≡ k = ground arith in
    rw within (omega arith, refl, ground arith, rw back refl)

-- The export holds the rows of all pages of the results that are on screen, in their order, with
-- the filter and the search in force; and the toast tells as many as the footer.
pub export_receipts-pages :
    (lower : String → String) (collate : String → String → Ordering) (at : Option ℕ)
    (v : LedgerView) (deliveries : List Delivery)
    → let found = filtered lower collate v deliveries in
      let (report, told) = export_receipts lower collate at v deliveries in
      let page = (ledger_results v found).1 in
      (report.receipts ≡ first_pages found page.pages)
      × (report.filter ≡ v.filter)
      × (report.search ≡ v.search)
      × (told ≡ page.total)
unfolding export_receipts ledger_results
export_receipts-pages lower collate at v deliveries =
    (sym (first_pages_all (filtered lower collate v deliveries)), refl, refl, refl)
