-- ===== src/Ledger/Counts.antt =====
-- The number beside each filter button.
use Prim.Native.Nat.{Ordering}
use Prim.Native.String.{find}
use Prim.Native.String.find
use text.Mathlib.Text.{find?}
use afterglow.Prelude.{
  ◌≡◌, refl, ◌∙◌, suc, String, Bool, true, ◌&&◌, ◌||◌, sym, List, [], ◌∷◌, arith, length, filter,
  is_some, ap, not,
}
use afterglow.Api.{Delivery, is_exception}
use afterglow.Ledger.{
  LedgerView, Filter, insert, sort_rows, before, filtered, matches, passes, found, option_count,
  is_recovery, handle, chosen, cleared,
}

-- An empty search is found in every text.
find-empty : (s : String) → find s "" ≡ 0
find-empty String.[] = refl
find-empty (String.◌∷◌ c s) = find.cons c s ""

find?-empty : (s : String) → is_some (find? s "") ≡ true
find?-empty s = rw (find-empty s) (ground (arith))

length-insert :
    (le : Delivery → Delivery → Bool) (d : Delivery) (rows : List Delivery)
    → length (insert le d rows) ≡ length (d ∷ rows)
unfolding insert
length-insert le d [] = refl
length-insert le d (e ∷ rows) = ground (arith, length-insert le d rows)

length-sort_rows :
    (le : Delivery → Delivery → Bool) (rows : List Delivery)
    → length (sort_rows le rows) ≡ length rows
unfolding sort_rows
length-sort_rows le [] = refl
length-sort_rows le (d ∷ rows) =
    length-insert le d (sort_rows le rows) ∙ ap suc (length-sort_rows le rows)

filter-congr :
    (p q : Delivery → Bool) (rows : List Delivery)
    → ((d : Delivery) → p d ≡ q d)
    → filter p rows ≡ filter q rows
filter-congr p q [] h = refl
filter-congr p q (d ∷ rows) h = ground (arith, h d, filter-congr p q rows)

module _ (lower : String → String) (collate : String → String → Ordering)
    (empty : lower "" ≡ "") where
  found_everywhere : (text : String) → found lower "" text ≡ true
  unfolding found
  found_everywhere text = rw empty (find?-empty (lower text))

  matches_without_search :
      (v : LedgerView) (d : Delivery)
      → v.search ≡ ""
      → matches lower v d
        ≡ ((not (is_recovery v.active) || is_exception d.status) && passes v.filter d)
  unfolding matches
  matches_without_search v d e = rw e (rw (found_everywhere d.id) (ground arith))

  -- The number beside a filter button is the number of rows that choosing it shows once the
  -- filters are cleared, in the ledger and in the recovery queue alike.
  pub option_count-filtered :
      (v : LedgerView) (f : Filter) (deliveries : List Delivery)
      → option_count v.active f deliveries
        ≡ length (filtered lower collate (handle (chosen f) (handle cleared v)) deliveries)
  unfolding option_count filtered handle
  option_count-filtered v f deliveries =
      let w = record v { search = ""; filter = f; page = 0 } in
      sym (
        length-sort_rows (before collate w.sort) (filter (matches lower w) deliveries)
        ∙ ap length
            (filter-congr (matches lower w) _ deliveries (λ d. matches_without_search w d refl)))
