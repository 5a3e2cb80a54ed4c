-- ===== src/Ledger/Telling.antt =====
-- What the table of receipts says of the snapshot.
use Prim.Native.Nat.{Ordering}
use mathlib.Core.Path.{subst⁻¹}
use afterglow.Prelude.{
  length-map, eq_iff, ◌≡◌, refl, ◌≤◌, ◌<◌, String, true, false, List, [], ◌∷◌, arith, length, map,
  str_eq, ◌⊎◌, inl, inr, Bool-cases, ◌≢◌, ◌∙◌, sym, ap,
}
use afterglow.Api.{Delivery}
use afterglow.Ledger.{
  LedgerView, ledger, recovery, Filter, all, filtered, option_count, ledger_results, handle,
  cleared, chosen,
}
use afterglow.Ledger.Counts.{option_count-filtered}
use afterglow.Ledger.Pages.{ledger_results-InRange}
use afterglow.Ledger.Table.{
  Row, row, is_all, Table, no_match, nothing_to_recover, nothing_yet, rows, ledger_table,
  results_table,
}

none_at_all :
    (deliveries : List Delivery) → option_count ledger all deliveries ≡ 0 → deliveries ≡ []
unfolding option_count
none_at_all [] h = refl
none_at_all (d ∷ ds) h = absurd (omega arith)

links-rows : (ds : List Delivery) → map Row.link (map (row false) ds) ≡ map Delivery.id ds
unfolding row
links-rows [] = refl
links-rows (d ∷ ds) = ap (λ t. d.id ∷ t) (links-rows ds)

nonempty : (text : String) → text ≡ "" → str_eq text "" ≡ false → ⊥
nonempty text e h = ground (arith, eq_iff text "")

is_all-all : (f : Filter) → is_all f ≡ true → f ≡ all
is_all-all f h = ground arith

all-narrowed : (f : Filter) → f ≡ all → is_all f ≡ false → ⊥
all-narrowed f e h = ground arith

length-zero : {A : Type 0} (xs : List A) → length xs ≡ 0 → xs ≡ []
length-zero [] h = refl
length-zero (x ∷ xs) h = absurd (omega arith)

module _ (lower : String → String) (collate : String → String → Ordering) (empty : lower "" ≡ "")
    (v : LedgerView) (deliveries : List Delivery) where
  -- What each table means, where the ledger or the recovery queue is drawn.
  abbrev pub Means : Table → Type 0
  Means no_match =
      (filtered lower collate v deliveries ≡ [])
      × ((v.search ≢ "") ⊎ ((v.active ≡ ledger) × (v.filter ≢ all)))
  Means nothing_to_recover = (v.active ≡ recovery) × (option_count recovery v.filter deliveries ≡ 0)
  Means nothing_yet = (v.active ≡ ledger) × (deliveries ≡ [])
  Means (rows rs) =
      let page = (ledger_results v (filtered lower collate v deliveries)).1 in
      (map Row.link rs ≡ map Delivery.id page.rows) × (0 < length rs) × (length rs ≤ 20)

  -- Without a search, the rows that are shown are those that the filter counts.
  unsearched :
      v.search ≡ ""
      → filtered lower collate (handle (chosen v.filter) (handle cleared v)) deliveries
        ≡ filtered lower collate v deliveries
  unfolding filtered handle
  unsearched h = rw h refl

  uncounted :
      v.search ≡ ""
      → filtered lower collate v deliveries ≡ []
      → option_count v.active v.filter deliveries ≡ 0
  uncounted h e =
      option_count-filtered lower collate empty v v.filter deliveries ∙ ap length (unsearched h ∙ e)

  no_hits :
      (ledger_results v (filtered lower collate v deliveries)).1.rows ≡ []
      → filtered lower collate v deliveries ≡ []
  unfolding ledger_results
  no_hits e =
      let found = filtered lower collate v deliveries in
      let some_row = (ledger_results-InRange v found).some_row in
      let none_shown : length (ledger_results v found).1.rows ≡ 0 = ap length e in
      length-zero found (ground (arith, some_row))

  means : (u : Table) {t : Table} → t ≡ u → Means u → Means t
  means u e m = subst⁻¹ Means e m

  no_rows-Means :
      (at : LedgerView)
      → at.active ≡ v.active
      → at.search ≡ v.search
      → at.filter ≡ v.filter
      → (v.active ≡ ledger) ⊎ (v.active ≡ recovery)
      → filtered lower collate v deliveries ≡ []
      → Means (ledger_table false at [])
  unfolding ledger_table
  no_rows-Means at a b c drawn e = elim (Bool-cases (str_eq v.search "")) [
    | inr searched ↦
        means no_match (rw (b, searched) refl) (e, inl (λ h. nonempty v.search h searched))
    | inl blank_text ↦
        let blank : v.search ≡ "" = ground (arith, eq_iff v.search "") in
        elim drawn [
          | inr queue ↦
              means nothing_to_recover (rw (b, blank_text, a, queue) refl) (
                queue,
                sym (ap (λ x. option_count x v.filter deliveries) queue) ∙ uncounted blank e,
              )
          | inl book ↦ elim (Bool-cases (is_all v.filter)) [
            | inl every ↦ means nothing_yet (rw (b, blank_text, a, book, c, every) refl) (
              book,
              none_at_all deliveries (rw (book, is_all-all v.filter every) at (uncounted blank e)),
            )
            | inr narrowed ↦
                means no_match (rw (b, blank_text, a, book, c, narrowed) refl)
                  (e, inr (book, λ h. all-narrowed v.filter h narrowed))
          ]
        ]
  ]

  shown-Means :
      (v.active ≡ ledger) ⊎ (v.active ≡ recovery)
      → (at : LedgerView) → at.active ≡ v.active
      → at.search ≡ v.search
      → at.filter ≡ v.filter
      → (shown : List Delivery)
      → shown ≡ (ledger_results v (filtered lower collate v deliveries)).1.rows
      → Means (ledger_table false at shown)
  unfolding ledger_table
  shown-Means drawn at a b c [] e = no_rows-Means at a b c drawn (no_hits (sym e))
  shown-Means drawn at a b c (d ∷ ds) e =
      let full = length-map (row false) ds in
      let few = ledger_results-InRange v (filtered lower collate v deliveries) in
      let at_most = few.at_most in
      (
        links-rows (d ∷ ds) ∙ ap (map Delivery.id) e,
        omega arith,
        omega (arith, at_most, full, ap length e),
      )

  -- Where the ledger or the recovery queue is drawn: "No matching receipts" stands there only where
  -- none is found, and there is a search or the ledger has a filter; "Nothing needs recovery" only
  -- in the queue, where none passes its filter; "Your next play starts here" only in the ledger,
  -- where the snapshot has no receipts; and any other table has a link for each row of its page, in
  -- order, at least one and at most twenty.
  pub results_table-Means :
      (v.active ≡ ledger) ⊎ (v.active ≡ recovery) → Means (results_table lower collate v deliveries)
  unfolding results_table
  results_table-Means drawn =
      let r = ledger_results v (filtered lower collate v deliveries) in
      shown-Means drawn r.0 refl refl refl r.1.rows refl
