-- ===== src/Console/Suits.antt =====
-- What a render does with the view, the search and the filter.
use Prim.Native.Nat.{Ordering}
use afterglow.Prelude.{
  eq_iff, ◌≡◌, refl, ◌∙◌, ◌≢◌, ◌⊎◌, inr, ℕ, Bool, true, false, ◌&&◌, List, [], ◌∷◌, String, Option,
  none, some, if◌then◌else◌, is_some, arith,
}
use afterglow.Api.{Delivery}
use afterglow.Ledger.{View, Sort, all, LedgerView, cleared, handle}
use afterglow.Ledger.Table.{no_match, recent}
use afterglow.Console.Routing.{view_of, render, render-active}
use afterglow.Console.Address.{App, has_results, has_filter, drawn_results, rendered}

-- What a search and a filter have to do with the view.
pub record Suits (view : View) (v : LedgerView) : Type 0 where
  pub filter : has_filter view v.filter ≡ true
  pub search : (has_results view ≡ true) ⊎ (v.search ≡ "")

pub has_filter-all : (view : View) → has_filter view all ≡ true
unfolding has_filter
has_filter-all view = ground arith

pub cleared-Suits : (view : View) (v : LedgerView) → Suits view (handle cleared v)
unfolding handle
cleared-Suits view v = record { filter = has_filter-all view; search = inr refl }

pub moved-Suits :
    (view : View) (v : LedgerView) (page : ℕ) (sort : Sort)
    → Suits view v
    → Suits view (record v { page = page; sort = sort })
moved-Suits view v page sort k = record { filter = k.filter; search = k.search }

pub unloaded : (loaded drawn : Bool) → (loaded && drawn) ≡ true → loaded ≡ false → ⊥
unloaded loaded drawn o h = ground arith

pub blank-Suits : (view : View) (v : LedgerView) → v.filter ≡ all → v.search ≡ "" → Suits view v
blank-Suits view v f t = record { filter = rw f (has_filter-all view); search = inr t }

pub recent-unsearched :
    (v : LedgerView) (ds : List Delivery) → v.search ≡ "" → recent v ds ≢ no_match
unfolding recent
recent-unsearched v [] e h = ground (arith, eq_iff v.search "")
recent-unsearched v (d ∷ ds) e h = ground arith

module _ (lower : String → String) (collate : String → String → Ordering) where
  pub drawn_results-same :
      (ds : Option (List Delivery)) (v : LedgerView)
      → let w = drawn_results lower collate ds v in
        (w.active ≡ v.active) × (w.filter ≡ v.filter) × (w.search ≡ v.search)
  unfolding drawn_results
  drawn_results-same none v = (refl, refl, refl)
  drawn_results-same (some ds) v = (refl, refl, refl)

  drawn_if :
      (b : Bool) (ds : Option (List Delivery)) (v : LedgerView)
      → let w = if b then drawn_results lower collate ds v else v in
        (w.active ≡ v.active) × (w.filter ≡ v.filter) × (w.search ≡ v.search)
  drawn_if true ds v = drawn_results-same ds v
  drawn_if false ds v = (refl, refl, refl)

  pub rendered-same :
      (m s : Bool) (a : App)
      → let b = rendered lower collate m s a in
        (b.ledger.filter ≡ a.ledger.filter) × (b.ledger.search ≡ a.ledger.search)
  unfolding rendered
  rendered-same m s a =
      let k = drawn_if _ a.deliveries (record a.ledger { active = _ }) in (k.1, k.2)

  render-active_of :
      (m s loaded : Bool) (hash : String) (view : View)
      → loaded ≡ true
      → (render loaded m s hash view).0 ≡ view_of hash
  render-active_of m s loaded hash view h = rw h (render-active m s hash view).0

  render-before :
      (m s loaded : Bool) (hash : String) (view : View)
      → loaded ≡ false
      → (render loaded m s hash view).0 ≡ view
  unfolding render
  render-before m s loaded hash view h = rw h refl

  pub rendered-active :
      (m s : Bool) (a : App)
      → is_some a.deliveries ≡ true
      → (rendered lower collate m s a).ledger.active ≡ view_of a.hash
  unfolding rendered
  rendered-active m s a h =
      (drawn_if _ a.deliveries (record a.ledger { active = _ })).0
      ∙ render-active_of m s (is_some a.deliveries) a.hash a.ledger.active h

  pub rendered-before :
      (m s : Bool) (a : App)
      → is_some a.deliveries ≡ false
      → (rendered lower collate m s a).ledger.active ≡ a.ledger.active
  unfolding rendered
  rendered-before m s a h =
      (drawn_if _ a.deliveries (record a.ledger { active = _ })).0
      ∙ render-before m s (is_some a.deliveries) a.hash a.ledger.active h

  -- A render keeps what suits the view of the address.
  pub rendered-Suits :
      (m s : Bool) (a : App)
      → is_some a.deliveries ≡ true
      → Suits (view_of a.hash) a.ledger
      → let b = rendered lower collate m s a in
        (b.ledger.active ≡ view_of a.hash) × Suits b.ledger.active b.ledger
  rendered-Suits m s a h suits =
      let (f, t) = rendered-same m s a in
      let at = rendered-active m s a h in
      (at, record { filter = rw (at, f) suits.filter; search = rw (at, t) suits.search })
