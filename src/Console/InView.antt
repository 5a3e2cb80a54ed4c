-- ===== src/Console/InView.antt =====
-- The search and the filter in force belong to the view that is on screen.
use Prim.Native.Nat.{Ordering}
use mathlib.Core.Path.{subst}
use afterglow.Prelude.{
  ◌≡◌, refl, ◌∙◌, ◌≢◌, ◌⊎◌, inl, inr, Bool, true, false, ◌&&◌, List, String, some, is_some, arith,
  Bool-cases,
}
use afterglow.Api.{Delivery}
use afterglow.Ledger.{
  Filter, overview, all, LedgerEvent, sorted, turned, cleared, chosen, typed, navigated, handle,
}
use afterglow.Ledger.Table.{no_match, recent}
use afterglow.Console.Routing.{view_of}
use afterglow.Console.Suits.{
  Suits, cleared-Suits, moved-Suits, unloaded, blank-Suits, recent-unsearched, drawn_results-same,
  rendered-same, rendered-before, rendered-Suits,
}
use afterglow.Console.Address.{
  App, start, has_results, has_filter, is_offered, rendered, handled, hash_changed, Step, addressed,
  told, refreshed, redrawn, used, Reach, here, next,
}

pub record IsInView (a : App) : Type 0 where
  pub settled :
      a.pending ≡ 0
      → is_some a.deliveries ≡ true
      → (a.ledger.active ≡ view_of a.hash) × Suits a.ledger.active a.ledger
  pub before :
      is_some a.deliveries ≡ false
      → (a.ledger.active ≡ overview) × (a.ledger.filter ≡ all) × (a.ledger.search ≡ "")

current :
    (a : App)
    → IsInView a
    → a.pending ≡ 0
    → is_some a.deliveries ≡ true
    → Suits (view_of a.hash) a.ledger
current a i p h = let (at, suits) = i.settled p h in subst (λ v. Suits v a.ledger) at suits

loaded-Suits : (a : App) → IsInView a → a.pending ≡ 0 → Suits (view_of a.hash) a.ledger
loaded-Suits a i p = elim (Bool-cases (is_some a.deliveries)) [
  | inl loaded ↦ current a i p loaded
  | inr waits ↦
      let (view, filter, search) = i.before waits in
      blank-Suits (view_of a.hash) a.ledger filter search
]

chosen-Suits :
    (a : App) (f : Filter)
    → IsInView a
    → a.pending ≡ 0
    → is_some a.deliveries ≡ true
    → (is_some a.deliveries && (has_results a.ledger.active && has_filter a.ledger.active f)) ≡ true
    → Suits (view_of a.hash) (handle (chosen f) a.ledger)
unfolding handle
chosen-Suits a f i p h o =
    let (at, suits) = i.settled p h in
    subst (λ v. Suits v (record a.ledger { page = 0; filter = f })) at
      (record { filter = ground arith; search = inl (ground arith) })

module _ (lower : String → String) (collate : String → String → Ordering) where
  rendered-IsInView :
      (m s : Bool) (a : App)
      → (a.pending ≡ 0 → is_some a.deliveries ≡ true → Suits (view_of a.hash) a.ledger)
      → (is_some a.deliveries ≡ false
          → (a.ledger.active ≡ overview) × (a.ledger.filter ≡ all) × (a.ledger.search ≡ ""))
      → IsInView (rendered lower collate m s a)
  unfolding rendered
  rendered-IsInView m s a suits before =
      let (f, t) = rendered-same lower collate m s a in
      record {
        settled = λ p h. rendered-Suits lower collate m s a h (suits p h);
        before = λ h.
            let (view, filter, search) = before h in
            (rendered-before lower collate m s a h ∙ view, f ∙ filter, t ∙ search);
      }

  handled-IsInView :
      (m s : Bool) (e : LedgerEvent) (a : App)
      → is_offered e a ≡ true
      → IsInView a
      → IsInView (handled lower collate m s e a)
  unfolding handled is_offered
  handled-IsInView m s (sorted x) a o i =
      rendered-IsInView m s (record a { ledger = handle (sorted x) a.ledger })
        (λ p h. moved-Suits _ a.ledger 0 x (current a i p h)) i.before
  handled-IsInView m s (turned n true) a o i =
      rendered-IsInView m s a (λ p h. current a i p h) i.before
  handled-IsInView m s (turned true false) a o i =
      rendered-IsInView m s (record a { ledger = handle (turned true false) a.ledger })
        (λ p h. moved-Suits _ a.ledger _ a.ledger.sort (current a i p h)) i.before
  handled-IsInView m s (turned false false) a o i =
      rendered-IsInView m s (record a { ledger = handle (turned false false) a.ledger })
        (λ p h. moved-Suits _ a.ledger _ a.ledger.sort (current a i p h)) i.before
  handled-IsInView m s cleared a o i =
      rendered-IsInView m s (record a { ledger = handle cleared a.ledger })
        (λ p h. cleared-Suits (view_of a.hash) a.ledger) (λ h. ((i.before h).0, refl, refl))
  handled-IsInView m s (chosen f) a o i =
      rendered-IsInView m s (record a { ledger = handle (chosen f) a.ledger })
        (λ p h. chosen-Suits a f i p h o) (λ h. absurd (unloaded _ _ o h))
  handled-IsInView m s (typed t) a o i =
      let (view, filter, search) =
        drawn_results-same lower collate a.deliveries (record a.ledger { search = t; page = 0 }) in
      record {
        settled = λ p h.
            let (at, suits) = i.settled p h in
            (
              view ∙ at,
              record {
                filter = rw (view, filter) suits.filter;
                search = inl (rw view (ground arith));
              },
            );
        before = λ h. absurd (unloaded _ _ o h);
      }
  handled-IsInView m s (navigated v) a o i = ground arith

  Step-IsInView : {a b : App} → Step lower collate a b → IsInView a → IsInView b
  unfolding hash_changed
  Step-IsInView (addressed hash) i = record {
    settled = λ p h. absurd (omega arith);
    before = i.before;
  }
  Step-IsInView {a} (told m s left e) i =
      rendered-IsInView m s (record a { pending = left; ledger = handle cleared a.ledger })
        (λ p h. cleared-Suits (view_of a.hash) a.ledger) (λ h. ((i.before h).0, refl, refl))
  Step-IsInView {a} (refreshed m s ds) i =
      rendered-IsInView m s (record a { deliveries = some ds }) (λ p h. loaded-Suits a i p)
        (λ h. ground arith)
  Step-IsInView {a} (redrawn m s) i = rendered-IsInView m s a (λ p h. current a i p h) i.before
  Step-IsInView {a} (used m s e o) i = handled-IsInView m s e a o i

  Reach-IsInView : {a b : App} → Reach lower collate a b → IsInView a → IsInView b
  Reach-IsInView here i = i
  Reach-IsInView (next r s) i = Step-IsInView s (Reach-IsInView r i)

-- What the reader sees once every change of the address has been told.
pub record IsAtRest (a : App) : Type 0 where
  pub addressed : is_some a.deliveries ≡ true → a.ledger.active ≡ view_of a.hash
  pub filter : has_filter a.ledger.active a.ledger.filter ≡ true
  pub search : (has_results a.ledger.active ≡ true) ⊎ (a.ledger.search ≡ "")
  pub latest :
      has_results a.ledger.active ≡ false → (ds : List Delivery) → recent a.ledger ds ≢ no_match

start-IsInView : (hash : String) → IsInView (start hash)
start-IsInView hash = record { settled = λ p h. ground arith; before = λ h. (refl, refl, refl) }

rest_of : (a : App) → IsInView a → a.pending ≡ 0 → Suits a.ledger.active a.ledger
rest_of a i p = elim (Bool-cases (is_some a.deliveries)) [
  | inl loaded ↦ (i.settled p loaded).1
  | inr waits ↦
      let (view, filter, search) = i.before waits in
      blank-Suits a.ledger.active a.ledger filter search
]

-- From any address the page is loaded at, over any changes of the address, told late, with
-- refreshes, redraws and clicks on what is still drawn between them: once every change is told, the
-- view is the address's where a snapshot is there; the filter in force is one of the view's
-- buttons; a search is in force only where the view has results to search, so that the latest
-- decisions of the overview never say that nothing matches.
pub Reach-IsAtRest :
    (lower : String → String) (collate : String → String → Ordering) (hash : String) {a : App}
    → Reach lower collate (start hash) a
    → a.pending ≡ 0
    → IsAtRest a
Reach-IsAtRest lower collate hash {a} r p =
    let i = Reach-IsInView lower collate r (start-IsInView hash) in
    let suits = rest_of a i p in
    record {
      addressed = λ h. (i.settled p h).0;
      filter = suits.filter;
      search = suits.search;
      latest = λ h ds. elim (suits.search) [
        | inl has ↦ (λ e. ground arith)
        | inr empty ↦ recent-unsearched a.ledger ds empty
      ];
    }
