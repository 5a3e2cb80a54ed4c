-- ===== src/Navigation/Reaching.antt =====
-- Which pages the finder finds.
use afterglow.Prelude.{
  ◌≡◌, refl, ap, ◌∙◌, ℕ, Bool, true, false, List, [], ◌∷◌, String, some, filter, get_elem?,
}
use afterglow.Text.{trim}
use afterglow.Ledger.{
  View, foot_traffic, assurance, proof, intake, overview, campaigns, ledger, recovery, lab,
  architecture,
}
use afterglow.Console.Routing.{view_of}
use afterglow.Navigation.{
  Page, pages, joined, includes, starts_with, on_input, elsewhere, Finder, results, open_finder,
  follow,
}

starts_with-nil : (text : List ℕ) → starts_with text [] ≡ true
starts_with-nil [] = refl
starts_with-nil (c ∷ text) = refl

includes-nil : (text : List ℕ) → includes text [] ≡ true
includes-nil [] = refl
includes-nil (c ∷ text) = refl

filter_all : (p : Page → Bool) (list : List Page) → ((x : Page) → p x ≡ true) → filter p list ≡ list
filter_all p [] h = refl
filter_all p (x ∷ list) h = rw (h x) (ap (λ rest. x ∷ rest) (filter_all p list h))

-- The place of a view in the list of pages.
abbrev pub place_of : View → ℕ
place_of foot_traffic = 0
place_of assurance = 1
place_of overview = 2
place_of campaigns = 3
place_of intake = 4
place_of ledger = 5
place_of recovery = 6
place_of proof = 7
place_of lab = 8
place_of architecture = 9

listed : (v : View) → (p : Page) × (get_elem? pages (place_of v) ≡ some p) × (view_of p.key ≡ v)
unfolding view_of pages
listed foot_traffic = (_, refl, refl)
listed assurance = (_, refl, refl)
listed overview = (_, refl, refl)
listed campaigns = (_, refl, refl)
listed intake = (_, refl, refl)
listed ledger = (_, refl, refl)
listed recovery = (_, refl, refl)
listed proof = (_, refl, refl)
listed lab = (_, refl, refl)
listed architecture = (_, refl, refl)

-- An empty search finds everything.
found_everywhere :
    (lower : List ℕ → List ℕ)
    → lower [] ≡ []
    → (f : Finder) → f.input ≡ []
    → results lower f ≡ pages
unfolding results trim
found_everywhere lower empty f e = filter_all _ pages (λ p.
    ap (λ text. includes (lower (joined p)) (trim (lower text))) e
    ∙ ap (λ text. includes (lower (joined p)) (trim text)) empty
    ∙ includes-nil (lower (joined p)))

opened :
    (lower : List ℕ → List ℕ) (f : Finder)
    → f.showing ≡ false
    → open_finder lower false f ≡ record { showing = true; input = []; focus = on_input }
unfolding open_finder
opened lower f closed = simp (closed) refl

follow_lem :
    (lower : List ℕ → List ℕ) (i : ℕ) (f : Finder) (p : Page)
    → get_elem? (results lower f) i ≡ some p
    → follow lower i f ≡ (record f { showing = false; focus = elsewhere }, some p.key)
unfolding follow
follow_lem lower i f p e = rw (e, follow) refl

-- A finder that is opened, with nothing else over the page, starts afresh in its search field and
-- lists every view of the console: the link to the view closes the finder, and its address is one
-- that the console reads as this view.
pub open_finder-view :
    (lower : List ℕ → List ℕ)
    → lower [] ≡ []
    → (f : Finder) (v : View) → f.showing ≡ false
    → let opened = open_finder lower false f in
      (key : String) × (opened.input ≡ [])
      × (opened.focus ≡ on_input)
      × (follow lower (place_of v) opened
          ≡ (record opened { showing = false; focus = elsewhere }, some key))
      × (view_of key ≡ v)
open_finder-view lower empty f v closed =
    let fresh : Finder = record { showing = true; input = []; focus = on_input } in
    let (p, there, address) = listed v in
    rw (opened lower f closed) (
      p.key,
      refl,
      refl,
      follow_lem lower (place_of v) fresh p (
          ap (λ list. get_elem? list (place_of v)) (found_everywhere lower empty fresh refl)
          ∙ there),
      address,
    )
