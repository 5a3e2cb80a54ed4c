-- ===== src/Navigation/Tests.antt =====
-- Searches in the page finder.
use afterglow.Prelude.{
  ◌≡◌, refl, ◌&&◌, ℕ, ◌+◌, ◌%◌, true, false, [], ◌∷◌, List, String, some, none, leb, length,
  if◌then◌else◌,
}
use afterglow.Text.{codes, trim}
use afterglow.Ledger.{proof}
use afterglow.Console.Routing.{view_of}
use afterglow.Navigation.{
  pages, elsewhere, on_input, on_link, Finder, arrow_down, arrow_up, enter, results, open_finder,
  follow, key_down,
}
use afterglow.Navigation.Arrows.{below, above, downs, key_down-arrows, downs-visit}
use afterglow.Navigation.Reaching.{place_of, open_finder-view}

-- `toLowerCase` on the letters of ASCII.
abbrev lower : List ℕ → List ℕ
lower [] = []
lower (c ∷ text) = (if leb 65 c && leb c 90 then c + 32 else c) ∷ lower text

abbrev searching : Finder
searching = record { showing = true; input = codes " Budget"; focus = on_input }

two_pages : length (results lower searching) ≡ 2
unfolding results pages trim
two_pages = refl

first_page : (key_down lower enter searching).1 ≡ some "assurance"
unfolding key_down follow results pages trim
first_page = refl

key_down-arrows_example :
    (key_down lower arrow_down searching
      ≡ (record searching { focus = on_link (below 2 on_input) }, none))
    × (key_down lower arrow_up searching
        ≡ (record searching { focus = on_link (above 2 on_input) }, none))
key_down-arrows_example = key_down-arrows lower searching 1 two_pages tt

downs_to_the_third : downs lower 6 searching ≡ record searching { focus = on_link (5 % 2) }
downs_to_the_third = downs-visit lower searching 1 5 two_pages refl

abbrev closed_finder : Finder
closed_finder = record { showing = false; input = codes "budget"; focus = elsewhere }

opened_on_proof :
    let opened = open_finder lower false closed_finder in
    (key : String) × (opened.input ≡ [])
    × (opened.focus ≡ on_input)
    × (follow lower (place_of proof) opened
        ≡ (record opened { showing = false; focus = elsewhere }, some key))
    × (view_of key ≡ proof)
opened_on_proof = open_finder-view lower refl closed_finder proof refl
