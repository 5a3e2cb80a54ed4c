-- ===== src/Navigation/Arrows.antt =====
-- Where the arrow keys of the page finder lead.
use native.Mathlib.Nat.{mod-eq_of_lt, mod-eq-sub-mod, mod-add-mod, mod_self}
use afterglow.Prelude.{
  none, ◌≡◌, refl, sym, ◌∙◌, ap, ℕ, zero, suc, ◌+◌, ◌-◌, ◌%◌, ◌≤◌, ◌<◌, Bool, true, false, List,
  ◌==◌, arith, if◌then◌else◌, length,
}
use afterglow.Navigation.{
  Focus, elsewhere, on_input, on_link, place, Finder, arrow_down, arrow_up, target, results, arrow,
  key_down,
}

target_down : (n i : ℕ) → i < n → target n true (i + 1) ≡ (if i + 1 == n then 0 else i + 1)
unfolding target
target_down n i h = grind (arith, mod-eq_of_lt, mod-eq-sub-mod)

target_up : (n i : ℕ) → i < n → target n false (i + 1) ≡ (if i == 0 then n - 1 else i - 1)
unfolding target
target_up n i h = grind (arith, mod-eq_of_lt, mod-eq-sub-mod)

target_first : (n : ℕ) → 0 < n → target n true 0 ≡ 0
unfolding target
target_first n h = grind (arith, mod-eq_of_lt, mod-eq-sub-mod)

target_last : (n : ℕ) → 0 < n → target n false 0 ≡ (if n == 1 then 0 else n - 2)
unfolding target
target_last n h = grind (arith, mod-eq_of_lt, mod-eq-sub-mod)

-- A focused link is one of the links that are there.
abbrev pub IsThere : ℕ → Focus → Type 0
IsThere n (on_link i) = i < n
IsThere n _ = Unit

-- The link below the focused one, around the end; the first one from anywhere else.
abbrev pub below : ℕ → Focus → ℕ
below n (on_link i) = if i + 1 == n then 0 else i + 1
below n _ = 0

-- The link above the focused one, around the start; from anywhere else the last but one.
abbrev pub above : ℕ → Focus → ℕ
above n (on_link i) = if i == 0 then n - 1 else i - 1
above n _ = if n == 1 then 0 else n - 2

arrow_lem :
    (lower : List ℕ → List ℕ) (down : Bool) (f : Finder) (n : ℕ)
    → length (results lower f) ≡ suc n
    → arrow lower down f ≡ record f { focus = on_link (target (suc n) down (place f.focus)) }
unfolding arrow
arrow_lem lower down f n e = rw (e, arrow) refl

target-below :
    (n : ℕ) (at : Focus) → IsThere (suc n) at → target (suc n) true (place at) ≡ below (suc n) at
target-below n elsewhere h = target_first (suc n) (omega arith)
target-below n on_input h = target_first (suc n) (omega arith)
target-below n (on_link i) h = target_down (suc n) i h

target-above :
    (n : ℕ) (at : Focus) → IsThere (suc n) at → target (suc n) false (place at) ≡ above (suc n) at
target-above n elsewhere h = target_last (suc n) (omega arith)
target-above n on_input h = target_last (suc n) (omega arith)
target-above n (on_link i) h = target_up (suc n) i h

-- Where there are results, the down arrow focuses the next link and wraps around, and starts with
-- the first from the input; the up arrow focuses the previous link and wraps around, but from the
-- input it focuses the last link but one. Neither changes the search or goes to a page.
pub key_down-arrows :
    (lower : List ℕ → List ℕ) (f : Finder) (n : ℕ)
    → length (results lower f) ≡ suc n
    → IsThere (suc n) f.focus
    → (key_down lower arrow_down f ≡ (record f { focus = on_link (below (suc n) f.focus) }, none))
      × (key_down lower arrow_up f ≡ (record f { focus = on_link (above (suc n) f.focus) }, none))
unfolding key_down
key_down-arrows lower f n e h = (
  ap (λ g. (g, none))
      (arrow_lem lower true f n e
        ∙ ap (λ i. record f { focus = on_link i }) (target-below n f.focus h)),
  ap (λ g. (g, none))
      (arrow_lem lower false f n e
        ∙ ap (λ i. record f { focus = on_link i }) (target-above n f.focus h)),
)

mod-lt : (k n : ℕ) → k % suc n < suc n
mod-lt k n = grind arith

reduced : (m n : ℕ) → m ≤ suc n → (if m == suc n then 0 else m) ≡ m % suc n
reduced m n h = grind (arith, mod-eq_of_lt, mod_self)

next_place : (k n : ℕ) → (if k % suc n + 1 == suc n then 0 else k % suc n + 1) ≡ suc k % suc n
next_place k n =
    let whole : (k % suc n + 1) % suc n ≡ (k + 1) % suc n = mod-add-mod k (suc n) 1 in
    let step : k + 1 ≡ suc k = omega arith in
    let small : k % suc n < suc n = mod-lt k n in
    let around : (if k % suc n + 1 == suc n then 0 else k % suc n + 1) ≡ (k % suc n + 1) % suc n =
      reduced (k % suc n + 1) n (omega arith) in
    around ∙ whole ∙ ap (λ m. m % suc n) step

-- Pressing a key some times over.
abbrev pub downs : (List ℕ → List ℕ) → ℕ → Finder → Finder
downs lower zero f = f
downs lower (suc k) f = (key_down lower arrow_down (downs lower k f)).0

results-focus :
    (lower : List ℕ → List ℕ) (f : Finder) (at : Focus)
    → results lower (record f { focus = at }) ≡ results lower f
unfolding results
results-focus lower f at = refl

-- From the search field, `k + 1` presses of the down arrow focus the result number `k`, counted
-- around: every result is reached, and after the last one the first again.
pub downs-visit :
    (lower : List ℕ → List ℕ) (f : Finder) (n k : ℕ)
    → length (results lower f) ≡ suc n
    → f.focus ≡ on_input
    → downs lower (suc k) f ≡ record f { focus = on_link (k % suc n) }
unfolding key_down
downs-visit lower f n zero e at =
    arrow_lem lower true f n e
    ∙ ap (λ i. record f { focus = on_link i })
        (ap (λ p. target (suc n) true (place p)) at
          ∙ target_first (suc n) (omega arith)
          ∙ sym (mod-eq_of_lt (omega arith)))
downs-visit lower f n (suc k) e at =
    let there = k % suc n in
    ap (arrow lower true) (downs-visit lower f n k e at)
    ∙ arrow_lem lower true (record f { focus = on_link there }) n
        (ap length (results-focus lower f (on_link there)) ∙ e)
    ∙ ap (λ i. record f { focus = on_link i })
        (target_down (suc n) there (mod-lt k n) ∙ next_place k n)
