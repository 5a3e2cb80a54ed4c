-- ===== src/Price.antt =====
-- The two places where the console turns a typed dollar amount into integer micros:
-- `priceMicros` of internal/console/web/intake.js and the submit handler of the reserve form in
-- internal/console/web/app.js. Both first match a pattern, then split at the point.
-- The sums stay exact in the model; the form's doubles differ from it only past 2^53, where its
-- upper bound refuses either way.
pub mod Laws
pub mod Accepts
mod Tests
use afterglow.Prelude.{
  ℕ, zero, suc, ◌+◌, ◌*◌, Bool, true, false, ◌&&◌, ◌||◌, List, [], ◌∷◌, not, leb, ltb, ◌==◌,
  if◌then◌else◌, length, all, ◌≡◌, refl, ◌⊎◌, inl, inr,
}
use afterglow.Text.{is_digit, trim, first_piece, second_piece, pad_end_2, number}

-- What is thrown: the format message, or one of the bounds.
pub data PriceError : Type 0 where
  bad_format above_maximum below_minimum out_of_range : PriceError

pub data Priced : Type 0 where
  micros : ℕ → Priced
  refused : PriceError → Priced

pub Priced-cases : (o : Priced) → ((m : ℕ) × (o ≡ micros m)) ⊎ ((e : PriceError) × (o ≡ refused e))
Priced-cases (micros m) = inl (m, refl)
Priced-cases (refused e) = inr (e, refl)

-- What may follow the whole dollars, `(\.\d{1,2})?$`.
is_fraction : List ℕ → Bool
is_fraction [] = true
is_fraction (c ∷ s) = c == b'.' && leb 1 (length s) && leb (length s) 2 && all is_digit s

-- The pattern from a position inside the whole dollars, of which `seen` digits were read.
pub matches_from : (fits : ℕ → Bool) → ℕ → List ℕ → Bool
unfolding is_fraction
matches_from fits seen [] = fits seen
matches_from fits seen (c ∷ s) =
    if is_digit c then matches_from fits (suc seen) s else fits seen && is_fraction (c ∷ s)

-- `/^\d{1,9}(\.\d{1,2})?$/`
intake_pattern : List ℕ → Bool
unfolding matches_from
intake_pattern s = matches_from (λ n. leb 1 n && leb n 9) 0 s

-- `/^\d+(\.\d{1,2})?$/`
form_pattern : List ℕ → Bool
unfolding matches_from
form_pattern s = matches_from (λ n. leb 1 n) 0 s

unfoldable pub price_micros : List ℕ → Priced
unfolding intake_pattern trim first_piece second_piece number
price_micros price =
    let value = trim price in
    let total =
      (number (first_piece b'.' value) * 100 + number (pad_end_2 (second_piece b'.' value)))
      * 10000 in
    if not (intake_pattern value)
    then refused bad_format
    else if ltb 10000000 total
    then refused above_maximum
    else if ltb total 10000
    then refused below_minimum
    else micros total

abbrev max_safe_integer : ℕ
max_safe_integer = 9007199254740991

unfoldable pub reserve_cost : List ℕ → Priced
unfolding form_pattern first_piece second_piece number
reserve_cost raw =
    let cost =
      number (first_piece b'.' raw) * 1000000
      + number (pad_end_2 (second_piece b'.' raw)) * 10000 in
    if not (form_pattern raw)
    then refused bad_format
    else if ltb max_safe_integer cost || leb cost 0 || ltb 1000000000 cost
    then refused out_of_range
    else micros cost
