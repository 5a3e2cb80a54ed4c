-- ===== src/Price/Tests.antt =====
-- Amounts that the two fields are given.
use afterglow.Prelude.{◌≡◌, refl, ◌↔◌, ◌*◌, ◌≤◌, ℕ, arith, ltb, if◌then◌else◌}
use afterglow.Text.{codes, trim, number}
use afterglow.Price.{
  price_micros, reserve_cost, micros, refused, bad_format, above_maximum, below_minimum,
}
use afterglow.Price.Laws.{IsAmount, tenths}
use afterglow.Price.Accepts.{
  IsPrice, price_micros-eq-micros_iff, price_micros-amount, price_micros-eq-bad_format_iff,
  reserve_cost-eq-micros_iff, reserve_cost-price_micros,
}

accepts_spaces : price_micros (codes " 7.5 ") ≡ micros 7500000
unfolding price_micros
accepts_spaces = refl

refuses_more_than_ten : price_micros (codes "10.01") ≡ refused above_maximum
unfolding price_micros
refuses_more_than_ten = refl

refuses_zero : price_micros (codes "0.00") ≡ refused below_minimum
unfolding price_micros
refuses_zero = refl

refuses_open_point : price_micros (codes "7.") ≡ refused bad_format
unfolding price_micros
refuses_open_point = refl

accepts_a_thousand : reserve_cost (codes "1000.00") ≡ micros 1000000000
unfolding reserve_cost
accepts_a_thousand = refl

refuses_spaces : reserve_cost (codes " 1") ≡ refused bad_format
unfolding reserve_cost
refuses_spaces = refl

price_micros-eq-micros_iff_example :
    (price_micros (codes " 7.5 ") ≡ micros 7500000) ↔ IsPrice 9 1000 (trim (codes " 7.5 ")) 7500000
price_micros-eq-micros_iff_example = price_micros-eq-micros_iff (codes " 7.5 ") 7500000

seventy : IsAmount (trim (codes " 70.5 ")) 2 7050
unfolding trim number
seventy = record {
  whole = codes "70";
  tail = codes ".5";
  part = 50;
  numeric = refl;
  counted = refl;
  shape = tenths refl refl;
  text = refl;
  value = refl;
}

seventy_dollars_and_a_half : price_micros (codes " 70.5 ") ≡ (
    if ltb 1000 7050
    then refused above_maximum
    else if ltb 7050 1
    then refused below_minimum
    else micros (7050 * 10000))
seventy_dollars_and_a_half =
    price_micros-amount (codes " 70.5 ") seventy (omega arith) (omega arith)

seven_and_a_point :
    (price_micros (codes "7.") ≡ refused bad_format)
    ↔ ¬ (
        (digits cents : ℕ) × IsAmount (trim (codes "7.")) digits cents
        × (1 ≤ digits)
        × (digits ≤ 9))
seven_and_a_point = price_micros-eq-bad_format_iff (codes "7.")

reserve_cost-eq-micros_iff_example :
    (reserve_cost (codes "12.34") ≡ micros 12340000)
    ↔ ((most : ℕ) × IsPrice most 100000 (codes "12.34") 12340000)
reserve_cost-eq-micros_iff_example = reserve_cost-eq-micros_iff (codes "12.34") 12340000

price_in_both_fields : reserve_cost (codes "7.5") ≡ micros 7500000
unfolding price_micros
price_in_both_fields = reserve_cost-price_micros (codes "7.5") 7500000 refl refl
