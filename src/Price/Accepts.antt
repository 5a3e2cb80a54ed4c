-- ===== src/Price/Accepts.antt =====
-- Exactly which texts the two parsers accept, and with what result.
use afterglow.Prelude.{
  ◌≡◌, ℕ, ◌*◌, ◌≤◌, ◌↔◌, true, List, arith, leb, ltb, ◌&&◌, if◌then◌else◌, Bool-cases, inl, inr,
}
use afterglow.Text.{trim}
use afterglow.Price.{
  price_micros, reserve_cost, intake_pattern, form_pattern, micros, refused, bad_format,
  above_maximum, below_minimum,
}
use afterglow.Price.Laws.{IsAmount, IsAmount-pieces, matches_from-IsAmount, IsAmount-matches_from}

intake_pattern-IsAmount :
    (s : List ℕ)
    → intake_pattern s ≡ true
    → (digits cents : ℕ) × IsAmount s digits cents × (1 ≤ digits) × (digits ≤ 9)
unfolding intake_pattern
intake_pattern-IsAmount s h =
    let (digits, cents, a, fit) = matches_from-IsAmount (λ n. leb 1 n && leb n 9) s h in
    (digits, cents, a, ground arith, ground arith)

IsAmount-intake_pattern :
    {s : List ℕ} {digits cents : ℕ}
    → IsAmount s digits cents
    → 1 ≤ digits
    → digits ≤ 9
    → intake_pattern s ≡ true
unfolding intake_pattern
IsAmount-intake_pattern a h k = IsAmount-matches_from (λ n. leb 1 n && leb n 9) a (ground arith)

-- `s` writes, with at most `most` digits of whole dollars, an amount from one cent to `cap` cents,
-- which is `m` micros.
pub record IsPrice (most cap : ℕ) (s : List ℕ) (m : ℕ) : Type 0 where
  pub digits : ℕ
  pub cents : ℕ
  pub amount : IsAmount s digits cents
  pub some_digit : 1 ≤ digits
  pub few_digits : digits ≤ most
  pub positive : 1 ≤ cents
  pub capped : cents ≤ cap
  pub exact : m ≡ cents * 10000

micros-IsPrice : (s : List ℕ) (m : ℕ) → price_micros s ≡ micros m → IsPrice 9 1000 (trim s) m
unfolding price_micros
micros-IsPrice s m h =
    let matched : intake_pattern (trim s) ≡ true = ground arith in
    let (digits, cents, a, lo, hi) = intake_pattern-IsAmount (trim s) matched in
    let pieces = IsAmount-pieces a in
    record {
      digits = digits;
      cents = cents;
      amount = a;
      some_digit = lo;
      few_digits = hi;
      positive = ground arith;
      capped = ground arith;
      exact = ground arith;
    }

IsPrice-micros : (s : List ℕ) (m : ℕ) → IsPrice 9 1000 (trim s) m → price_micros s ≡ micros m
unfolding price_micros
IsPrice-micros s m p =
    ground
      (arith, IsAmount-intake_pattern p.amount p.some_digit p.few_digits, IsAmount-pieces p.amount)

-- `priceMicros` accepts exactly the amounts of 1 to 9 digits of dollars and at most two of cents,
-- written with or without spaces around them, that lie from $0.01 to $10.00, and its result is
-- their exact value in micros.
pub price_micros-eq-micros_iff :
    (s : List ℕ) (m : ℕ) → (price_micros s ≡ micros m) ↔ IsPrice 9 1000 (trim s) m
price_micros-eq-micros_iff s m = (micros-IsPrice s m, IsPrice-micros s m)

-- On every text that is an amount of 1 to 9 digits of dollars, `priceMicros` answers by its value
-- alone: above $10.00 and below $0.01 it gives the two messages, and else the exact micros.
pub price_micros-amount :
    (s : List ℕ) {digits cents : ℕ}
    → IsAmount (trim s) digits cents
    → 1 ≤ digits
    → digits ≤ 9
    → price_micros s ≡ (
        if ltb 1000 cents
        then refused above_maximum
        else if ltb cents 1
        then refused below_minimum
        else micros (cents * 10000))
unfolding price_micros
price_micros-amount s a lo hi = ground (arith, IsAmount-intake_pattern a lo hi, IsAmount-pieces a)

-- It gives the format message exactly for the texts that are no such amount.
pub price_micros-eq-bad_format_iff :
    (s : List ℕ)
    → (price_micros s ≡ refused bad_format)
      ↔ ¬ ((digits cents : ℕ) × IsAmount (trim s) digits cents × (1 ≤ digits) × (digits ≤ 9))
unfolding price_micros
price_micros-eq-bad_format_iff s = (forth, back)
  where
    forth :
        price_micros s ≡ refused bad_format
        → ¬ ((digits cents : ℕ) × IsAmount (trim s) digits cents × (1 ≤ digits) × (digits ≤ 9))
    forth h (digits, cents, a, lo, hi) = ground (arith, IsAmount-intake_pattern a lo hi)

    back :
        ¬ ((digits cents : ℕ) × IsAmount (trim s) digits cents × (1 ≤ digits) × (digits ≤ 9))
        → price_micros s ≡ refused bad_format
    back h = elim (Bool-cases (intake_pattern (trim s))) [
      | inl matched ↦ absurd (h (intake_pattern-IsAmount (trim s) matched))
      | inr other ↦ rw other
    ]

form-IsPrice :
    (s : List ℕ) (m : ℕ) → reserve_cost s ≡ micros m → (most : ℕ) × IsPrice most 100000 s m
unfolding reserve_cost form_pattern
form-IsPrice s m h =
    let matched : form_pattern s ≡ true = ground arith in
    let (digits, cents, a, lo) = matches_from-IsAmount (λ n. leb 1 n) s matched in
    let pieces = IsAmount-pieces a in
    (
      digits,
      record {
        digits = digits;
        cents = cents;
        amount = a;
        some_digit = ground arith;
        few_digits = omega arith;
        positive = ground arith;
        capped = ground arith;
        exact = ground arith;
      },
    )

IsPrice-form : (s : List ℕ) (m most : ℕ) → IsPrice most 100000 s m → reserve_cost s ≡ micros m
unfolding reserve_cost form_pattern
IsPrice-form s m most p = ground (
  arith,
  IsAmount-matches_from (λ n. leb 1 n) p.amount (ground (arith, p.some_digit)),
  IsAmount-pieces p.amount,
)

-- The reserve form accepts exactly the amounts from $0.01 to $1,000.00 with any number of digits
-- of dollars, at most two of cents and no space around them, at their exact value.
pub reserve_cost-eq-micros_iff :
    (s : List ℕ) (m : ℕ) → (reserve_cost s ≡ micros m) ↔ ((most : ℕ) × IsPrice most 100000 s m)
reserve_cost-eq-micros_iff s m = (form-IsPrice s m, λ (most, p). IsPrice-form s m most p)

-- What the intake field accepts as it stands, with no space to trim, the form accepts as the same
-- micros.
pub reserve_cost-price_micros :
    (s : List ℕ) (m : ℕ) → trim s ≡ s → price_micros s ≡ micros m → reserve_cost s ≡ micros m
reserve_cost-price_micros s m e h =
    let p = rw e at (micros-IsPrice s m h) in
    IsPrice-form s m 9 (record {
      digits = p.digits;
      cents = p.cents;
      amount = p.amount;
      some_digit = p.some_digit;
      few_digits = p.few_digits;
      positive = p.positive;
      capped = omega (arith, p.capped);
      exact = p.exact;
    })
