-- ===== src/Price/Laws.antt =====
-- Which texts are dollar amounts, said without the patterns, and what the parsers make of them.
use afterglow.Prelude.{
  ◌≡◌, refl, ap, ℕ, suc, ◌+◌, ◌-◌, ◌*◌, Bool, true, List, [], ◌∷◌, ◌++◌, arith, length, all,
  all-cons, Bool-cases, inl, inr,
}
use native.Mathlib.Nat.{add-zero, add-suc, suc-add, zero-add}
use afterglow.Text.{is_digit, first_piece, second_piece, pad_end_2, number}
use afterglow.Price.{is_fraction, matches_from}

-- What may follow the whole dollars, with the cents that it stands for.
pub data Tail : List ℕ → ℕ → Type 0 where
  no_cents : Tail [] 0
  tenths : {c a : ℕ} → c ≡ b'.' → is_digit a ≡ true → Tail (c ∷ a ∷ []) ((a - b'0') * 10)
  hundredths :
      {c a b : ℕ}
      → c ≡ b'.'
      → is_digit a ≡ true
      → is_digit b ≡ true
      → Tail (c ∷ a ∷ b ∷ []) ((a - b'0') * 10 + (b - b'0'))

-- `s` writes an amount of `cents` with `digits` digits of whole dollars.
pub record IsAmount (s : List ℕ) (digits cents : ℕ) : Type 0 where
  pub whole : List ℕ
  pub tail : List ℕ
  pub part : ℕ
  pub numeric : all is_digit whole ≡ true
  pub counted : length whole ≡ digits
  pub shape : Tail tail part
  pub text : s ≡ whole ++ tail
  pub value : cents ≡ number whole * 100 + part

is_fraction-Tail : (s : List ℕ) → is_fraction s ≡ true → (part : ℕ) × Tail s part
unfolding is_fraction
is_fraction-Tail [] h = (0, no_cents)
is_fraction-Tail (c ∷ []) h = absurd (ground arith)
is_fraction-Tail (c ∷ a ∷ []) h = (_, tenths (ground arith) (ground arith))
is_fraction-Tail (c ∷ a ∷ b ∷ []) h = (_, hundredths (ground arith) (ground arith) (ground arith))
is_fraction-Tail (c ∷ a ∷ b ∷ d ∷ s) h = absurd (ground arith)

Tail-is_fraction : {s : List ℕ} {part : ℕ} → Tail s part → is_fraction s ≡ true
unfolding is_fraction
Tail-is_fraction no_cents = refl
Tail-is_fraction (tenths e a) = ground arith
Tail-is_fraction (hundredths e a b) = ground arith

-- A text that matches is digits and such a tail.
record Matched (fits : ℕ → Bool) (seen : ℕ) (s : List ℕ) : Type 0 where
  whole : List ℕ
  tail : List ℕ
  part : ℕ
  numeric : all is_digit whole ≡ true
  fitting : fits (seen + length whole) ≡ true
  shape : Tail tail part
  text : s ≡ whole ++ tail

matches_from-Matched :
    (fits : ℕ → Bool) (seen : ℕ) (s : List ℕ)
    → matches_from fits seen s ≡ true
    → Matched fits seen s
unfolding matches_from
matches_from-Matched fits seen [] h = record {
  whole = [];
  tail = [];
  part = 0;
  numeric = refl;
  fitting = rw add-zero h;
  shape = no_cents;
  text = refl;
}
matches_from-Matched fits seen (c ∷ s) h = elim (Bool-cases (is_digit c)) [
  | inl digit ↦
      let m = matches_from-Matched fits (suc seen) s (ground arith) in
      record {
        whole = c ∷ m.whole;
        tail = m.tail;
        part = m.part;
        numeric = rw digit m.numeric;
        fitting = rw (add-suc, ← suc-add) m.fitting;
        shape = m.shape;
        text = ap (λ t. c ∷ t) m.text;
      }
  | inr other ↦
      let both = rw other at h in
      let (part, shape) = is_fraction-Tail (c ∷ s) (ground arith) in
      record {
        whole = [];
        tail = c ∷ s;
        part = part;
        numeric = refl;
        fitting = rw add-zero (ground arith);
        shape = shape;
        text = refl;
      }
]

matches_from-Tail :
    (fits : ℕ → Bool) (seen : ℕ) {t : List ℕ} {part : ℕ}
    → Tail t part
    → fits seen ≡ true
    → matches_from fits seen t ≡ true
unfolding matches_from is_fraction
matches_from-Tail fits seen no_cents h = h
matches_from-Tail fits seen (tenths e a) h = ground arith
matches_from-Tail fits seen (hundredths e a b) h = ground arith

matches_from-append :
    (fits : ℕ → Bool) (seen : ℕ) (ds : List ℕ) {t : List ℕ} {part : ℕ}
    → all is_digit ds ≡ true
    → Tail t part
    → fits (seen + length ds) ≡ true
    → matches_from fits seen (ds ++ t) ≡ true
unfolding matches_from
matches_from-append fits seen [] d shape h = matches_from-Tail fits seen shape (rw add-zero at h)
matches_from-append fits seen (c ∷ ds) d shape h =
    let (here, later) = all-cons is_digit c ds d in
    rw here (matches_from-append fits (suc seen) ds later shape (rw (add-suc, ← suc-add) at h))

-- The two pieces around the point.
first_piece-append :
    (ds : List ℕ) {t : List ℕ} {part : ℕ}
    → all is_digit ds ≡ true
    → Tail t part
    → first_piece b'.' (ds ++ t) ≡ ds
unfolding first_piece
first_piece-append [] d no_cents = refl
first_piece-append [] d (tenths e a) = ground arith
first_piece-append [] d (hundredths e a b) = ground arith
first_piece-append (c ∷ ds) d shape =
    let (here, later) = all-cons is_digit c ds d in
    ground (arith, first_piece-append ds later shape)

second_piece-append :
    (ds : List ℕ) {t : List ℕ} {part : ℕ}
    → all is_digit ds ≡ true
    → Tail t part
    → number (pad_end_2 (second_piece b'.' (ds ++ t))) ≡ part
unfolding second_piece number
second_piece-append [] d no_cents = refl
second_piece-append [] d (tenths e a) = ground arith
second_piece-append [] d (hundredths e a b) = ground arith
second_piece-append (c ∷ ds) d shape =
    let (here, later) = all-cons is_digit c ds d in
    ground (arith, second_piece-append ds later shape)

pub IsAmount-pieces :
    {s : List ℕ} {digits cents : ℕ}
    → IsAmount s digits cents
    → number (first_piece b'.' s) * 100 + number (pad_end_2 (second_piece b'.' s)) ≡ cents
IsAmount-pieces a =
    rw (a.text, first_piece-append a.whole a.numeric a.shape, a.value)
      (ap (λ p. number a.whole * 100 + p) (second_piece-append a.whole a.numeric a.shape))

-- A text that matches is an amount, and an amount with a fitting number of digits matches.
pub matches_from-IsAmount :
    (fits : ℕ → Bool) (s : List ℕ)
    → matches_from fits 0 s ≡ true
    → (digits cents : ℕ) × IsAmount s digits cents × (fits digits ≡ true)
matches_from-IsAmount fits s h =
    let m = matches_from-Matched fits 0 s h in
    (
      length m.whole,
      _,
      record {
        whole = m.whole;
        tail = m.tail;
        part = m.part;
        numeric = m.numeric;
        counted = refl;
        shape = m.shape;
        text = m.text;
        value = refl;
      },
      rw zero-add at m.fitting,
    )

pub IsAmount-matches_from :
    (fits : ℕ → Bool) {s : List ℕ} {digits cents : ℕ}
    → IsAmount s digits cents
    → fits digits ≡ true
    → matches_from fits 0 s ≡ true
IsAmount-matches_from fits a h =
    rw a.text (matches_from-append fits 0 a.whole a.numeric a.shape (rw (zero-add, a.counted) h))
