-- ===== src/Traffic/Fair.antt =====
-- The chart and the table of a zone show its cells as they are.
use afterglow.Prelude.{
  ◌≡◌, refl, ℕ, ◌*◌, ◌≤◌, List, [], ◌∷◌, ◌++◌, map, some, arith, All, Bool-cases, inl, inr, length,
  leb,
}
use native.Mathlib.Nat.{mul-le-mul_right}
use afterglow.Traffic.Cells.{CellStatus, reported, suppressed, missing, Cell, Zone}
use afterglow.Traffic.Display.{
  count, greatest, top, Height, height, Bar, bar, Hour, pair_up, bars, Shown, number,
  suppressed_text, no_data, value, Row, table, Article, article, articles,
}

-- A fraction of 3 to 100 percent.
pub record IsWithin (h : Height) : Type 0 where
  pub defined : 1 ≤ h.under
  pub visible : 3 * h.under ≤ h.over
  pub at_most : h.over ≤ 100 * h.under

-- The order of fractions.
abbrev pub IsLower : Height → Height → Type 0
IsLower h k = h.over * k.under ≤ k.over * h.under

pub height-IsWithin : (most n : ℕ) → 1 ≤ most → n ≤ most → IsWithin (height most n)
unfolding height
height-IsWithin most n h k = elim (Bool-cases (leb (100 * n) (3 * most))) [
  | inl low ↦
      rw low (record { defined = omega arith; visible = omega arith; at_most = omega arith })
  | inr high ↦ rw high (record { defined = h; visible = ground arith; at_most = omega arith })
]

pub height-IsLower : (most m n : ℕ) → 1 ≤ most → m ≤ n → IsLower (height most m) (height most n)
unfolding height
height-IsLower most m n h k = elim (Bool-cases (leb (100 * m) (3 * most))) [
  | inl low ↦ elim (Bool-cases (leb (100 * n) (3 * most))) [
    | inl low' ↦ rw (low, low') (omega arith)
    | inr high ↦ rw (low, high) (ground arith)
  ]
  | inr high ↦ elim (Bool-cases (leb (100 * n) (3 * most))) [
    | inl low ↦ ground arith
    | inr high' ↦
        rw (high, high') (mul-le-mul_right {m = 100 * m} {n = 100 * n} most (ground arith))
  ]
]

-- Two lists side by side.
abbrev zip_with : {A : Type 0} {B : Type 0} → (A → A → B) → List A → List A → List B
zip_with f (x ∷ xs) (y ∷ ys) = f x y ∷ zip_with f xs ys
zip_with f _ _ = []

pair_up-zip_with :
    {A : Type 0} (f : Cell → Cell → A) (xs ys : List Cell)
    → length xs ≡ length ys
    → pair_up f xs ys ≡ some (zip_with f xs ys)
unfolding pair_up
pair_up-zip_with f [] ys h = refl
pair_up-zip_with f (x ∷ xs) [] h = ground arith
pair_up-zip_with f (x ∷ xs) (y ∷ ys) h = rw (pair_up-zip_with f xs ys (ground arith)) refl

greatest-All :
    (cells : List Cell) (most : ℕ)
    → greatest (map count cells) ≤ most
    → All (λ c. count c ≤ most) cells
greatest-All [] most h = tt
greatest-All (c ∷ cells) most h = (omega arith, greatest-All cells most (omega arith))

one_at_least : (cells : List Cell) → 1 ≤ greatest (map count cells)
one_at_least [] = omega arith
one_at_least (c ∷ cells) = let rest = one_at_least cells in omega arith

-- The parts of `All` over a list that continues another.
All-parts : (P : Cell → Type 0) (xs ys : List Cell) → All P (xs ++ ys) → All P xs × All P ys
All-parts P [] ys h = (tt, h)
All-parts P (x ∷ xs) ys (p, h) = let (left, right) = All-parts P xs ys h in ((p, left), right)

-- The counts that may be shown, hour by hour, the current one first.
abbrev pub released_one : Cell → List ℕ
released_one c = elim (c.status) [ reported ↦ count c ∷ [] | _ ↦ [] ]

abbrev pub released : List Cell → List Cell → List ℕ
released (c ∷ cs) (d ∷ ds) = released_one c ++ (released_one d ++ released cs ds)
released _ _ = []

-- The numbers in a table, row by row.
abbrev pub number_of : Shown → List ℕ
number_of (number n) = n ∷ []
number_of suppressed_text = []
number_of no_data = []

abbrev pub numbers : List Row → List ℕ
numbers [] = []
numbers (r ∷ rows) = number_of r.current ++ (number_of r.previous ++ numbers rows)

-- A bar of a cell among bars whose heights compare as the counts do.
pub record IsBarOf (most : ℕ) (c : Cell) (b : Bar) : Type 0 where
  pub status : b.status ≡ c.status
  pub within : IsWithin b.height
  pub above : (d : Cell) → count d ≤ count c → IsLower (height most (count d)) b.height
  pub below : (d : Cell) → count c ≤ count d → IsLower b.height (height most (count d))

abbrev pub AreBars : ℕ → List Cell → List Cell → List Hour → Type 0
AreBars most (c ∷ cs) (d ∷ ds) (h ∷ hours) =
    IsBarOf most c h.current × IsBarOf most d h.previous × AreBars most cs ds hours
AreBars most [] [] [] = Unit
AreBars most _ _ _ = ⊥

pub record IsFair (z : Zone) (a : Article) : Type 0 where
  pub zone : a.zone ≡ z.id
  pub numbers_shown : numbers a.rows ≡ released z.current z.previous
  pub chart : AreBars (top z) z.current z.previous a.hours

bar-IsBarOf : (most : ℕ) (c : Cell) → 1 ≤ most → count c ≤ most → IsBarOf most c (bar most c)
bar-IsBarOf most c h k = record {
  status = refl;
  within = height-IsWithin most (count c) h k;
  above = λ d e. height-IsLower most (count d) (count c) h e;
  below = λ d e. height-IsLower most (count c) (count d) h e;
}

abbrev hour : ℕ → Cell → Cell → Hour
hour most c d = record {
  window_start = c.window_start;
  previous = bar most d;
  current = bar most c;
}

abbrev row : Cell → Cell → Row
row c d = record { window_start = c.window_start; current = value c; previous = value d }

hours-AreBars :
    (most : ℕ) (cs ds : List Cell)
    → length cs ≡ length ds
    → 1 ≤ most
    → All (λ c. count c ≤ most) cs
    → All (λ c. count c ≤ most) ds
    → AreBars most cs ds (zip_with (hour most) cs ds)
hours-AreBars most [] [] e h ks ls = tt
hours-AreBars most [] (d ∷ ds) e h ks ls = ground arith
hours-AreBars most (c ∷ cs) [] e h ks ls = ground arith
hours-AreBars most (c ∷ cs) (d ∷ ds) e h (k, ks) (l, ls) = (
  bar-IsBarOf most c h k,
  bar-IsBarOf most d h l,
  hours-AreBars most cs ds (ground arith) h ks ls,
)

number_of-value : (c : Cell) → number_of (value c) ≡ released_one c
unfolding value
number_of-value c = by_status c.status
  where
    by_status :
        (s : CellStatus)
        → number_of (elim s [
          | reported ↦ number (count c)
          | suppressed ↦ suppressed_text
          | missing ↦ no_data
        ])
          ≡ elim s [ reported ↦ count c ∷ [] | _ ↦ [] ]
    by_status reported = refl
    by_status suppressed = refl
    by_status missing = refl

numbers-released : (cs ds : List Cell) → numbers (zip_with row cs ds) ≡ released cs ds
numbers-released [] ds = refl
numbers-released (c ∷ cs) [] = refl
numbers-released (c ∷ cs) (d ∷ ds) =
    rw (number_of-value c, number_of-value d, numbers-released cs ds) refl

pub article-IsFair :
    (z : Zone)
    → length z.current ≡ length z.previous
    → (a : Article) × (article z ≡ some a) × IsFair z a
unfolding article bars table top
article-IsFair z e =
    let most = top z in
    let (today, yesterday) =
      All-parts (λ c. count c ≤ most) z.current z.previous
        (greatest-All (z.current ++ z.previous) most (omega arith)) in
    (
      record {
        zone = z.id;
        name = z.name;
        hours = zip_with (hour most) z.current z.previous;
        rows = zip_with row z.current z.previous;
        paired = z.comparable_windows;
      },
      rw
          (
            pair_up-zip_with (hour most) z.current z.previous e,
            pair_up-zip_with row z.current z.previous e,
          )
          refl,
      record {
        zone = refl;
        numbers_shown = numbers-released z.current z.previous;
        chart =
            hours-AreBars most z.current z.previous e (one_at_least (z.current ++ z.previous)) today
              yesterday;
      },
    )

-- Both days of a zone have as many cells.
abbrev pub AreAligned : List Zone → Type 0
AreAligned = All (λ z. length z.current ≡ length z.previous)

-- One article for each zone, in order.
abbrev pub AreFair : List Zone → List Article → Type 0
AreFair [] [] = Unit
AreFair (z ∷ zones) (a ∷ written) = IsFair z a × AreFair zones written
AreFair _ _ = ⊥

pub articles-AreFair :
    (zones : List Zone)
    → AreAligned zones
    → (written : List Article) × (articles zones ≡ some written) × AreFair zones written
unfolding articles
articles-AreFair [] h = ([], refl, tt)
articles-AreFair (z ∷ zones) (e, h) =
    let (a, writes, fair) = article-IsFair z e in
    let (rest, follows, others) = articles-AreFair zones h in
    (a ∷ rest, rw (writes, follows) refl, (fair, others))
