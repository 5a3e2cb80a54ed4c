-- ===== src/Prelude/Members.antt =====
-- The members of a list: what holds of them, and how `find` gets at one by its key.
use Prim.Native.Nat.{ℕ, zero, suc}
use Prim.Native.String.{String}
use mathlib.Core.Path.{◌≡◌, refl, ap, subst⁻¹}
use mathlib.Core.Logic.{inl, inr}
use mathlib.Core.Bool.{Bool, true}
use mathlib.Core.Option.{some}
use mathlib.Core.List.{List, [], ◌∷◌, map, Memᴰ}
use native.Mathlib.Omega.{arith}
use text.Mathlib.Text.{◌==◌ as str_eq}
use text.Mathlib.TextEquality.{eq_iff}
use afterglow.Prelude.Tests.{Bool-cases}
use afterglow.Prelude.Lists.{find, filter, take, drop, length}
use afterglow.Prelude.Predicates.{All}

-- No text stands twice.
abbrev pub IsDistinct : List String → Type 0
IsDistinct [] = Unit
IsDistinct (s ∷ l) = (Memᴰ s l → ⊥) × IsDistinct l

module _ {ℓ} {A : Type ℓ} (key : A → String) where
  pub key-mem : {x : A} (xs : List A) → Memᴰ x xs → Memᴰ (key x) (map key xs)
  key-mem [] m = elim m [ ]
  key-mem (y ∷ ys) (Memᴰ.head e) = Memᴰ.head (ap key e)
  key-mem (y ∷ ys) (Memᴰ.tail m) = Memᴰ.tail (key-mem ys m)

  -- An element is found by its key.
  pub find-key :
      (xs : List A) (x : A)
      → IsDistinct (map key xs)
      → Memᴰ x xs
      → find (λ y. str_eq (key y) (key x)) xs ≡ some x
  find-key [] x h m = elim m [ ]
  find-key (y ∷ ys) x (new, rest) (Memᴰ.head e) =
      let same : str_eq (key y) (key y) ≡ true = ground (arith, eq_iff (key y) (key y)) in
      rw e (rw same refl)
  find-key (y ∷ ys) x (new, rest) (Memᴰ.tail m) = elim (Bool-cases (str_eq (key y) (key x))) [
    | inl same ↦
        let equal : key y ≡ key x = ground (arith, eq_iff (key y) (key x)) in
        absurd (new (subst⁻¹ (λ k. Memᴰ k (map key ys)) equal (key-mem ys m)))
    | inr other ↦ rw other (find-key ys x rest m)
  ]

module _ {ℓ κ} {A : Type ℓ} (P : A → Type κ) where
  pub All-take : (n : ℕ) (xs : List A) → All P xs → All P (take n xs)
  All-take zero xs a = tt
  All-take (suc n) [] a = tt
  All-take (suc n) (x ∷ xs) (p, a) = (p, All-take n xs a)

  pub All-drop : (n : ℕ) (xs : List A) → All P xs → All P (drop n xs)
  All-drop zero xs a = a
  All-drop (suc n) [] a = tt
  All-drop (suc n) (x ∷ xs) (p, a) = All-drop n xs a

  pub All-filter : (q : A → Bool) (xs : List A) → All P xs → All P (filter q xs)
  All-filter q [] a = tt
  All-filter q (x ∷ xs) (p, a) = elim (Bool-cases (q x)) [
    | inl kept ↦ rw kept (p, All-filter q xs a)
    | inr dropped ↦ rw dropped (All-filter q xs a)
  ]

  pub All-weaken : (Q : A → Type κ) → ((x : A) → P x → Q x) → (xs : List A) → All P xs → All Q xs
  All-weaken Q f [] a = tt
  All-weaken Q f (x ∷ xs) (p, a) = (f x p, All-weaken Q f xs a)

pub All-members {ℓ} : {A : Type ℓ} (xs : List A) → All (λ x. Memᴰ x xs) xs
All-members [] = tt
All-members (x ∷ xs) = (
  Memᴰ.head refl,
  All-weaken (λ y. Memᴰ y xs) (λ y. Memᴰ y (x ∷ xs)) (λ y m. Memᴰ.tail m) xs (All-members xs),
)

pub All-map {ℓ κ μ ν} :
    {A : Type ℓ} {B : Type κ} (P : B → Type μ) (Q : A → Type ν) (f : A → B)
    → ((x : A) → Q x → P (f x))
    → (xs : List A) → All Q xs
    → All P (map f xs)
All-map P Q f h [] a = tt
All-map P Q f h (x ∷ xs) (q, a) = (h x q, All-map P Q f h xs a)

pub length-map {ℓ κ} :
    {A : Type ℓ} {B : Type κ} (f : A → B) (xs : List A) → length (map f xs) ≡ length xs
length-map f [] = refl
length-map f (x ∷ xs) = ap suc (length-map f xs)

-- Two lists of one length whose elements are related one by one.
abbrev pub Pairs {ℓ κ} : {A : Type ℓ} {B : Type κ} → (A → B → Type 0) → List A → List B → Type 0
Pairs R [] [] = Unit
Pairs R [] (y ∷ ys) = ⊥
Pairs R (x ∷ xs) [] = ⊥
Pairs R (x ∷ xs) (y ∷ ys) = R x y × Pairs R xs ys

pub Pairs-map {ℓ κ} :
    {A : Type ℓ} {B : Type κ} (R : A → B → Type 0) (f : A → B)
    → ((x : A) → R x (f x))
    → (xs : List A) → Pairs R xs (map f xs)
Pairs-map R f h [] = tt
Pairs-map R f h (x ∷ xs) = (h x, Pairs-map R f h xs)
