-- ===== src/Prelude/Predicates.antt =====
-- Predicates on lists by recursion, which the tactics read and build.
use mathlib.Core.Path.{◌≡◌, refl}
use mathlib.Core.Bool.{Bool, true}
use mathlib.Core.Logic.{◌↔◌, inl, inr}
use mathlib.Core.List.{List, [], ◌∷◌, ◌++◌, Memᴰ}
use native.Mathlib.Omega.{arith}
use afterglow.Prelude.Tests.{Bool-cases}
use afterglow.Prelude.Lists.{filter, any, all}

abbrev pub All {ℓ κ} : {A : Type ℓ} → (A → Type κ) → List A → Type κ
All P [] = Unit
All P (x ∷ xs) = P x × All P xs

module _ {ℓ κ} {A : Type ℓ} (P : A → Type κ) where
  pub All-append : (xs ys : List A) → All P xs → All P ys → All P (xs ++ ys)
  All-append [] ys h k = k
  All-append (x ∷ xs) ys (p, h) k = (p, All-append xs ys h k)

-- What `filter` leaves, and what `any` finds.
module _ {ℓ} {A : Type ℓ} (p : A → Bool) where
  -- Below a row that is kept: it is the row sought, or the rest has it.
  cons_case :
      {x : A} (y : A) (ys : List A)
      → p y ≡ true
      → (Memᴰ x (filter p ys) → Memᴰ x ys × (p x ≡ true))
      → Memᴰ x (y ∷ filter p ys)
      → Memᴰ x (y ∷ ys) × (p x ≡ true)
  cons_case y ys kept ih (Memᴰ.head e) = (Memᴰ.head e, rw e kept)
  cons_case y ys kept ih (Memᴰ.tail m) = let (later, holds) = ih m in (Memᴰ.tail later, holds)

  pub filter-keeps : {x : A} (xs : List A) → Memᴰ x (filter p xs) → Memᴰ x xs × (p x ≡ true)
  filter-keeps [] m = elim m [ ]
  filter-keeps (y ∷ ys) m = elim (Bool-cases (p y)) [
    | inl kept ↦ cons_case y ys kept (filter-keeps ys) (rw kept at m)
    | inr dropped ↦
        let (later, holds) = filter-keeps ys (rw dropped at m) in (Memᴰ.tail later, holds)
  ]

  pub filter-mem : {x : A} (xs : List A) → Memᴰ x xs → p x ≡ true → Memᴰ x (filter p xs)
  filter-mem [] m h = elim m [ ]
  filter-mem {x} (y ∷ ys) (Memᴰ.head e) h =
      let here : p y ≡ true = rw e at h in rw here (Memᴰ.head e)
  filter-mem (y ∷ ys) (Memᴰ.tail m) h = elim (Bool-cases (p y)) [
    | inl kept ↦ rw kept (Memᴰ.tail (filter-mem ys m h))
    | inr dropped ↦ rw dropped (filter-mem ys m h)
  ]

  pub any-finds : (xs : List A) → any p xs ≡ true → (x : A) × Memᴰ x xs × (p x ≡ true)
  any-finds (x ∷ xs) h = elim (Bool-cases (p x)) [
    | inl here ↦ (x, Memᴰ.head refl, here)
    | inr later ↦ let (y, m, holds) = any-finds xs (rw later at h) in (y, Memᴰ.tail m, holds)
  ]
  any-finds [] h = cc

  pub any-mem : {x : A} {xs : List A} → Memᴰ x xs → p x ≡ true → any p xs ≡ true
  any-mem (Memᴰ.head e) h = ground arith
  any-mem (Memᴰ.tail m) h = ground (arith, any-mem m h)

-- `all` of a test is `All` of what the test decides.
pub all_iff {ℓ κ} :
    {A : Type ℓ} (t : A → Bool) (P : A → Type κ)
    → ((x : A) → (t x ≡ true) ↔ P x)
    → (xs : List A) → (all t xs ≡ true) ↔ All P xs
all_iff t P decides [] = (λ h. tt, λ h. refl)
all_iff t P decides (x ∷ xs) = (
  λ h. ((decides x).0 (ground arith), (all_iff t P decides xs).0 (ground arith)),
  λ (p, ps). let here = (decides x).1 p in let rest = (all_iff t P decides xs).1 ps in ground arith,
)
