-- ===== src/Proof/Identity.antt =====
-- The reservations that the last stage counts, by identity.
use afterglow.Prelude.{
  ◌≡◌, refl, sym, ◌∙◌, ap, ◌≢◌, ◌⊎◌, inl, inr, true, ◌&&◌, List, [], ◌∷◌, String, Option, none,
  some, arith, all, All, length, eq_iff, Bool-cases, ◌==◌,
}
use mathlib.Core.Bool.{false≢true}
use afterglow.Api.{Reservation, HoldState}
use afterglow.Proof.{Evidence}
use afterglow.Proof.Stages.{same_key, put, by_identity, is_settled_cent, are_two_cents}

abbrev key : Option Reservation → Option String
key none = none
key (some r) = some r.id

same_key-eq : (a b : Option Reservation) → same_key a b ≡ true → key a ≡ key b
same_key-eq none none h = refl
same_key-eq (some a) (some b) h = ap some ((eq_iff a.id b.id).0 h)
same_key-eq none (some b) h = absurd (false≢true h)
same_key-eq (some a) none h = absurd (false≢true h)

eq-same_key : (a b : Option Reservation) → key a ≡ key b → same_key a b ≡ true
eq-same_key none none h = refl
eq-same_key (some a) (some b) h = (eq_iff a.id b.id).1 (cc)
eq-same_key none (some b) h = absurd (cc)
eq-same_key (some a) none h = absurd (cc)

-- Some entry has this key, or none has.
abbrev Has : Option String → List (Option Reservation) → Type 0
Has k [] = ⊥
Has k (x ∷ seen) = (key x ≡ k) ⊎ Has k seen

abbrev IsDistinct : List (Option Reservation) → Type 0
IsDistinct [] = Unit
IsDistinct (x ∷ seen) = ¬ Has (key x) seen × IsDistinct seen

put-Has : (r : Option Reservation) (seen : List (Option Reservation)) → Has (key r) (put r seen)
put-Has r [] = inl refl
put-Has r (x ∷ rest) = elim (Bool-cases (same_key r x)) [
  | inl same ↦ rw same (inl refl)
  | inr other ↦ rw other (inr (put-Has r rest))
]

put-keeps :
    (k : Option String) (r : Option Reservation) (seen : List (Option Reservation))
    → Has k seen
    → Has k (put r seen)
put-keeps k r [] h = absurd h
put-keeps k r (x ∷ rest) (inl e) = elim (Bool-cases (same_key r x)) [
  | inl same ↦ rw same (inl (same_key-eq r x same ∙ e))
  | inr other ↦ rw other (inl e)
]
put-keeps k r (x ∷ rest) (inr h) = elim (Bool-cases (same_key r x)) [
  | inl same ↦ rw same (inr h)
  | inr other ↦ rw other (inr (put-keeps k r rest h))
]

Has-put :
    (k : Option String) (r : Option Reservation) (seen : List (Option Reservation))
    → Has k (put r seen)
    → (key r ≡ k) ⊎ Has k seen
Has-put k r [] (inl e) = inl e
Has-put k r [] (inr h) = absurd h
Has-put k r (x ∷ rest) h = elim (Bool-cases (same_key r x)) [
  | inl same ↦ first (rw same at h)
  | inr other ↦ second (Has-put k r rest) (rw other at h)
]
  where
    first : Has k (r ∷ rest) → (key r ≡ k) ⊎ Has k (x ∷ rest)
    first (inl e) = inl e
    first (inr h) = inr (inr h)

    second :
        (Has k (put r rest) → (key r ≡ k) ⊎ Has k rest)
        → Has k (x ∷ put r rest)
        → (key r ≡ k) ⊎ Has k (x ∷ rest)
    second f (inl e) = inr (inl e)
    second f (inr h) = elim (f h) [ inl e ↦ inl e | inr h' ↦ inr (inr h') ]

put-IsDistinct :
    (r : Option Reservation) (seen : List (Option Reservation))
    → IsDistinct seen
    → IsDistinct (put r seen)
put-IsDistinct r [] d = (λ h. h, tt)
put-IsDistinct r (x ∷ rest) (fresh, d) = elim (Bool-cases (same_key r x)) [
  | inl same ↦ rw same (λ h. fresh (rw (sym (same_key-eq r x same)) h), d)
  | inr other ↦ rw other (
    λ h. elim (Has-put (key x) r rest h) [
      | inl e ↦ false≢true (sym other ∙ eq-same_key r x e)
      | inr h' ↦ fresh h'
    ],
    put-IsDistinct r rest d,
  )
]

-- Every row has its reservation in the map.
abbrev Covers : List (Option Reservation) → List Evidence → Type 0
Covers seen rows = All (λ e. Has (key e.reservation) seen) rows

by_identity-keeps :
    (k : Option String) (rows : List Evidence) (seen : List (Option Reservation))
    → Has k seen
    → Has k (by_identity seen rows)
by_identity-keeps k [] seen h = h
by_identity-keeps k (e ∷ rows) seen h =
    by_identity-keeps k rows (put e.reservation seen) (put-keeps k e.reservation seen h)

by_identity-IsDistinct :
    (rows : List Evidence) (seen : List (Option Reservation))
    → IsDistinct seen
    → IsDistinct (by_identity seen rows)
by_identity-IsDistinct [] seen d = d
by_identity-IsDistinct (e ∷ rows) seen d =
    by_identity-IsDistinct rows (put e.reservation seen) (put-IsDistinct e.reservation seen d)

All-later :
    (rows : List Evidence) (seen : List (Option Reservation)) → Covers (by_identity seen rows) rows
All-later [] seen = tt
All-later (e ∷ rows) seen = (
  by_identity-keeps (key e.reservation) rows (put e.reservation seen) (put-Has e.reservation seen),
  All-later rows (put e.reservation seen),
)

-- A reservation of one cent that is settled.
pub record IsSettledCent (r : Reservation) : Type 0 where
  pub settled : r.state ≡ HoldState.settled
  pub cent : r.cost_micros ≡ 10000

-- The rows are of exactly two reservations, each a settled cent.
pub record AreTwoCents (rows : List Evidence) : Type 0 where
  pub one : Reservation
  pub two : Reservation
  pub different : one.id ≢ two.id
  pub one_settled : IsSettledCent one
  pub two_settled : IsSettledCent two
  pub no_other :
      All
        (λ e. (r : Reservation) × (e.reservation ≡ some r) × ((r.id ≡ one.id) ⊎ (r.id ≡ two.id)))
        rows

-- A row whose reservation is one of two.
one_of :
    (a b : Reservation) (o : Option Reservation)
    → Has (key o) (some a ∷ some b ∷ [])
    → (r : Reservation) × (o ≡ some r) × ((r.id ≡ a.id) ⊎ (r.id ≡ b.id))
one_of a b none (inl e) = absurd (cc)
one_of a b none (inr (inl e)) = absurd (cc)
one_of a b none (inr (inr h)) = absurd h
one_of a b (some r) (inl e) = (r, refl, inl (cc))
one_of a b (some r) (inr (inl e)) = (r, refl, inr (cc))
one_of a b (some r) (inr (inr h)) = absurd h

All-one_of :
    (a b : Reservation) (rows : List Evidence)
    → Covers (some a ∷ some b ∷ []) rows
    → All (λ e. (r : Reservation) × (e.reservation ≡ some r) × ((r.id ≡ a.id) ⊎ (r.id ≡ b.id))) rows
All-one_of a b [] c = tt
All-one_of a b (e ∷ rows) (h, c) = (one_of a b e.reservation h, All-one_of a b rows c)

two_of :
    (x y : Option Reservation) (rows : List Evidence)
    → is_settled_cent x ≡ true
    → is_settled_cent y ≡ true
    → ¬ (key y ≡ key x)
    → Covers (x ∷ y ∷ []) rows
    → AreTwoCents rows
two_of none y rows h k d c = absurd (false≢true h)
two_of (some a) none rows h k d c = absurd (false≢true k)
two_of (some a) (some b) rows h k d c = record {
  one = a;
  two = b;
  different = λ e. d (ap some (sym e));
  one_settled = record { settled = ground arith; cent = ground arith };
  two_settled = record { settled = ground arith; cent = ground arith };
  no_other = All-one_of a b rows c;
}

two_in :
    (seen : List (Option Reservation)) (rows : List Evidence)
    → (length seen == 2) && all is_settled_cent seen ≡ true
    → IsDistinct seen
    → Covers seen rows
    → AreTwoCents rows
two_in [] rows h d c = absurd (false≢true h)
two_in (x ∷ []) rows h d c = absurd (false≢true h)
two_in (x ∷ y ∷ []) rows h d c = two_of x y rows (ground arith) (ground arith) (λ e. d.0 (inl e)) c
two_in (x ∷ y ∷ z ∷ seen) rows h d c = absurd (ground arith)

pub are_two_cents-AreTwoCents :
    (rows : List Evidence) → are_two_cents rows ≡ true → AreTwoCents rows
are_two_cents-AreTwoCents rows h =
    two_in (by_identity [] rows) rows h (by_identity-IsDistinct rows [] tt) (All-later rows [])
