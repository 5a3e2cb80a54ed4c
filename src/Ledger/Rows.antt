-- ===== src/Ledger/Rows.antt =====
-- Which rows the ledger shows, and in which order.
use Prim.Native.Nat.{Ordering}
use mathlib.Core.List.{Mem, Perm}
use mathlib.Core.Logic.{∥∥₁_elim, ∥∥₁_map}
use mathlib.Core.Bool.{Bool-set}
use mathlib.Core.List.Perm
use native.Mathlib.Decide.{dec_lt}
use afterglow.Prelude.{
  All-weaken, ◌<◌, ◌≢◌, ◌⊎◌, Memᴰ, ◌≡◌, refl, Bool, true, false, List, [], ◌∷◌, String, arith, All,
  filter, Bool-cases, inl, inr, any-finds, any-mem, filter-keeps, filter-mem,
}
use afterglow.Api.{quarantined, failed, Delivery}
use afterglow.Ledger.{
  LedgerView, Filter, all, only, Sort, newest, oldest, insert, sort_rows, before, filtered,
  is_recovery, matches, passes, not_gt, found,
}

-- Sorting keeps every row, as often.
insert-perm :
    (le : Delivery → Delivery → Bool) (d : Delivery) (rows : List Delivery)
    → Perm (insert le d rows) (d ∷ rows)
unfolding insert
insert-perm le d [] = Perm.refl _
insert-perm le d (e ∷ rows) = elim (Bool-cases (le d e)) [
  | inl yes' ↦ rw yes' (Perm.refl _)
  | inr no' ↦ rw no' (Perm.trans (Perm.cons e (insert-perm le d rows)) (Perm.swap d e rows))
]

sort_rows-perm :
    (le : Delivery → Delivery → Bool) (rows : List Delivery) → Perm (sort_rows le rows) rows
unfolding sort_rows
sort_rows-perm le [] = Perm.refl _
sort_rows-perm le (d ∷ rows) =
    Perm.trans (insert-perm le d (sort_rows le rows)) (Perm.cons d (sort_rows-perm le rows))

abbrev pub IsOrdered : (Delivery → Delivery → Bool) → List Delivery → Type 0
IsOrdered le [] = Unit
IsOrdered le (d ∷ rows) = All (λ e. le d e ≡ true) rows × IsOrdered le rows

module _ (le : Delivery → Delivery → Bool)
    (total : (a b : Delivery) → le a b ≡ false → le b a ≡ true)
    (trans : (a b c : Delivery) → le a b ≡ true → le b c ≡ true → le a c ≡ true) where
  All-trans :
      (d e : Delivery) (rows : List Delivery)
      → le d e ≡ true
      → All (λ r. le e r ≡ true) rows
      → All (λ r. le d r ≡ true) rows
  All-trans d e [] h k = tt
  All-trans d e (r ∷ rows) h (k, ks) = (trans d e r h k, All-trans d e rows h ks)

  All-insert :
      (d e : Delivery) (rows : List Delivery)
      → le e d ≡ true
      → All (λ r. le e r ≡ true) rows
      → All (λ r. le e r ≡ true) (insert le d rows)
  unfolding insert
  All-insert d e [] h k = (h, tt)
  All-insert d e (r ∷ rows) h (k, ks) = elim (Bool-cases (le d r)) [
    | inl first ↦ rw first (h, (k, ks))
    | inr later ↦ rw later (k, All-insert d e rows h ks)
  ]

  insert-IsOrdered :
      (d : Delivery) (rows : List Delivery) → IsOrdered le rows → IsOrdered le (insert le d rows)
  unfolding insert
  insert-IsOrdered d [] h = (tt, tt)
  insert-IsOrdered d (e ∷ rows) (h, hs) = elim (Bool-cases (le d e)) [
    | inl first ↦ rw first ((first, All-trans d e rows first h), (h, hs))
    | inr later ↦ rw later (All-insert d e rows (total d e later) h, insert-IsOrdered d rows hs)
  ]

  pub sort_rows-IsOrdered : (rows : List Delivery) → IsOrdered le (sort_rows le rows)
  unfolding sort_rows
  sort_rows-IsOrdered [] = tt
  sort_rows-IsOrdered (d ∷ rows) = insert-IsOrdered d (sort_rows le rows) (sort_rows-IsOrdered rows)

-- What is relied on of `localeCompare`: it is a consistent comparison of texts.
pub record IsCollation (collate : String → String → Ordering) : Type 0 where
  pub total : (a b : String) → not_gt (collate a b) ≡ false → collate b a ≡ Ordering.lt
  pub trans :
      (a b c : String)
      → not_gt (collate a b) ≡ true
      → not_gt (collate b c) ≡ true
      → not_gt (collate a c) ≡ true

module _ (collate : String → String → Ordering) (laws : IsCollation collate) where
  before-total :
      (s : Sort) (a b : Delivery) → before collate s a b ≡ false → before collate s b a ≡ true
  unfolding before
  before-total oldest a b h = ground (arith, laws.total a.id b.id)
  before-total newest a b h = ground (arith, laws.total a.id b.id)

  before_trans :
      (s : Sort) (a b c : Delivery)
      → before collate s a b ≡ true
      → before collate s b c ≡ true
      → before collate s a c ≡ true
  unfolding before
  before_trans oldest a b c h k = ground (arith, laws.trans a.id b.id c.id)
  before_trans newest a b c h k = ground (arith, laws.trans a.id b.id c.id)

-- A row that the view, its filter and its search ask for.
pub record IsHit (lower : String → String) (v : LedgerView) (d : Delivery) : Type 0 where
  pub exceptional : is_recovery v.active ≡ true → (d.status ≡ quarantined) ⊎ (d.status ≡ failed)
  pub selected : (v.filter ≡ all) ⊎ (v.filter ≡ only d.status)
  pub text : String
  pub field : Memᴰ text (d.id ∷ d.event_id ∷ d.screen_id ∷ d.reservation_id ∷ d.reason ∷ [])
  pub contained : found lower v.search text ≡ true

module _ (lower : String → String) where
  matches-IsHit : (v : LedgerView) (d : Delivery) → matches lower v d ≡ true → IsHit lower v d
  unfolding matches
  matches-IsHit v d h =
      let (text, field, contained) =
        any-finds (found lower v.search)
          (d.id ∷ d.event_id ∷ d.screen_id ∷ d.reservation_id ∷ d.reason ∷ []) (ground arith) in
      record {
        exceptional = ground arith;
        selected = selected_by v.filter (ground arith);
        text = text;
        field = field;
        contained = contained;
      }
    where
      selected_by : (f : Filter) → passes f d ≡ true → (f ≡ all) ⊎ (f ≡ only d.status)
      selected_by all e = inl refl
      selected_by (only s) e = inr (ground arith)

  IsHit-matches : (v : LedgerView) (d : Delivery) → IsHit lower v d → matches lower v d ≡ true
  unfolding matches
  IsHit-matches v d hit = ground (
    arith,
    any-mem (found lower v.search) hit.field hit.contained,
    hit.exceptional,
    passes_selected v.filter hit.selected,
  )
    where
      passes_selected : (f : Filter) → (f ≡ all) ⊎ (f ≡ only d.status) → passes f d ≡ true
      passes_selected f (inl e) = rw e
      passes_selected f (inr e) = rw e (ground arith)

-- Which of two receipts stands first: the later one where the newest come first and the earlier one
-- where the oldest do, and of two at one time the one whose identifier collates first.
abbrev pub Precedes : (String → String → Ordering) → Sort → Delivery → Delivery → Type 0
Precedes collate newest a b =
    (b.received_at < a.received_at)
    ⊎ ((a.received_at ≡ b.received_at) × (collate a.id b.id ≢ Ordering.gt))
Precedes collate oldest a b =
    (a.received_at < b.received_at)
    ⊎ ((a.received_at ≡ b.received_at) × (collate a.id b.id ≢ Ordering.gt))

-- Each row precedes all rows below it.
abbrev pub Ordered : (Delivery → Delivery → Type 0) → List Delivery → Type 0
Ordered R [] = Unit
Ordered R (d ∷ rows) = All (R d) rows × Ordered R rows

not_gt-ne : (o : Ordering) → not_gt o ≡ true → o ≢ Ordering.gt
not_gt-ne o h e = ground arith

before-Precedes :
    (collate : String → String → Ordering) (s : Sort) (a b : Delivery)
    → before collate s a b ≡ true
    → Precedes collate s a b
unfolding before
before-Precedes collate newest a b h = elim (dec_lt b.received_at a.received_at) [
  | yes later ↦ inl later
  | no other ↦
      let same : a.received_at ≡ b.received_at = ground arith in inr (same, λ g. ground arith)
]
before-Precedes collate oldest a b h = elim (dec_lt a.received_at b.received_at) [
  | yes earlier ↦ inl earlier
  | no other ↦
      let same : a.received_at ≡ b.received_at = ground arith in inr (same, λ g. ground arith)
]

IsOrdered-Ordered :
    (le : Delivery → Delivery → Bool) (R : Delivery → Delivery → Type 0)
    → ((a b : Delivery) → le a b ≡ true → R a b)
    → (rows : List Delivery) → IsOrdered le rows
    → Ordered R rows
IsOrdered-Ordered le R f [] o = tt
IsOrdered-Ordered le R f (d ∷ rows) (first, o) =
    (All-weaken _ (R d) (λ e. f d e) rows first, IsOrdered-Ordered le R f rows o)

-- What the ledger makes of the deliveries it was given.
pub record Shows (lower : String → String) (collate : String → String → Ordering) (v : LedgerView)
    (deliveries rows : List Delivery) : Type 0 where
  pub exact : (d : Delivery) → Mem d rows → Mem d deliveries × IsHit lower v d
  pub complete : (d : Delivery) → Mem d deliveries → IsHit lower v d → Mem d rows
  pub as_often : Perm rows (filter (matches lower v) deliveries)
  pub ordered : Ordered (Precedes collate v.sort) rows

-- The rows shown are exactly the deliveries that the view, its filter and its search ask for, each
-- as often as the snapshot has it, the newest or the oldest first as chosen, with ties by identifier.
pub filtered-Shows :
    (lower : String → String) (collate : String → String → Ordering)
    → IsCollation collate
    → (v : LedgerView) (deliveries : List Delivery)
    → Shows lower collate v deliveries (filtered lower collate v deliveries)
unfolding filtered
filtered-Shows lower collate laws v deliveries = record {
  exact = λ d m.
      let kept = (Perm.mem_iff same).0 m in
      (
        ∥∥₁_map kept (λ k. (filter-keeps (matches lower v) deliveries k).0),
        matches-IsHit lower v d
            (∥∥₁_elim kept (Bool-set _ _) (λ k. (filter-keeps (matches lower v) deliveries k).1)),
      );
  complete = λ d m hit.
      (Perm.mem_iff same).1
        (∥∥₁_map m (λ k. filter-mem (matches lower v) deliveries k (IsHit-matches lower v d hit)));
  as_often = same;
  ordered =
      IsOrdered-Ordered (before collate v.sort) (Precedes collate v.sort)
        (before-Precedes collate v.sort) _
        (sort_rows-IsOrdered (before collate v.sort) (before-total collate laws v.sort)
          (before_trans collate laws v.sort) (filter (matches lower v) deliveries));
}
  where
    same : Perm (filtered lower collate v deliveries) (filter (matches lower v) deliveries)
    same = sort_rows-perm (before collate v.sort) (filter (matches lower v) deliveries)
