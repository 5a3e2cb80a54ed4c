-- ===== src/Assurance/FollowUp.antt =====
-- What the panel recommends of a report, and what it lets a reader export.
use afterglow.Prelude.{
  ◌≡◌, refl, ℕ, ◌<◌, ◌↔◌, ◌≢◌, ◌⊎◌, inl, inr, true, false, List, [], ◌∷◌, Memᴰ, arith, Bool-cases,
  ◌==◌, some, none, eq_iff,
}
use afterglow.Api.{accepted, quarantined, failed}
use afterglow.Assurance.{
  Report, Advice, budget_mismatch, missing_playback, review_evidence, recover_failures,
  watch_progress, no_exceptions, when_some, counted_items, or_clean, recommendations, Panel,
  content, showing, export, export_disabled,
}

-- When an item applies to a report, and with which number.
pub data Applies (r : Report) : Advice → Type 0 where
  mismatch : r.budget_consistent ≡ false → Applies r budget_mismatch
  missing : 0 < r.awaiting_evidence → Applies r (missing_playback r.awaiting_evidence)
  review : 0 < r.decisions quarantined → Applies r (review_evidence (r.decisions quarantined))
  recover : 0 < r.decisions failed → Applies r (recover_failures (r.decisions failed))
  watch : 0 < r.decisions accepted → Applies r (watch_progress (r.decisions accepted))
  clean :
      r.budget_consistent ≡ true
      → r.awaiting_evidence ≡ 0
      → r.decisions quarantined ≡ 0
      → r.decisions failed ≡ 0
      → r.decisions accepted ≡ 0
      → Applies r no_exceptions

when_some_sound :
    {a item : Advice} (n : ℕ) (items : List Advice)
    → Memᴰ a (when_some n item items)
    → ((0 < n) × (a ≡ item)) ⊎ Memᴰ a items
unfolding when_some
when_some_sound n items m = elim (Bool-cases (n == 0)) [
  | inl none' ↦ inr (rw none' at m)
  | inr some' ↦ head_or_tail (ground arith) (rw some' at m)
]
  where
    head_or_tail :
        {a item : Advice} → 0 < n → Memᴰ a (item ∷ items) → ((0 < n) × (a ≡ item)) ⊎ Memᴰ a items
    head_or_tail pos (Memᴰ.head e) = inl (pos, e)
    head_or_tail pos (Memᴰ.tail m) = inr m

when_some-here :
    (n : ℕ) (item : Advice) (items : List Advice) → 0 < n → Memᴰ item (when_some n item items)
unfolding when_some
when_some-here n item items h =
    let positive : (n == 0) ≡ false = ground arith in rw positive (Memᴰ.head refl)

when_some-later :
    {a : Advice} (n : ℕ) (item : Advice) (items : List Advice)
    → Memᴰ a items
    → Memᴰ a (when_some n item items)
unfolding when_some
when_some-later n item items m = elim (Bool-cases (n == 0)) [
  | inl none' ↦ rw none' m
  | inr some' ↦ rw some' (Memᴰ.tail m)
]

counted_items_sound : (r : Report) {a : Advice} → Memᴰ a (counted_items r) → Applies r a
unfolding counted_items
counted_items_sound r m = elim (when_some_sound r.awaiting_evidence _ m) [
  | inl (pos, e) ↦ rw e (missing pos)
  | inr m₁ ↦ elim (when_some_sound (r.decisions quarantined) _ m₁) [
    | inl (pos, e) ↦ rw e (review pos)
    | inr m₂ ↦ elim (when_some_sound (r.decisions failed) _ m₂) [
      | inl (pos, e) ↦ rw e (recover pos)
      | inr m₃ ↦ elim (when_some_sound (r.decisions accepted) _ m₃) [
        | inl (pos, e) ↦ rw e (watch pos)
        | inr m₄ ↦ elim m₄ [ ]
      ]
    ]
  ]
]

counted_items-nil :
    (r : Report)
    → counted_items r ≡ []
    → (r.awaiting_evidence ≡ 0)
      × (r.decisions quarantined ≡ 0)
      × (r.decisions failed ≡ 0)
      × (r.decisions accepted ≡ 0)
unfolding counted_items when_some
counted_items-nil r e = (ground arith, ground arith, ground arith, ground arith)

or_clean_sound :
    {a : Advice} (r : Report) (items : List Advice)
    → (items ≡ [] → Applies r no_exceptions)
    → (Memᴰ a items → Applies r a)
    → Memᴰ a (or_clean items)
    → Applies r a
or_clean_sound r [] clean_case listed (Memᴰ.head e) = rw e (clean_case refl)
or_clean_sound r [] clean_case listed (Memᴰ.tail m) = elim m [ ]
or_clean_sound r (item ∷ items) clean_case listed m = listed m

recommendations_sound : (r : Report) {a : Advice} → Memᴰ a (recommendations r) → Applies r a
unfolding recommendations
recommendations_sound r m = elim (Bool-cases r.budget_consistent) [
  | inl agrees ↦
      or_clean_sound r (counted_items r)
        (λ e. let (w, q, f, a) = counted_items-nil r e in clean agrees w q f a)
        (λ k. counted_items_sound r k) (rw agrees at m)
  | inr differs ↦ mismatch_case differs (rw differs at m)
]
  where
    mismatch_case :
        {a : Advice}
        → r.budget_consistent ≡ false
        → Memᴰ a (budget_mismatch ∷ counted_items r)
        → Applies r a
    mismatch_case differs (Memᴰ.head e) = rw e (mismatch differs)
    mismatch_case differs (Memᴰ.tail k) = counted_items_sound r k

counted-recommended :
    (r : Report) {a : Advice} → Memᴰ a (counted_items r) → Memᴰ a (recommendations r)
unfolding recommendations
counted-recommended r m = elim (Bool-cases r.budget_consistent) [
  | inl agrees ↦ rw agrees (or_clean-mem (counted_items r) m)
  | inr differs ↦ rw differs (Memᴰ.tail m)
]
  where
    or_clean-mem : {a : Advice} (items : List Advice) → Memᴰ a items → Memᴰ a (or_clean items)
    or_clean-mem [] k = elim k [ ]
    or_clean-mem (item ∷ items) k = k

Applies-counted :
    (r : Report) {a : Advice}
    → Applies r a
    → (a ≢ budget_mismatch)
    → (a ≢ no_exceptions)
    → Memᴰ a (counted_items r)
unfolding counted_items
Applies-counted r (mismatch h) p q = absurd (p refl)
Applies-counted r (missing h) p q = search when_some-here
Applies-counted r (review h) p q = search (when_some-here, when_some-later)
Applies-counted r (recover h) p q = search (when_some-here, when_some-later)
Applies-counted r (watch h) p q = search (when_some-here, when_some-later)
Applies-counted r (clean c w q' f a) p q = absurd (q refl)

recommendations-complete : (r : Report) {a : Advice} → Applies r a → Memᴰ a (recommendations r)
unfolding recommendations
recommendations-complete r (mismatch h) = rw h (Memᴰ.head refl)
recommendations-complete r (clean c w q f a) =
    let none_found : recommendations r ≡ no_exceptions ∷ [] =
      unfold recommendations when_some in ground arith in
    rw none_found (Memᴰ.head refl)
recommendations-complete r (missing h) =
    counted-recommended r (Applies-counted r (missing h) (λ e. cc) (λ e. cc))
recommendations-complete r (review h) =
    counted-recommended r (Applies-counted r (review h) (λ e. cc) (λ e. cc))
recommendations-complete r (recover h) =
    counted-recommended r (Applies-counted r (recover h) (λ e. cc) (λ e. cc))
recommendations-complete r (watch h) =
    counted-recommended r (Applies-counted r (watch h) (λ e. cc) (λ e. cc))

-- The recommendations are exactly those that apply: each exception with its own count, a budget
-- mismatch where the balances disagree, and "no exceptions" only where everything is clear.
pub recommendations_iff : (r : Report) (a : Advice) → Memᴰ a (recommendations r) ↔ Applies r a
recommendations_iff r a = (recommendations_sound r, recommendations-complete r)

-- What a click on the export exports is exactly the report on screen, and the button is disabled
-- exactly where no report is on screen.
pub export-content :
    (p : Panel)
    → ((r : Report) → (export p ≡ some r) ↔ (content p ≡ showing r))
      × ((export_disabled p ≡ true) ↔ (export p ≡ none))
unfolding export content export_disabled
export-content p = (λ r. ground (arith, eq_iff p.error ""), ground (arith, eq_iff p.error ""))
