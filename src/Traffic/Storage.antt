-- ===== src/Traffic/Storage.antt =====
-- What a reload of the page finds: the selection and the attempts that are still usable.
use mathlib.Core.Bool.{false≢true}
use afterglow.Prelude.{
  ◌≤◌, ◌<◌, ◌^◌, ◌*◌, ◌+◌, ◌⊎◌, inl, inr, ◌↔◌, All, all_iff, eq_iff, Bool-cases, sym, ◌∙◌, refl,
  ◌≡◌, ℕ, ◌-◌, Bool, true, ◌&&◌, List, [], ◌∷◌, Option, none, some, str_eq, leb, ltb, arith,
  if◌then◌else◌, length, all,
}
use afterglow.Traffic.{
  Sample, baseline, Batch, Attempt, Attempts, Panel, Saved, Task, reading, fetching, sending,
  clearing, alone, by_import, by_empty,
}
use afterglow.Traffic.Machine.{
  Command, load, replay, empty, generate, refreshing, choosing, rendering, console_refreshing,
  perform, Reply, got_report, got_batch, got_result, got_emptied, failed, resume,
}

-- `Number.isSafeInteger`, on a time from 1970 on.
abbrev is_safe_integer : ℕ → Bool
is_safe_integer n = leb n 9007199254740991

-- The test on a stored batch, at the time of the load; `7 * 86400000` is a week. A stored value whose
-- fields have other types, or times before 1970, is none of these and counts as none.
unfoldable pub is_usable : ℕ → Batch → Bool
is_usable now b =
    str_eq b.source "synthetic-partner-v1"
    && ltb 0 (length b.window_starts)
    && leb (length b.window_starts) 96
    && all (λ start. is_safe_integer start && leb (now - 604800000) start) b.window_starts

unfoldable pub usable : ℕ → Option Attempt → Option Attempt
unfolding is_usable
usable now none = none
usable now (some a) = if is_usable now a.batch then some a else none

-- The selection and the attempts that the page starts from. A stored text that is no such value
-- counts as none.
unfoldable pub restore : ℕ → Option Saved → Sample × Attempts
unfolding usable
restore now none = (baseline, λ id. none)
restore now (some s) = (s.selected, λ id. usable now (s.attempts id))

-- What happens to a page while its session is active and storage works.
pub data Happening : Type 0 where
  did : Command → Happening
  got : Task → Reply → Happening

unfoldable pub happen : List Happening → Panel → Panel
happen [] p = p
happen (did c ∷ es) p = happen es (perform c p).0
happen (got t r ∷ es) p = happen es (resume t r p).0

pub record IsSaved (p : Panel) : Type 0 where
  pub active : p.active ≡ true
  pub writable : p.writable ≡ true
  pub current : p.saved ≡ some (record { selected = p.selected; attempts = p.attempts })

perform-IsSaved : (c : Command) (p : Panel) → IsSaved p → IsSaved (perform c p).0
unfolding perform
perform-IsSaved load p s = ground arith
perform-IsSaved replay p s = ground arith
perform-IsSaved empty p s = ground arith
perform-IsSaved generate p s = ground arith
perform-IsSaved refreshing p s = ground arith
perform-IsSaved (choosing id) p s = ground arith
perform-IsSaved rendering p s = ground arith
perform-IsSaved console_refreshing p s = ground arith

resume-IsSaved : (t : Task) (r : Reply) (p : Panel) → IsSaved p → IsSaved (resume t r p).0
unfolding resume
resume-IsSaved (reading k i m alone) (got_report x) p s = ground arith
resume-IsSaved (reading k i m by_import) (got_report x) p s = ground arith
resume-IsSaved (reading k i m by_empty) (got_report x) p s = ground arith
resume-IsSaved (reading k i m alone) (failed x) p s = ground arith
resume-IsSaved (reading k i m by_import) (failed x) p s = ground arith
resume-IsSaved (reading k i m by_empty) (failed x) p s = ground arith
resume-IsSaved (fetching i) (got_batch b) p s = ground arith
resume-IsSaved (fetching i) (failed x) p s = ground arith
resume-IsSaved (sending i b) (got_result y n) p s = ground arith
resume-IsSaved (sending i b) (failed x) p s = ground arith
resume-IsSaved (clearing i) got_emptied p s = ground arith
resume-IsSaved (clearing i) (failed x) p s = ground arith
resume-IsSaved _ _ p s = s

happen-IsSaved : (es : List Happening) (p : Panel) → IsSaved p → IsSaved (happen es p)
unfolding happen
happen-IsSaved [] p s = s
happen-IsSaved (did c ∷ es) p s = happen-IsSaved es (perform c p).0 (perform-IsSaved c p s)
happen-IsSaved (got t r ∷ es) p s = happen-IsSaved es (resume t r p).0 (resume-IsSaved t r p s)

-- A batch that may be sent again: of the synthetic source, with one to 96 windows, each of which
-- began, at an exact time, no longer than seven days ago.
pub record IsRecent (now : ℕ) (b : Batch) : Type 0 where
  pub source : b.source ≡ "synthetic-partner-v1"
  pub windows : (1 ≤ length b.window_starts) × (length b.window_starts ≤ 96)
  pub starts :
      All (λ start. (start < 2 ^ 53) × (now ≤ start + 7 * 24 * 60 * 60 * 1000)) b.window_starts

-- What is found of an attempt that was held.
abbrev pub IsFound : ℕ → Option Attempt → Option Attempt → Type 0
IsFound now none found = found ≡ none
IsFound now (some a) found =
    (IsRecent now a.batch × (found ≡ some a)) ⊎ ((IsRecent now a.batch → ⊥) × (found ≡ none))

starts_iff :
    (now : ℕ) (starts : List ℕ)
    → (all (λ start. leb start 9007199254740991 && leb (now - 604800000) start) starts ≡ true)
      ↔ All (λ start. (start < 2 ^ 53) × (now ≤ start + 7 * 24 * 60 * 60 * 1000)) starts
starts_iff now starts =
    all_iff _ _ (λ start. (λ h. (ground arith, ground arith), λ (low, high). ground arith)) starts

is_usable-IsRecent : (now : ℕ) (b : Batch) → (is_usable now b ≡ true) ↔ IsRecent now b
unfolding is_usable
is_usable-IsRecent now b =
    let (reads, writes) = starts_iff now b.window_starts in
    (
      λ h. record {
        source = ground (arith, eq_iff b.source "synthetic-partner-v1");
        windows = (ground arith, ground arith);
        starts = reads (ground arith);
      },
      λ r.
          let at_least = r.windows.0 in
          let at_most = r.windows.1 in
          let starts = writes r.starts in
          ground (arith, eq_iff b.source "synthetic-partner-v1", r.source),
    )

usable-IsFound : (now : ℕ) (o : Option Attempt) → IsFound now o (usable now o)
unfolding usable
usable-IsFound now none = refl
usable-IsFound now (some a) = elim (Bool-cases (is_usable now a.batch)) [
  | inl fits ↦ rw fits (inl ((is_usable-IsRecent now a.batch).0 fits, refl))
  | inr unfit ↦
      rw unfit (inr (λ r. false≢true (sym unfit ∙ (is_usable-IsRecent now a.batch).1 r), refl))
]

-- While the session is active and storage works, whatever commands and answers follow a state that
-- was saved: a reload at that moment finds the selection, and of each sample the attempt that is
-- held, with its batch and whether it was confirmed, exactly where its batch is of the synthetic
-- source, has one to 96 windows, and each of these began no longer than seven days ago.
pub restore-happen :
    (now : ℕ) (es : List Happening) (p : Panel)
    → IsSaved p
    → let found = restore now (happen es p).saved in
      (found.0 ≡ (happen es p).selected)
      × ((id : Sample) → IsFound now ((happen es p).attempts id) (found.1 id))
unfolding restore
restore-happen now es p s =
    rw (happen-IsSaved es p s).current (refl, λ id. usable-IsFound now ((happen es p).attempts id))
