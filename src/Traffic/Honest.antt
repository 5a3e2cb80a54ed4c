-- ===== src/Traffic/Honest.antt =====
-- The page shows the report that it holds, and its failures, as they are.
use afterglow.Prelude.{
  ◌≡◌, refl, Bool, true, false, ◌++◌, String, Option, none, some, arith, All, Bool-cases, inl, inr,
  all_iff, str_eq, eq_iff, ◌⊎◌, if◌then◌else◌, sym, ap, ◌==◌, ◌∙◌, ◌↔◌, Option-cases,
}
use mathlib.Core.Bool.{false≢true}
use afterglow.Traffic.{Panel, Report}
use afterglow.Traffic.Cells.{CellStatus, reported, suppressed, missing, Cell, Sheet}
use afterglow.Traffic.Display.{
  Body, no_batch, grid, Content, sheet, content, report_content, failure, reading_windows,
  failed_only, is_empty, is_missing, without_report, metrics, invitation,
}
use afterglow.Traffic.Fair.{AreFair, AreAligned, articles-AreFair}

-- No cell of the report carries an observation.
abbrev pub AllMissing : Sheet → Type 0
AllMissing r = All (λ z. All (λ c. c.status ≡ missing) (z.current ++ z.previous)) r.zones

-- What stands where the zones are drawn.
abbrev pub IsHonestBody : Sheet → Body → Type 0
IsHonestBody r no_batch = AllMissing r
IsHonestBody r (grid written) = (AllMissing r → ⊥) × AreFair r.zones written

-- The message that an alert shows.
abbrev pub alert : Content → String
alert (sheet (some f) _ _ _ _) = f.message
alert (failed_only f) = f.message
alert _ = ""

-- Both days of every zone of the report, if there is one, have as many cells.
abbrev pub Aligned : Option Report → Type 0
Aligned none = Unit
Aligned (some r) = AreAligned r.sheet.zones

-- A content for what the page holds: its report, whether it is loading, its error.
abbrev pub IsHonest : Option Report → Bool → String → Content → Type 0
IsHonest none loading error reading_windows = loading ≡ true
IsHonest none loading error (sheet _ _ _ _ _) = ⊥
IsHonest none loading error c = (loading ≡ false) × (alert c ≡ error)
IsHonest (some r) loading error (sheet f refreshing nothing m body) =
    (alert (sheet f refreshing nothing m body) ≡ error)
    × (refreshing ≡ loading)
    × IsHonestBody r.sheet body
IsHonest (some r) loading error _ = ⊥

is_missing_iff : (c : Cell) → (is_missing c ≡ true) ↔ (c.status ≡ missing)
is_missing_iff c = by_status c.status
  where
    by_status : (s : CellStatus) → (elim s [ missing ↦ true | _ ↦ false ] ≡ true) ↔ (s ≡ missing)
    by_status reported = (λ h. absurd (false≢true h), λ h. ground arith)
    by_status suppressed = (λ h. absurd (false≢true h), λ h. ground arith)
    by_status missing = (λ h. refl, λ h. refl)

is_empty_iff : (r : Sheet) → (is_empty r ≡ true) ↔ AllMissing r
unfolding is_empty
is_empty_iff r =
    all_iff _ _ (λ z. all_iff is_missing _ is_missing_iff (z.current ++ z.previous)) r.zones

failure-alert :
    (error : String) (keeps : Bool)
    → (failure error keeps ≡ none) × (error ≡ "")
      ⊎ (failure error keeps ≡ some (record { message = error; keeps_report = keeps }))
failure-alert error keeps = elim (Bool-cases (str_eq error "")) [
  | inl quiet ↦ inl (rw quiet refl, (eq_iff error "").0 quiet)
  | inr some_error ↦ inr (rw some_error refl)
]

-- The sheet that `report_content` draws around a body.
abbrev drawn : Panel → Sheet → Body → Content
drawn p r body = sheet (failure p.error true) p.loading (r.missing_windows == 24) (metrics r) body

drawn-alert : (p : Panel) (r : Sheet) (body : Body) → alert (drawn p r body) ≡ p.error
drawn-alert p r body = elim (failure-alert p.error true) [
  | inl (e, silent) ↦ rw e (sym silent)
  | inr e ↦ rw e refl
]

unread-IsHonest :
    (p : Panel)
    → (c : Content) × ((if p.loading
          then reading_windows
          else without_report (failure p.error false))
        ≡ c)
      × IsHonest none p.loading p.error c
unread-IsHonest p = elim (Bool-cases p.loading) [
  | inl busy ↦ (reading_windows, rw busy refl, busy)
  | inr idle ↦ elim (failure-alert p.error false) [
    | inl (e, silent) ↦ (invitation, rw (idle, e) refl, (idle, sym silent))
    | inr e ↦ (
      failed_only (record { message = p.error; keeps_report = false }),
      rw (idle, e) refl,
      (idle, refl),
    )
  ]
]

read-IsHonest :
    (p : Panel) (r : Report)
    → AreAligned r.sheet.zones
    → (c : Content) × (report_content p r.sheet ≡ some c) × IsHonest (some r) p.loading p.error c
unfolding report_content
read-IsHonest p r h = elim (Bool-cases (is_empty r.sheet)) [
  | inl none_read ↦ (
    drawn p r.sheet no_batch,
    rw none_read refl,
    (drawn-alert p r.sheet no_batch, refl, (is_empty_iff r.sheet).0 none_read),
  )
  | inr some_read ↦
      let (written, writes, fair) = articles-AreFair r.sheet.zones h in
      (
        drawn p r.sheet (grid written),
        rw (some_read, writes) refl,
        (
          drawn-alert p r.sheet (grid written),
          refl,
          (λ all_gone. false≢true (sym some_read ∙ (is_empty_iff r.sheet).1 all_gone), fair),
        ),
      )
]

-- Over a report whose zones have as many hours on both days, or over none, the page is always
-- drawn. With a report it draws one article for each zone, unless every cell is missing, and says
-- then that no batch is loaded: the numbers in an article's table are the counts of the reported
-- cells and no other, and each bar is between 3 and 100 percent high, with higher counts never
-- lower. Without a report it says that one is read exactly while it is. An alert shows the error,
-- except before the first report while one is read.
pub content-IsHonest :
    (p : Panel)
    → Aligned p.report
    → (c : Content) × (content p ≡ some c) × IsHonest p.report p.loading p.error c
unfolding content
content-IsHonest p h = elim (Option-cases p.report) [
  | inl unread ↦ let (c, draws, honest) = unread-IsHonest p in rw unread (c, ap some draws, honest)
  | inr (r, holds) ↦ rw holds (read-IsHonest p r (rw holds at h))
]
