-- ===== src/Traffic/Display.antt =====
-- What the foot-traffic page writes for its report: `bars`, `value` and `content` of
-- internal/console/web/foottraffic.js, as the choices and numbers that their HTML holds.
use afterglow.Prelude.{
  ℕ, ◌+◌, ◌*◌, max, Bool, true, false, List, [], ◌∷◌, ◌++◌, map, String, Option, none, some, str_eq,
  ◌==◌, leb, if◌then◌else◌, all, ◌>>=◌,
}
use afterglow.Traffic.{Panel}
use afterglow.Traffic.Cells.{CellStatus, reported, suppressed, missing, Cell, Zone, Sheet}

-- `c.observations || 0`
abbrev pub count : Cell → ℕ
count c = elim (c.observations) [ none ↦ 0 | some n ↦ n ]

abbrev pub greatest : List ℕ → ℕ
greatest [] = 1
greatest (n ∷ ns) = max n (greatest ns)

-- `Math.max(1, …)` over both days.
unfoldable pub top : Zone → ℕ
top z = greatest (map count (z.current ++ z.previous))

-- The height of a bar in percent, as a fraction: `Math.max(3, 100 * n / top)`.
pub record Height : Type 0 where
  pub over : ℕ
  pub under : ℕ

unfoldable pub height : ℕ → ℕ → Height
height most n =
    if leb (100 * n) (3 * most)
    then record { over = 3; under = 1 }
    else record { over = 100 * n; under = most }

pub record Bar : Type 0 where
  pub status : CellStatus
  pub height : Height

abbrev pub bar : ℕ → Cell → Bar
bar most c = record { status = c.status; height = height most (count c) }

pub record Hour : Type 0 where
  pub window_start : ℕ
  pub previous : Bar
  pub current : Bar

-- `zone.current.map((c, i) => … zone.previous[i] …)`, which throws where the other day has no such
-- cell. A cell that is left over is not read.
unfoldable pub pair_up {ℓ} :
    {A : Type ℓ} → (Cell → Cell → A) → List Cell → List Cell → Option (List A)
pair_up write [] previous = some []
pair_up write (c ∷ current) [] = none
pair_up write (c ∷ current) (d ∷ previous) = do
  rest ← pair_up write current previous
  some (write c d ∷ rest)

unfoldable pub bars : Zone → Option (List Hour)
unfolding top pair_up
bars z =
    pair_up
      (λ c d. record {
        window_start = c.window_start;
        previous = bar (top z) d;
        current = bar (top z) c;
      })
      z.current z.previous

-- `value`
pub data Shown : Type 0 where
  number : ℕ → Shown
  suppressed_text no_data : Shown

unfoldable pub value : Cell → Shown
value c = elim (c.status) [
  | reported ↦ number (count c)
  | suppressed ↦ suppressed_text
  | missing ↦ no_data
]

pub record Row : Type 0 where
  pub window_start : ℕ
  pub current : Shown
  pub previous : Shown

unfoldable pub table : Zone → Option (List Row)
unfolding pair_up value
table z =
    pair_up (λ c d. record { window_start = c.window_start; current = value c; previous = value d })
      z.current z.previous

pub record Article : Type 0 where
  pub zone : String
  pub name : String
  pub hours : List Hour
  pub rows : List Row
  pub paired : ℕ  -- the number that its sentence on paired windows names

unfoldable pub article : Zone → Option Article
unfolding bars table
article z = do
  hours ← bars z
  rows ← table z
  some (record {
    zone = z.id;
    name = z.name;
    hours = hours;
    rows = rows;
    paired = z.comparable_windows;
  })

unfoldable pub articles : List Zone → Option (List Article)
unfolding article
articles [] = some []
articles (z ∷ zones) = do first ← article z; rest ← articles zones; some (first ∷ rest)

abbrev pub is_missing : Cell → Bool
is_missing c = elim (c.status) [ missing ↦ true | _ ↦ false ]

-- `empty`
unfoldable pub is_empty : Sheet → Bool
is_empty r = all (λ z. all is_missing (z.current ++ z.previous)) r.zones

pub data Body : Type 0 where
  no_batch : Body
  grid : List Article → Body

pub record Metrics : Type 0 where
  pub published : ℕ
  pub covered : ℕ
  pub hidden : ℕ
  pub missing : ℕ

abbrev pub metrics : Sheet → Metrics
metrics r = record {
  published = r.published_observations;
  covered = r.released_windows + r.suppressed_windows;
  hidden = r.suppressed_windows;
  missing = r.missing_windows;
}

-- The banner of a failure, and whether it says that the last report is shown.
pub record Failure : Type 0 where
  pub message : String
  pub keeps_report : Bool

abbrev pub failure : String → Bool → Option Failure
failure message keeps =
    if str_eq message "" then none else some (record { message = message; keeps_report = keeps })

pub data Content : Type 0 where
  reading_windows : Content
  failed_only : Failure → Content
  invitation : Content
  sheet :
      (failure : Option Failure)
      → (refreshing : Bool) → (nothing_current : Bool) → Metrics
      → Body
      → Content

abbrev pub without_report : Option Failure → Content
without_report none = invitation
without_report (some f) = failed_only f

-- With a report. `none` where drawing it throws.
unfoldable pub report_content : Panel → Sheet → Option Content
unfolding is_empty articles
report_content p r =
    let drawn = sheet (failure p.error true) p.loading (r.missing_windows == 24) (metrics r) in
    if is_empty r
    then some (drawn no_batch)
    else articles r.zones >>= (λ written. some (drawn (grid written)))

unfoldable pub content : Panel → Option Content
unfolding report_content
content p = elim (p.report) [
  | none ↦ some (if p.loading then reading_windows else without_report (failure p.error false))
  | some r ↦ report_content p r.sheet
]
