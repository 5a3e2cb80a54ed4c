-- ===== src/Navigation.antt =====
-- The page finder of internal/console/web/navigation.js: a search over the pages, and keys that
-- move through what it finds. Texts are code units; `lower` is `String.prototype.toLowerCase`.
pub mod Arrows
pub mod Reaching
mod Tests
use afterglow.Prelude.{
  ℕ, zero, suc, ◌+◌, ◌-◌, ◌%◌, Bool, true, false, ◌&&◌, ◌||◌, not, List, [], ◌∷◌, ◌++◌, String,
  Option, none, some, ◌==◌, if◌then◌else◌, length, filter, get_elem?,
}
use afterglow.Text.{codes, trim}

-- An entry of `pages`.
pub record Page : Type 0 where
  pub key : String
  pub icon : String
  pub name : String
  pub about : String

abbrev page : String → String → String → String → Page
page key icon name about = record { key = key; icon = icon; name = name; about = about }

unfoldable pub pages : List Page
pages =
    page "foot-traffic" "◈" "Foot traffic" "Aggregate observation windows, coverage and comparisons"
    ∷ page "assurance" "✓" "Campaign assurance" "Full-history delivery and budget reconciliation"
    ∷ page "overview" "◫" "Overview" "Campaign performance and delivery health"
    ∷ page "campaigns" "▤" "Campaigns" "Budgets, reservations and playback"
    ∷ page "intake" "⇄" "Partner intake" "Submit and inspect playback batches"
    ∷ page "ledger" "≋" "Delivery ledger" "Search receipts and settlement decisions"
    ∷ page "recovery" "↻" "Recovery queue" "Inspect failures and quarantined evidence"
    ∷ page "proof" "◎" "Live proof" "Verify the integration from end to end"
    ∷ page "lab" "⌘" "Failure lab" "Exercise controlled faults and recovery"
    ∷ page "architecture" "◇" "Architecture" "Understand guarantees and system design"
    ∷ []

-- `p.join(" ")`
abbrev pub joined : Page → List ℕ
joined p = codes p.key ++ (32 ∷ (codes p.icon ++ (32 ∷ (codes p.name ++ (32 ∷ codes p.about)))))

-- Whether a text begins with another, and whether it includes it.
abbrev pub starts_with : List ℕ → List ℕ → Bool
starts_with text [] = true
starts_with [] (c ∷ part) = false
starts_with (d ∷ text) (c ∷ part) = (d == c) && starts_with text part

abbrev pub includes : List ℕ → List ℕ → Bool
includes [] part = starts_with [] part
includes (c ∷ text) part = starts_with (c ∷ text) part || includes text part

-- Where the keyboard focus is.
pub data Focus : Type 0 where
  elsewhere on_input : Focus
  on_link : ℕ → Focus

pub record Finder : Type 0 where
  pub showing : Bool
  pub input : List ℕ
  pub focus : Focus

pub data Key : Type 0 where
  arrow_down arrow_up enter other : Key

-- `links.indexOf(document.activeElement) + 1`
abbrev pub place : Focus → ℕ
place elsewhere = 0
place on_input = 0
place (on_link i) = i + 1

-- `(i + (down ? 1 : n - 1) + n) % n`, for `i + 1`.
unfoldable pub target : ℕ → (down : Bool) → ℕ → ℕ
target n down i+1 = (i+1 + (if down then 1 else n - 1) + n - 1) % n

module _ (lower : List ℕ → List ℕ) where
  unfoldable pub results : Finder → List Page
  results f = filter (λ p. includes (lower (joined p)) (trim (lower f.input))) pages

  -- The finder does not open over a dialog of details.
  unfoldable pub open_finder : (details_open : Bool) → Finder → Finder
  open_finder details_open f =
      if details_open || f.showing
      then f
      else record { showing = true; input = []; focus = on_input }

  -- Ctrl or Cmd with K, anywhere on the page.
  unfoldable pub shortcut : (ctrl meta is_k details_open : Bool) → Finder → Finder
  unfolding open_finder
  shortcut ctrl meta is_k details_open f =
      if (ctrl || meta) && is_k then open_finder details_open f else f

  unfoldable pub typed : List ℕ → Finder → Finder
  typed text f = record f { input = text }

  -- A click on a link of the results closes the finder and goes to its page.
  unfoldable pub follow : ℕ → Finder → Finder × Option String
  follow i f = elim (get_elem? (results f) i) [
    | none ↦ (f, none)
    | some p ↦ (record f { showing = false; focus = elsewhere }, some p.key)
  ]

  -- A click on the dialog itself closes it outside of its box.
  unfoldable pub backdrop : (outside : Bool) → Finder → Finder
  backdrop outside f = if outside then record f { showing = false } else f

  unfoldable pub close_click : Finder → Finder
  close_click f = record f { showing = false }

  unfoldable pub arrow : (down : Bool) → Finder → Finder
  unfolding target
  arrow down f = elim (length (results f)) [
    | zero ↦ f
    | suc n ↦ record f { focus = on_link (target (suc n) down (place f.focus)) }
  ]

  -- A key in the dialog, and the page it goes to.
  unfoldable pub key_down : Key → Finder → Finder × Option String
  unfolding arrow follow
  key_down arrow_down f = (arrow true f, none)
  key_down arrow_up f = (arrow false f, none)
  key_down enter f = elim (f.focus) [ on_input ↦ follow 0 f | _ ↦ (f, none) ]
  key_down other f = (f, none)
