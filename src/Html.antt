-- ===== src/Html.antt =====
-- Text that the console writes into HTML: `esc`, `title` and `badge` of
-- internal/console/web/app.js, over code units. `upper` is `String.prototype.toUpperCase` on one of
-- them.
pub mod Escape
mod Tests
use afterglow.Prelude.{
  ℕ, Bool, true, false, ◌||◌, ◌&&◌, List, [], ◌∷◌, ◌++◌, Option, none, some, ◌==◌, if◌then◌else◌,
}
use afterglow.Text.{codes}

-- What the replacement writes for one code unit.
unfoldable pub escaped : ℕ → List ℕ
escaped c =
    if c == b'&'
    then codes "&amp;"
    else if c == b'<'
    then codes "&lt;"
    else if c == b'>'
    then codes "&gt;"
    else if c == b'"'
    then codes "&quot;"
    else if c == b'\''
    then codes "&#39;"
    else c ∷ []

unfoldable pub escape_text : List ℕ → List ℕ
escape_text [] = []
escape_text (c ∷ text) = escaped c ++ escape_text text

-- `String(v ?? "")`, replaced.
unfoldable pub esc : Option (List ℕ) → List ℕ
unfolding escape_text
esc none = []
esc (some text) = escape_text text

-- `replace(/_/g, " ")`
unfoldable pub spaced : List ℕ → List ℕ
spaced [] = []
spaced (c ∷ text) = (if c == b'_' then b' ' else c) ∷ spaced text

-- `.` of a pattern: anything but a line terminator.
abbrev pub is_line_end : ℕ → Bool
is_line_end c = c == 10 || c == 13 || c == 8232 || c == 8233

-- `a === b`
abbrev pub same : List ℕ → List ℕ → Bool
same [] [] = true
same (a ∷ as') (b ∷ bs) = (a == b) && same as' bs
same _ _ = false

-- The mark before the status.
abbrev pub mark : List ℕ → List ℕ
mark status =
    if same status (codes "settled")
    then codes "✓ "
    else if same status (codes "duplicate")
    then codes "↪ "
    else if same status (codes "quarantined") || same status (codes "failed")
    then codes "! "
    else []

module _ (upper : ℕ → List ℕ) where
  abbrev pub raised : List ℕ → List ℕ
  raised [] = []
  raised (c ∷ text) = if is_line_end c then c ∷ text else upper c ++ text

  unfoldable pub title : List ℕ → List ℕ
  unfolding spaced
  title text = raised (spaced text)

  unfoldable pub badge : List ℕ → List ℕ
  unfolding esc title
  badge status =
      codes "<span class=\"badge "
      ++ esc (some status)
      ++ codes "\">"
      ++ mark status
      ++ esc (some (title status))
      ++ codes "</span>"
