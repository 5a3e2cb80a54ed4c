-- ===== src/Html/Escape.antt =====
-- What a browser reads back from escaped text.
use afterglow.Prelude.{
  ◌≡◌, refl, ℕ, Bool, ◌||◌, List, [], ◌∷◌, ◌++◌, Option, none, some, ◌==◌, if◌then◌else◌,
  Bool-cases, inl, inr, ==_iff,
}
use afterglow.Text.{codes}
use afterglow.Html.{escaped, escape_text, esc, same}

-- The five character references, by name.
abbrev pub reference : List ℕ → Option ℕ
reference name =
    if same name (codes "amp")
    then some b'&'
    else if same name (codes "lt")
    then some b'<'
    else if same name (codes "gt")
    then some b'>'
    else if same name (codes "quot")
    then some b'"'
    else if same name (codes "#39")
    then some b'\''
    else none

-- The characters that end text, or a quoted attribute.
abbrev pub ends_text : ℕ → Bool
ends_text c = c == b'<' || c == b'>' || c == b'"' || c == b'\''

abbrev pub and_also : ℕ → Option (List ℕ) → Option (List ℕ)
and_also c none = none
and_also c (some text) = some (c ∷ text)

abbrev pub and_also? : Option ℕ → Option (List ℕ) → Option (List ℕ)
and_also? none rest = none
and_also? (some c) rest = and_also c rest

-- The text that a browser reads, in markup or in a quoted attribute alike; none where it would see
-- a tag, the end of the attribute, or another reference. `pending` is the reference being read.
unfoldable pub read : (pending : Option (List ℕ)) → List ℕ → Option (List ℕ)
read none [] = some []
read (some name) [] = none
read none (c ∷ text) =
    let begun = read (some []) text in
    let rest = read none text in
    if c == b'&' then begun else if ends_text c then none else and_also c rest
read (some name) (c ∷ text) =
    let rest = read none text in
    let longer = read (some (name ++ (c ∷ []))) text in
    if c == b';' then and_also? (reference name) rest else longer

read-escaped : (c : ℕ) (rest : List ℕ) → read none (escaped c ++ rest) ≡ and_also c (read none rest)
unfolding read escaped
read-escaped c rest = elim (Bool-cases (c == b'&')) [
  | inl e ↦ rw ((==_iff c b'&').0 e) refl
  | inr n1 ↦ elim (Bool-cases (c == b'<')) [
    | inl e ↦ rw ((==_iff c b'<').0 e) refl
    | inr n2 ↦ elim (Bool-cases (c == b'>')) [
      | inl e ↦ rw ((==_iff c b'>').0 e) refl
      | inr n3 ↦ elim (Bool-cases (c == b'"')) [
        | inl e ↦ rw ((==_iff c b'"').0 e) refl
        | inr n4 ↦ elim (Bool-cases (c == b'\'')) [
          | inl e ↦ rw ((==_iff c b'\'').0 e) refl
          | inr n5 ↦ rw (n1, n2, n3, n4, n5) (rw (n1, n2, n3, n4, n5) refl)
        ]
      ]
    ]
  ]
]

read-escape_text : (text : List ℕ) → read none (escape_text text) ≡ some text
unfolding escape_text
read-escape_text [] = unfold read in refl
read-escape_text (c ∷ text) = rw (read-escaped c (escape_text text), read-escape_text text) refl

-- Whatever a text holds, a browser reads exactly this text back from what `esc` writes, in markup
-- and in attributes: no part of it is taken for a tag, an end of the attribute, or a reference.
pub read-esc : (text : List ℕ) → read none (esc (some text)) ≡ some text
unfolding esc
read-esc text = read-escape_text text
