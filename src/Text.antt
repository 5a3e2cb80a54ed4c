-- ===== src/Text.antt =====
-- Text that the console walks through: a list of UTF-16 code units, with the operations of
-- JavaScript's strings that the sources call on it.
use Prim.Native.Char.{code}
use afterglow.Prelude.{
  ℕ, ◌+◌, ◌-◌, ◌*◌, Bool, ◌&&◌, ◌||◌, List, [], ◌∷◌, String, leb, ◌==◌, if◌then◌else◌,
}
use mathlib.Core.List.{reverse}

-- A literal as its code units (the literals of the model are ASCII).
abbrev pub codes : String → List ℕ
codes String.[] = []
codes (String.◌∷◌ c s) = code c ∷ codes s

-- `\d`
abbrev pub is_digit : ℕ → Bool
is_digit c = leb b'0' c && leb c b'9'

-- WhiteSpace and LineTerminator of the language definition.
unfoldable pub is_space : ℕ → Bool
is_space c =
    leb 9 c && leb c 13
    || c == 32
    || c == 160
    || c == 5760
    || leb 8192 c && leb c 8202
    || c == 8232
    || c == 8233
    || c == 8239
    || c == 8287
    || c == 12288
    || c == 65279

unfoldable pub trim_start : List ℕ → List ℕ
unfolding is_space
trim_start [] = []
trim_start (c ∷ s) = if is_space c then trim_start s else c ∷ s

-- `s.trim()`
unfoldable pub trim : List ℕ → List ℕ
unfolding trim_start
trim s = reverse (trim_start (reverse (trim_start s)))

-- The text before the first separator, and what stands between it and the next one: the two
-- pieces that `const [a, b = ""] = s.split(sep)` binds.
unfoldable pub first_piece : ℕ → List ℕ → List ℕ
first_piece sep [] = []
first_piece sep (c ∷ s) = let rest = first_piece sep s in if c == sep then [] else c ∷ rest

unfoldable pub second_piece : ℕ → List ℕ → List ℕ
unfolding first_piece
second_piece sep [] = []
second_piece sep (c ∷ s) =
    let rest = second_piece sep s in if c == sep then first_piece sep s else rest

-- `s.padEnd(2, "0")`
abbrev pub pad_end_2 : List ℕ → List ℕ
pad_end_2 [] = b'0' ∷ b'0' ∷ []
pad_end_2 (a ∷ []) = a ∷ b'0' ∷ []
pad_end_2 s = s

-- `Number(s)` on a text of digits, and what a longer text adds to a prefix read so far.
unfoldable pub number_from : ℕ → List ℕ → ℕ
number_from n [] = n
number_from n (c ∷ s) = number_from (n * 10 + (c - b'0')) s

unfoldable pub number : List ℕ → ℕ
unfolding number_from
number s = number_from 0 s
