-- ===== src/Html/Tests.antt =====
-- Escaped text and badges on concrete input.
use afterglow.Prelude.{◌≡◌, refl, ℕ, [], ◌∷◌, List, some, none, leb, ◌&&◌, ◌-◌, if◌then◌else◌}
use afterglow.Text.{codes}
use afterglow.Html.{esc, escaped, badge}
use afterglow.Html.Escape.{read, read-esc}

abbrev upper : ℕ → List ℕ
upper c = (if leb b'a' c && leb c b'z' then c - 32 else c) ∷ []

read-esc_example :
    read none (esc (some (codes "<b title='x'>&amp;"))) ≡ some (codes "<b title='x'>&amp;")
read-esc_example = read-esc (codes "<b title='x'>&amp;")

settled_badge :
    badge upper (codes "settled") ≡ codes "<span class=\"badge settled\">✓ Settled</span>"
unfolding badge escaped
settled_badge = refl
