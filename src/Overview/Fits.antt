-- ===== src/Overview/Fits.antt =====
-- The map of screens stays within its box.
use afterglow.Prelude.{
  Pairs, All-map, length-map, ◌≡◌, refl, ℕ, ◌+◌, ◌*◌, ◌≤◌, List, [], ◌∷◌, map, String, arith, All,
  length,
}
use afterglow.Overview.NetworkMap.{
  Place, Coordinate, Point, point, outline, Site, Link, link, links, network, distinct,
}

-- Degrees that the box is drawn for: 66 to 126 west, 24 to 50 north.
pub record IsMapped (p : Place) : Type 0 where
  pub east : 660000 ≤ p.west
  pub west : p.west ≤ 1260000
  pub south : 240000 ≤ p.north
  pub north : p.north ≤ 500000

-- From `low` to `high`.
pub record IsBetween (low high : ℕ) (c : Coordinate) : Type 0 where
  pub defined : 1 ≤ c.scale
  pub at_least : low * c.scale + c.minus ≤ c.plus
  pub at_most : c.plus ≤ high * c.scale + c.minus

-- Inside the box of 650 by 295, with room for a dot.
pub record IsInside (p : Point) : Type 0 where
  pub x : IsBetween 15 605 p.x
  pub y : IsBetween 20 275 p.y

pub point-IsInside : (p : Place) → IsMapped p → IsInside (point p)
unfolding point
point-IsInside p h = record {
  x = record {
    defined = omega arith;
    at_least = omega (arith, h.west);
    at_most = omega (arith, h.east);
  };
  y = record {
    defined = omega arith;
    at_least = omega (arith, h.north);
    at_most = omega (arith, h.south);
  };
}

outline-IsMapped : All IsMapped outline
unfolding outline
outline-IsMapped = omega arith

-- Where a place is drawn: 590 across for the 60 degrees from 126 west on, and 255 down for the 26
-- degrees from 50 north on, from the point (15, 20).
pub record IsAt (p : Place) (c : Point) : Type 0 where
  pub across :
      600000 * c.x.plus + c.x.scale * (590 * p.west)
      ≡ 600000 * c.x.minus + c.x.scale * (15 * 600000 + 590 * 1260000)
  pub down :
      260000 * c.y.plus + c.y.scale * (255 * p.north)
      ≡ 260000 * c.y.minus + c.y.scale * (20 * 260000 + 255 * 500000)

point-IsAt : (p : Place) → IsAt p (point p)
unfolding point
point-IsAt p = record { across = omega arith; down = omega arith }

-- The dot of a screen.
abbrev pub IsDot : Site → String × Point → Type 0
IsDot s (id, c) = (id ≡ s.id) × IsAt s.place c × IsInside c

-- A line from the first screen to another one, between two points of the map, bent upwards by 40.
pub record IsArched (a b : Site) (l : Link) : Type 0 where
  pub starts : IsAt a.place l.from
  pub ends : IsAt b.place l.to
  pub from : IsInside l.from
  pub to : IsInside l.to
  pub bend_x : IsBetween 15 605 l.bend_x
  pub above_from :
      l.bend_y.plus + 40 * l.bend_y.scale + l.from.y.minus ≤ l.from.y.plus + l.bend_y.minus
  pub above_to : l.bend_y.plus + 40 * l.bend_y.scale + l.to.y.minus ≤ l.to.y.plus + l.bend_y.minus

-- The lines: none without a screen, and else one from the first screen to each other one, in order.
abbrev pub AreLines : List Site → List Link → Type 0
AreLines [] lines = lines ≡ []
AreLines (first ∷ sites) lines = Pairs (IsArched first) sites lines

link-IsArched : (a b : Site) → IsMapped a.place → IsMapped b.place → IsArched a b (link a b)
unfolding link point
link-IsArched a b h k = record {
  starts = point-IsAt a.place;
  ends = point-IsAt b.place;
  from = point-IsInside a.place h;
  to = point-IsInside b.place k;
  bend_x = record {
    defined = omega arith;
    at_least = omega (arith, h.west, k.west);
    at_most = omega (arith, h.east, k.east);
  };
  above_from = ground arith;
  above_to = ground arith;
}

All-Pairs-map :
    {A B : Type 0} (P : A → Type 0) (R : A → B → Type 0) (f : A → B)
    → ((x : A) → P x → R x (f x))
    → (xs : List A) → All P xs
    → Pairs R xs (map f xs)
All-Pairs-map P R f h [] a = tt
All-Pairs-map P R f h (x ∷ xs) (p, a) = (h x p, All-Pairs-map P R f h xs a)

links-AreLines :
    (sites : List Site) → All (λ s. IsMapped s.place) sites → AreLines sites (links sites)
unfolding links
links-AreLines [] h = refl
links-AreLines (first ∷ sites) (here, h) =
    All-Pairs-map (λ s. IsMapped s.place) (IsArched first) (link first)
      (λ s k. link-IsArched first s here k) sites h

distinct-le : (markets : List String) → distinct markets ≤ length markets
unfolding distinct
distinct-le [] = omega arith
distinct-le (m ∷ markets) = let rest = distinct-le markets in ground arith

-- Where every screen lies between 66 and 126 degrees west and 24 and 50 degrees north: the outline
-- lies inside the box of 650 by 295 with at least 15 to spare on the sides and 20 above and below;
-- there is one dot for each screen, in order, inside the box and where its place is on the map; one
-- line goes from the first screen to each other one, between their places, and bends above both;
-- and the screens are counted, with no more markets than screens.
pub network-Fits :
    (sites : List Site)
    → All (λ s. IsMapped s.place) sites
    → All IsInside (network sites).path
      × Pairs IsDot sites (network sites).dots
      × AreLines sites (network sites).lines
      × ((network sites).screens ≡ length sites)
      × ((network sites).markets ≤ (network sites).screens)
unfolding network
network-Fits sites h = (
  All-map IsInside IsMapped point point-IsInside outline outline-IsMapped,
  All-Pairs-map (λ s. IsMapped s.place) IsDot (λ s. (s.id, point s.place))
      (λ s k. (refl, point-IsAt s.place, point-IsInside s.place k)) sites h,
  links-AreLines sites h,
  refl,
  omega (arith, distinct-le (map (λ s. s.market) sites), length-map (λ s. s.market) sites),
)
