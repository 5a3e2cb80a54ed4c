-- ===== src/Overview/NetworkMap.antt =====
-- The map of screens on the overview: `point` and `network` of internal/console/web/app.js. A place
-- has degrees west and north in ten-thousandths, and a coordinate is a fraction of whole numbers.
use afterglow.Prelude.{
  ℕ, ◌+◌, ◌*◌, List, [], ◌∷◌, map, String, str_eq, leb, if◌then◌else◌, length, any,
}

pub record Place : Type 0 where
  pub west : ℕ
  pub north : ℕ

-- `(plus - minus) / scale`
pub record Coordinate : Type 0 where
  pub plus : ℕ
  pub minus : ℕ
  pub scale : ℕ

pub record Point : Type 0 where
  pub x : Coordinate
  pub y : Coordinate

-- `((lng + 126) / 60) * 590 + 15` and `((50 - lat) / 26) * 255 + 20`
unfoldable pub point : Place → Point
point p = record {
  x = record { plus = 1260000 * 590 + 15 * 600000; minus = p.west * 590; scale = 600000 };
  y = record { plus = 500000 * 255 + 20 * 260000; minus = p.north * 255; scale = 260000 };
}

-- A corner of the outline, in tenths of a degree.
abbrev at : ℕ → ℕ → Place
at west north = record { west = west * 1000; north = north * 1000 }

-- The outline of the country.
unfoldable pub outline : List Place
outline =
    at 1247 485
    ∷ at 1230 483
    ∷ at 1229 490
    ∷ at 950 490
    ∷ at 950 480
    ∷ at 890 480
    ∷ at 850 467
    ∷ at 830 460
    ∷ at 823 430
    ∷ at 798 432
    ∷ at 765 440
    ∷ at 715 450
    ∷ at 700 470
    ∷ at 670 450
    ∷ at 698 430
    ∷ at 708 415
    ∷ at 740 405
    ∷ at 755 380
    ∷ at 757 355
    ∷ at 780 340
    ∷ at 805 320
    ∷ at 810 290
    ∷ at 802 255
    ∷ at 810 250
    ∷ at 820 270
    ∷ at 826 280
    ∷ at 830 295
    ∷ at 850 300
    ∷ at 875 302
    ∷ at 897 293
    ∷ at 910 294
    ∷ at 938 298
    ∷ at 965 280
    ∷ at 971 260
    ∷ at 990 265
    ∷ at 1010 290
    ∷ at 1030 290
    ∷ at 1065 320
    ∷ at 1110 313
    ∷ at 1147 327
    ∷ at 1170 325
    ∷ at 1185 340
    ∷ at 1205 350
    ∷ at 1225 380
    ∷ at 1243 420
    ∷ at 1240 460
    ∷ []

-- A screen of the snapshot, with its place.
pub record Site : Type 0 where
  pub id : String
  pub name : String
  pub market : String
  pub place : Place

-- A path from the first screen to another: its ends, and the control point between them, whose
-- coordinates are sums over a doubled scale and a difference.
pub record Link : Type 0 where
  pub from : Point
  pub to : Point
  pub bend_x : Coordinate
  pub bend_y : Coordinate

-- The lower of two `y`, which have one scale: the one with more to subtract.
abbrev pub upper : Coordinate → Coordinate → Coordinate
upper a b = if leb b.minus a.minus then a else b

unfoldable pub link : Site → Site → Link
unfolding point
link first s =
    let a = point first.place in
    let b = point s.place in
    record {
      from = a;
      to = b;
      bend_x = record {
        plus = a.x.plus + b.x.plus;
        minus = a.x.minus + b.x.minus;
        scale = 2 * a.x.scale;
      };
      bend_y =
          let high = upper a.y b.y in
          record { plus = high.plus; minus = high.minus + 40 * high.scale; scale = high.scale };
    }

-- `pts.slice(1).map(…)`
unfoldable pub links : List Site → List Link
unfolding link
links [] = []
links (first ∷ sites) = map (link first) sites

-- `new Set(markets).size`
unfoldable pub distinct : List String → ℕ
distinct [] = 0
distinct (m ∷ markets) =
    let rest = distinct markets in if any (str_eq m) markets then rest else rest + 1

pub record NetworkMap : Type 0 where
  pub path : List Point
  pub lines : List Link
  pub dots : List (String × Point)
  pub screens : ℕ
  pub markets : ℕ

unfoldable pub network : List Site → NetworkMap
unfolding outline point links distinct
network sites = record {
  path = map point outline;
  lines = links sites;
  dots = map (λ s. (s.id, point s.place)) sites;
  screens = length sites;
  markets = distinct (map (λ s. s.market) sites);
}
