-- ===== src/Overview/Tests.antt =====
-- The overview of two campaigns, one of them at its cap.
use afterglow.Prelude.{
  Pairs, map, ◌≡◌, refl, ◌≤◌, ℕ, true, false, [], ◌∷◌, All, arith, length, List,
}
use afterglow.Api.{Status, accepted, duplicate, quarantined, failed, Campaign, Snapshot, Runtime}
use afterglow.Overview.{metrics, flow, next_step, campaign_row}
use afterglow.Overview.NetworkMap.{Site, network}
use afterglow.Overview.Fits.{IsInside, IsDot, AreLines, network-Fits}
use afterglow.Overview.Adds.{added, AddsUp, IsRight, IsFunded, overview-AddsUp}

abbrev counted : Status → ℕ
counted accepted = 2
counted Status.settled = 5
counted duplicate = 3
counted quarantined = 1
counted failed = 0

abbrev coffee : Campaign
coffee = record {
  id = "coffee";
  name = "Coffee / Spring";
  budget_micros = 5000000;
  reserved_micros = 20000;
  spent_micros = 50000;
}

abbrev shoes : Campaign
shoes = record {
  id = "shoes";
  name = "Shoes / Launch";
  budget_micros = 100000;
  reserved_micros = 40000;
  spent_micros = 60000;
}

abbrev seen : Snapshot
seen = record {
  campaigns = coffee ∷ shoes ∷ [];
  screens = [];
  reservations = [];
  deliveries = [];
  counts = counted;
}

abbrev running : Runtime
running = record {
  demo = true;
  can_reset = true;
  paused = false;
  breaker_open = false;
  storage = "sqlite";
  transport = "local";
}

coffee-IsFunded : IsFunded coffee
coffee-IsFunded = record { budget = omega arith; committed = omega arith }

shoes-IsFunded : IsFunded shoes
shoes-IsFunded = record { budget = omega arith; committed = omega arith }

overview-AddsUp_example :
    AddsUp running (metrics seen) (flow seen running) (next_step seen running)
    × All IsRight (coffee ∷ shoes ∷ [])
    × ((metrics seen).settled_spend
        ≡ added (map (λ c. (campaign_row c).bar.spent.part) (coffee ∷ shoes ∷ [])))
    × ((metrics seen).settled_spend
        ≤ added (map (λ c. (campaign_row c).budget) (coffee ∷ shoes ∷ [])))
overview-AddsUp_example = overview-AddsUp seen running (coffee-IsFunded, (shoes-IsFunded, tt))

eleven_receipts : (flow seen running).receipts ≡ 11
unfolding flow
eleven_receipts = refl

shoes_at_cap : (campaign_row shoes).at_cap ≡ true
unfolding campaign_row
shoes_at_cap = refl

abbrev sites : List Site
sites =
    record {
      id = "nyc-01";
      name = "Times Square";
      market = "New York";
      place = record { west = 739855; north = 407580 };
    }
    ∷ record {
      id = "sea-01";
      name = "Pike Street";
      market = "Seattle";
      place = record { west = 1223321; north = 476062 };
    }
    ∷ []

network-Fits_example :
    All IsInside (network sites).path
    × Pairs IsDot sites (network sites).dots
    × AreLines sites (network sites).lines
    × ((network sites).screens ≡ length sites)
    × ((network sites).markets ≤ (network sites).screens)
network-Fits_example = network-Fits sites (omega arith)
