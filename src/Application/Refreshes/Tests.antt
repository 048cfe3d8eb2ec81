-- ===== src/Application/Refreshes/Tests.antt =====
-- Evidence of internal/application/kline/service.go merged at concrete slots.
use market_data.Prelude.{arith, ◌≡◌, ◌<◌, ◌≤◌, ◌⊎◌, [], ◌∷◌, ℕ_discrete}
use market_data.Prelude.Map.{get, Unique}
use market_data.Domain.Names.{binance, spot, m1}
use market_data.Application.Series.{Query}
use market_data.Application.Planner.Loading.{Evidence, Refreshes}
use market_data.Application.Refreshes.{merge, Latest, merge-Latest}

abbrev query : Query
query = record {
  series = record {
    scope = record { exchange = binance; market = spot };
    symbol = 66 ∷ [];
    interval = m1;
  };
  from = 60;
  to = 180;
}

abbrev seen : Evidence
seen = record { started = 200; fetched = 210 }

abbrev loaded : Evidence
loaded = record { started = 300; fetched = 310 }

abbrev gathered : Refreshes
gathered = (60, seen) ∷ []

abbrev saved : Refreshes
saved = (60, loaded) ∷ (120, loaded) ∷ []

saved-Unique : Unique saved
saved-Unique = ground arith

merge-Latest_example :
    ((60 ≤ 60)
      × (60 < 180)
      × Latest
          (get ℕ_discrete 60 saved)
          (get ℕ_discrete 60 gathered)
          (get ℕ_discrete 60 (merge query saved gathered)))
    ⊎ (((60 < 60) ⊎ (180 ≤ 60))
        × (get ℕ_discrete 60 (merge query saved gathered) ≡ get ℕ_discrete 60 gathered))
merge-Latest_example = merge-Latest query 60 saved gathered saved-Unique
