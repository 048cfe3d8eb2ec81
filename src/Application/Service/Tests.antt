-- ===== src/Application/Service/Tests.antt =====
-- A fill and a caller of internal/application/kline/service.go and fill.go, with a storage, a
-- clock and a provider that answer at once.
use market_data.Prelude.{
  ℕ, suc, ◌≡◌, refl, ap, arith, if_cases, ltb, ◌⊎◌, inl, inr, true, false, none, some, List, [],
  ◌∷◌, ◌++◌,
}
use market_data.Errors.{Error, err, ok, service_overloaded, invalid_filter}
use market_data.Domain.Names.{binance, m1}
use market_data.Application.Series.{Query, Stored}
use market_data.Application.Refreshes.{merge, made_progress, merge_one, index_rows, any_newer}
use market_data.Application.Planner.Tests.{planner, instant, query, cached_row, clock, planner_run}
use market_data.Application.Planner.Loading.{Evidence, Refreshes}
use market_data.Application.Fills
use market_data.Application.Fills.{take_slot, free_slot}
use market_data.Application.Service.Checks.{
  Entering, ScopeSettings, new_scopes, add_scopes, validate_series, validate_query,
}
use market_data.Application.Service.Slots.{Counted}
use market_data.Application.Service.{Outside, read}
use market_data.Application.Service.Load.{
  Loading, gather, load_page, load_pages, turn, load_from, load,
}
use market_data.Application.Service.Complete.{Counting}
use market_data.Application.Service.Ends.{Ends, load-Ends}
use market_data.Application.Service.Round.{Joining, returns, Sound, round, fetch, round-Sound}

-- The stored rows and the attempts of the fill.
abbrev World : Type 0
World = List (Stored ℕ) × ℕ

abbrev out : Outside World ℕ
out = record {
  failed = λ w. (none, w);
  clock = λ w. (clock, w);
  get_range = λ q w. (ok w.0, w);
  upsert_many = λ page w. (ok tt, (w.0 ++ page, w.1));
  get_klines = λ request w. (ok (cached_row 998 ∷ cached_row 999 ∷ []), (w.0, suc w.1));
  observe = λ event w. w;
  attempts = λ w. w.1;
}

out-Counting : Counting out
out-Counting = record {
  failed_counts = λ w. omega arith;
  clock_counts = λ w. omega arith;
  get_range_counts = λ q w. omega arith;
  upsert_many_counts = λ page w. omega arith;
  observe_counts = λ event w. omega arith;
  get_klines_counts = λ request w w' page e. omega (arith, ap (λ x. x.1.1) e);
}

abbrev seen : ℕ → Evidence
seen n = record { started = instant n 70; fetched = instant n 71 }

abbrev two_minutes : Query
two_minutes = record { series = query.series; from = instant 998 0; to = instant 1000 0 }

abbrev empty : Loading World
empty = record { world = ([], 0); refreshed = []; saved = [] }

abbrev both_minutes : Refreshes
both_minutes = (instant 998 0, seen 998) ∷ (instant 999 0, seen 999) ∷ []

abbrev loaded : Loading World
loaded = record {
  world = (cached_row 998 ∷ cached_row 999 ∷ [], 1);
  refreshed = both_minutes;
  saved = both_minutes;
}

-- One page brings both minutes, and the second plan is empty.
loads_both : load out 4 3 planner two_minutes empty ≡ some (ok tt, loaded)
unfolding planner_run load load_from turn load_pages load_page read gather merge merge_one
    made_progress index_rows any_newer
loads_both = refl

load-Ends_example :
    Ends out out-Counting planner two_minutes (load out 4 3 planner two_minutes empty)
load-Ends_example = load-Ends out out-Counting planner two_minutes 3 empty

-- A caller whose fills are all refused.
abbrev joining : Joining World
joining = record {
  remaining = λ w. 3;
  exhausted = λ w. false;
  join = λ q refreshed w. (err service_overloaded, w);
  wait = λ fill w. (none, w);
  saved = λ fill w. none;
}

answers_from_storage :
    round out joining planner two_minutes true [] none loaded.world
    ≡ (returns (ok ((cached_row 998).candle ∷ (cached_row 999).candle ∷ [])), loaded.world)
unfolding planner_run read round
answers_from_storage = refl

refused :
    (round out joining planner two_minutes true [] none empty.world).0
    ≡ returns (err service_overloaded)
unfolding planner_run read round fetch
refused = refl

round-Sound_example :
    Sound out joining planner two_minutes [] none
      (round out joining planner two_minutes true [] none loaded.world).0
round-Sound_example = round-Sound out joining planner two_minutes true [] none loaded.world

-- The slots of Application/Fills.
abbrev entering : Entering Fills.Service
entering = record {
  clock = λ s. (clock, s);
  alive = λ s. (ok tt, s);
  take_slot = take_slot;
  free_slot = free_slot;
  known_instruments = λ q s. (ok 1, s);
}

entering-Counted : Counted entering (λ s. s.callers)
unfolding free_slot take_slot
entering-Counted = record {
  clock_keeps = λ s. refl;
  alive_keeps = λ s. refl;
  instruments_keep = λ q s. refl;
  frees = λ s. refl;
  takes = λ s.
      if_cases
        (λ r.
          ((w' : Fills.Service) × (r ≡ (ok tt, w')) × (w'.callers ≡ suc s.callers))
          ⊎ ((e : Error) × (w' : Fills.Service) × (r ≡ (err e, w')) × (w'.callers ≡ s.callers)))
        (ltb s.callers s.settings.max_callers) (λ room. inl (_, refl, refl))
        (λ full. inr (service_overloaded, s, refl, refl));
}

abbrev scopes : List ScopeSettings
scopes =
    record {
      scope = query.scope;
      provider =
          some (record { exchange = binance; supported_timeframes = λ market. ok (m1 ∷ []) });
      page_limit = 2;
    }
    ∷ []

abbrev limits : Fills.Settings
limits = record {
  history_candles = 100;
  max_callers = 1;
  max_active_fills = 1;
  max_active_fills_per_exchange = 1;
  max_attempts = 3;
  fill_timeout = 60;
}

registered : new_scopes limits scopes ≡ ok ((query.scope, planner) ∷ [])
unfolding planner_run new_scopes add_scopes
registered = refl

accepts_query : validate_query ((query.scope, planner) ∷ []) query clock ≡ ok tt
unfolding planner_run validate_query validate_series
accepts_query = refl

other_symbol :
    validate_series ((query.scope, planner) ∷ []) (record query.series { symbol = [] })
    ≡ err invalid_filter
unfolding planner_run validate_series
other_symbol = refl
