-- ===== src/Application/Fills/Tests.antt =====
-- A run of the kline service of internal/application/kline/fill.go: two callers share a fill.
use market_data.Prelude.{ℕ, ◌≡◌, refl, true, none, some, [], ◌≤◌, ◌==◌}
use market_data.Prelude.Map.{get, put}
use market_data.Prelude.Text.{bytes}
use market_data.Errors.{err, service_overloaded, upstream_attempt_limit}
use market_data.Domain.Names.{binance, spot, m1}
use market_data.Application.Series.{Query}
use market_data.Application.Fills.{
  Settings, Service, set, new_service, start_fill, join_shared, join, attempt, complete,
  wait_result, fill_done,
}
use market_data.Application.Fills.Steps.{Place, before_join, in_wait, Run, Step, Reach, new_run}
use market_data.Application.Fills.Places.{InPlace}
use market_data.Application.Fills.Capacity.{Capacity, Reach-Capacity}
use market_data.Application.Fills.Callers.{Callers, seen, Reach-Callers, Reach-seen}

abbrev two_attempts : Settings
two_attempts = record {
  history_candles = 100;
  max_callers = 3;
  max_active_fills = 1;
  max_active_fills_per_exchange = 1;
  max_attempts = 2;
  fill_timeout = 60;
}

abbrev query : Query
query = record {
  series = record {
    scope = record { exchange = binance; market = spot };
    symbol = bytes "BTC";
    interval = m1;
  };
  from = 0;
  to = 600;
}

-- Caller 1 starts the fill, which makes an attempt; caller 2 joins it, and it makes two more.
abbrev started : Service
started = (join none query [] 1 (new_service two_attempts)).1

abbrev once : Service
once = attempt query 0 started

abbrev shared : Service
shared = (join none query [] 2 once).1

abbrev twice : Service
twice = attempt query 0 (attempt query 0 shared)

-- Which calls of `Get` wait for the fill.
abbrev one_waits : ℕ → Place
one_waits = set 1 (in_wait 0) (λ b. before_join)

abbrev two_wait : ℕ → Place
two_wait = set 2 (in_wait 0) one_waits

to_started : Reach (new_run two_attempts) (record { service = started; places = one_waits })
unfolding new_service join get start_fill put
to_started = Reach.continues Reach.begins (Step.joins none query [] 1 refl)

to_once : Reach (new_run two_attempts) (record { service = once; places = one_waits })
unfolding new_service join get start_fill put
to_once = Reach.continues to_started (Step.dispatches query 0 refl)

to_shared : Reach (new_run two_attempts) (record { service = shared; places = two_wait })
unfolding new_service join get start_fill put attempt join_shared
to_shared = Reach.continues to_once (Step.joins none query [] 2 refl)

to_twice : Reach (new_run two_attempts) (record { service = twice; places = two_wait })
unfolding new_service join get start_fill put attempt join_shared
to_twice =
    Reach.continues (Reach.continues to_shared (Step.dispatches query 0 refl))
      (Step.dispatches query 0 refl)

abbrev last : Run
last = record { service = twice; places = two_wait }

-- Both callers see the third attempt, which exhausts their budgets.
both_see_three : (seen 1 to_twice ≡ 3) × (seen 2 to_twice ≡ 3)
unfolding new_service join get start_fill put attempt join_shared seen to_twice to_shared to_once
    to_started
both_see_three = (refl, refl)

both_exhausted : ((twice.budgets 1).exhausted ≡ true) × ((twice.budgets 2).exhausted ≡ true)
unfolding new_service join get start_fill put attempt join_shared
both_exhausted = (refl, refl)

no_second_fill : (start_fill query [] 2 once).0 ≡ err service_overloaded
unfolding new_service join get start_fill put attempt
no_second_fill = refl

Reach-Capacity_example : Capacity twice
Reach-Capacity_example = Reach-Capacity two_attempts last to_twice

Reach-Callers_example : Callers twice × InPlace last
Reach-Callers_example = Reach-Callers two_attempts last to_twice

Reach-seen_example : (seen 1 to_twice ≤ 3) × ((twice.budgets 1).exhausted ≡ (seen 1 to_twice == 3))
Reach-seen_example = Reach-seen two_attempts last to_twice 1

-- The fill's end does not hide that the caller has seen too many attempts.
exhausted_first :
    wait_result fill_done none none (twice.budgets 2) ((complete none query 0 twice).heap 0)
    ≡ some upstream_attempt_limit
unfolding new_service join get start_fill put attempt join_shared complete wait_result
exhausted_first = refl
