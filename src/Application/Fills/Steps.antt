-- ===== src/Application/Fills/Steps.antt =====
-- The kline service of internal/application/kline/service.go and fill.go over time: the critical
-- sections of its callers and of its fills, in any order, and the place of each call of `Get` in
-- its loop. What `Get` does between them changes nothing that another caller sees.
use market_data.Prelude.{ℕ, ◌<◌, ◌≡◌, Bool, Option, some, if◌then◌else◌}
use market_data.Prelude.Map.{get}
use market_data.Errors.{Error, Result, ok, err}
use market_data.Application.Series.{Query, Series-discrete}
use market_data.Application.Planner.Loading.{Refreshes}
use market_data.Application.Fills.{
  Settings, Service, set, new_service, take_slot, free_slot, join, attempt, save, complete, leave,
  stop,
}

-- A call of `Get`: before its `join`, in the `wait` for the fill at a pointer, after that `wait`
-- with the test of `exhausted` still to come, or returned.
pub data Place : Type 0 where
  before_join : Place
  in_wait : ℕ → Place
  waited : Place
  returned : Place

pub record Run : Type 0 where
  pub service : Service
  pub places : ℕ → Place

-- The fill at `p` runs for the query's series. `Operations.Run` ends its callbacks before it
-- returns, so attempts and pages belong to a fill that runs.
abbrev pub Runs : Query → ℕ → Service → Type 0
Runs q p s = get Series-discrete q.series s.fills ≡ some p

-- `f, err := s.join(...)`: on an error `Get` returns, else it waits for the fill.
abbrev pub after_join : ℕ → (ℕ → Place) → Result ℕ × Service → Run
after_join b places (err e, s) = record { service = s; places = set b returned places }
after_join b places (ok p, s) = record { service = s; places = set b (in_wait p) places }

-- The test of `<-budget.exhausted` after the `wait`.
abbrev pub after_check : Bool → Place
after_check exhausted = if exhausted then returned else before_join

pub data Step (r : Run) : Run → Type 0 where
  takes_slot : Step r (record r { service = (take_slot r.service).1 })
  frees_slot : 0 < r.service.callers → Step r (record r { service = free_slot r.service })
  joins :
      (failure : Option Error) (q : Query) (refreshed : Refreshes) (b : ℕ)
      → r.places b ≡ before_join
      → Step r (after_join b r.places (join failure q refreshed b r.service))
  dispatches :
      (q : Query) (p : ℕ)
      → Runs q p r.service
      → Step r (record r { service = attempt q p r.service })
  saves :
      (q : Query) (p : ℕ) (updated : Refreshes)
      → Runs q p r.service
      → Step r (record r { service = save q p updated r.service })
  completes :
      (failure : Option Error) (q : Query) (p : ℕ)
      → Runs q p r.service
      → Step r (record r { service = complete failure q p r.service })
  leaves :
      (b p : ℕ)
      → r.places b ≡ in_wait p
      → Step r (record { service = leave b p r.service; places = set b waited r.places })
  checks :
      (b : ℕ)
      → r.places b ≡ waited
      → Step r (record r { places = set b (after_check (r.service.budgets b).exhausted) r.places })
  stops : Step r (record r { service = stop r.service })

pub data Reach (r : Run) : Run → Type 0 where
  begins : Reach r r
  continues : {r' r'' : Run} → Reach r r' → Step r' r'' → Reach r r''

-- The service of `NewService`, before any call of `Get` has come to its `join`.
abbrev pub new_run : Settings → Run
new_run limits = record { service = new_service limits; places = λ b. before_join }
