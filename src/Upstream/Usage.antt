-- ===== src/Upstream/Usage.antt =====
-- internal/infrastructure/exchange/upstream/usage.go and deferral.go: what the reservations of a
-- scope use of a window, which of them are forgotten, and when a request will fit.
use market_data.Prelude.{
  ℕ, zero, suc, ◌+◌, ◌-◌, ◌/◌, Bool, true, false, not, ◌&&◌, ◌||◌, ltb, leb, ◌==◌, if◌then◌else◌,
  Option, none, some, List, [], ◌∷◌, ℕ_discrete, max, length, get_elem?,
}
use market_data.Prelude.Map.{Map, get, keep}
use market_data.Domain.Market.{Text}
use market_data.Domain.Time.{Time, after, zero_time}
use market_data.Upstream.{
  PerOperation, at, change, Measure, Window, Cost, Observation, Entry, ScopeState, max_int, percent,
  window_cost, add_usage, earlier,
}

pub record UsageView : Type 0 where
  pub common : ℕ
  pub local : ℕ
  pub observed : ℕ
  pub reserved : ℕ
  pub operations : PerOperation ℕ
  pub next : Time
  pub uncertain : Bool
  pub incomplete_history : Bool

abbrev pub longest : Map Text Window → ℕ
longest [] = 0
longest ((name, w) ∷ ws) = max (longest ws) w.duration

abbrev pub has_entries {ℓ} : {A : Type ℓ} → List A → Bool
has_entries [] = false
has_entries (x ∷ xs) = true

-- The observations of a reservation that have not expired.
unfoldable pub prune_observations : Time → Entry → Entry
prune_observations now e = record e {
  observations = keep (λ duration o. after o.expires now) e.observations;
}

abbrev pub kept_entry : Time → Entry → Bool
kept_entry cutoff e = e.inflight || after e.at cutoff || has_entries e.observations

unfoldable pub prune_history : Time → Time → List Entry → List Entry
unfolding prune_observations
prune_history now cutoff [] = []
prune_history now cutoff (e ∷ es) =
    let rest = prune_history now cutoff es in
    if kept_entry cutoff (prune_observations now e) then prune_observations now e ∷ rest else rest

unfoldable pub prune : Time → ScopeState → ScopeState
prune now s =
    let cutoff = now - longest s.windows in
    record s {
      history = prune_history now cutoff s.history;
      history_since = if after cutoff s.history_since then cutoff else s.history_since;
    }

abbrev pub live : Bool → Entry → Window → Time → Bool
live keep_inflight e w now = keep_inflight && e.inflight || after (e.at + w.duration) now

abbrev zeros : PerOperation ℕ
zeros = record { tickers = 0; klines = 0; instruments = 0; market_stats = 0 }

abbrev pub no_usage : Bool → UsageView
no_usage incomplete = record {
  common = 0;
  local = 0;
  observed = 0;
  reserved = 0;
  operations = zeros;
  next = zero_time;
  uncertain = false;
  incomplete_history = incomplete;
}

-- One reservation that is live.
unfoldable pub add_entry : Bool → Window → Entry → UsageView → UsageView
unfolding add_usage earlier
add_entry keep_inflight w e v =
    let amount = window_cost w e.cost in
    record v {
      local = add_usage v.local amount;
      operations = change e.cost.operation (λ n. add_usage n amount) v.operations;
      reserved = if e.inflight then add_usage v.reserved amount else v.reserved;
      next =
          if ltb 0 amount && (not e.inflight || not keep_inflight)
          then earlier v.next (e.at + w.duration)
          else v.next;
    }

unfoldable pub local_usage : Bool → Window → Time → List Entry → UsageView → UsageView
local_usage keep_inflight w now [] v = v
local_usage keep_inflight w now (e ∷ es) v =
    local_usage keep_inflight w now es
      (if live keep_inflight e w now then add_entry keep_inflight w e v else v)

-- One observation that has not expired: only its own reservation is known to be in it.
unfoldable pub add_observation : Bool → Window → Time → Entry → Observation → UsageView → UsageView
unfolding add_usage earlier
add_observation keep_inflight w now e o v =
    let unmatched =
      if live keep_inflight e w now && not (v.local == max_int)
      then v.local - window_cost w e.cost
      else v.local in
    record v {
      common = max v.common (add_usage o.used unmatched);
      observed = max v.observed o.used;
      next = earlier v.next o.expires;
      uncertain = true;
    }

abbrev pub observe : Bool → Window → Time → Entry → Option Observation → UsageView → UsageView
observe keep_inflight w now e none v = v
observe keep_inflight w now e (some o) v =
    if after o.expires now then add_observation keep_inflight w now e o v else v

unfoldable pub observed_usage : Bool → Window → Time → List Entry → UsageView → UsageView
observed_usage keep_inflight w now [] v = v
observed_usage keep_inflight w now (e ∷ es) v =
    observed_usage keep_inflight w now es
      (observe keep_inflight w now e (get ℕ_discrete w.duration e.observations) v)

abbrev pub is_weight : Measure → Bool
is_weight Measure.weight = true
is_weight Measure.requests = false

abbrev pub with_observations : Bool → Bool → Window → Time → List Entry → UsageView → UsageView
with_observations true keep_inflight w now es v =
    let seen = observed_usage keep_inflight w now es v in
    record seen { uncertain = seen.uncertain || ltb 0 seen.local }
with_observations false keep_inflight w now es v = v

abbrev pub complete : UsageView → Bool → UsageView
complete v incomplete = record v { uncertain = v.uncertain || incomplete }

-- The view of a history that may be incomplete.
unfoldable pub view_of : Bool → Bool → Window → Time → List Entry → UsageView
unfolding local_usage
view_of incomplete keep_inflight w now es =
    let counted = local_usage keep_inflight w now es (no_usage incomplete) in
    complete
      (with_observations (is_weight w.measure) keep_inflight w now es
        (record counted { common = counted.local }))
      incomplete

unfoldable pub usage : ScopeState → Window → Time → UsageView
unfolding view_of
usage s w now = view_of (after s.history_since (now - w.duration)) s.keep_inflight w now s.history

-- `budgetReady`: the expiries that free a part of the window, in order.
abbrev pub observed_expiry : Window → Time → Option Observation → List Time
observed_expiry w now none = []
observed_expiry w now (some o) =
    if is_weight w.measure && after o.expires now then o.expires ∷ [] else []

abbrev pub own_expiry : Window → Time → Entry → List Time
own_expiry w now e =
    if not e.inflight && ltb 0 (window_cost w e.cost) && after (e.at + w.duration) now
    then (e.at + w.duration) ∷ []
    else []

unfoldable pub insert_time : Time → List Time → List Time
insert_time t [] = t ∷ []
insert_time t (u ∷ us) = if leb t u then t ∷ u ∷ us else u ∷ insert_time t us

-- `slices.SortFunc`, as an insertion sort.
unfoldable pub expiries : Window → Time → List Entry → List Time
unfolding insert_time
expiries w now [] = []
expiries w now (e ∷ es) = insert_all (own_expiry w now e) (
    insert_all (observed_expiry w now (get ℕ_discrete w.duration e.observations))
      (expiries w now es))
  where
    insert_all : List Time → List Time → List Time
    insert_all [] ts = ts
    insert_all (t ∷ _) ts = insert_time t ts

-- Would the window admit the request at a time?
unfoldable pub fits_at : ScopeState → Window → Cost → Time → Bool
fits_at s w c t =
    let view = usage s w t in
    leb view.common w.limit
    && (not w.split
        || leb (at view.operations c.operation + window_cost w c)
            (percent w.limit (at s.shares c.operation)))

abbrev pub time_of : Option Time → Time
time_of none = zero_time
time_of (some t) = t

-- The binary search between `index` and `end`, with fuel for its rounds.
unfoldable pub search_expiry : ℕ → (Time → Bool) → List Time → ℕ → ℕ → ℕ
search_expiry zero fits ts index end = index
search_expiry (suc fuel) fits ts index end =
    let middle = index + (end - index) / 2 in
    let lower = search_expiry fuel fits ts index middle in
    let upper = search_expiry fuel fits ts (middle + 1) end in
    if ltb index end then (if fits (time_of (get_elem? ts middle)) then lower else upper) else index

unfoldable pub budget_ready : ScopeState → Window → Cost → Time → Time
unfolding search_expiry expiries
budget_ready s w c now =
    let ts = expiries w now s.history in
    time_of (get_elem? ts (search_expiry (length ts + 1) (fits_at s w c) ts 0 (length ts)))
