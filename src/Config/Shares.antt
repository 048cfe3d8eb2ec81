-- ===== src/Config/Shares.antt =====
-- What the checks of internal/config/validate.go promise of shares and allowances.
use market_data.Prelude.{
  ℕ, ◌+◌, ◌-◌, ◌≤◌, ◌≡◌, refl, arith, Bool, true, false, not, ◌||◌, ltb, ◌==◌, if◌then◌else◌,
  Option, none, some, List, [], ◌∷◌,
}
use market_data.Upstream.{percent}
use market_data.Upstream.Percent.{percent-le, percent_total}
use market_data.Config.{Config, Operations, Window}
use market_data.Config.Validate.{
  Problem, fail_if, ◌then◌, check_shares, validate_shares_and_cooldowns, stop_threshold,
  safety_margin,
}
use market_data.Config.Budgets.{percentage, shared, allowances}

pub fail_if-none : (b : Bool) (p : Problem) → fail_if b p ≡ none → b ≡ false
fail_if-none true p h = cc
fail_if-none false p h = refl

pub then-none :
    (first second : Option Problem) → (first then second) ≡ none → (first ≡ none) × (second ≡ none)
then-none none second h = (refl, h)
then-none (some p) second h = cc

abbrev total : List ℕ → ℕ
total [] = 0
total (n ∷ ns) = n + total ns

abbrev AllPositive : List ℕ → Type 0
AllPositive [] = Unit
AllPositive (n ∷ ns) = (1 ≤ n) × AllPositive ns

check_shares-none :
    (shares : List ℕ) (remaining : ℕ)
    → check_shares shares remaining ≡ none
    → (total shares ≡ remaining) × AllPositive shares
unfolding check_shares
check_shares-none [] remaining h = (ground (arith, fail_if-none (not (remaining == 0)) _ h), tt)
check_shares-none (share ∷ shares) remaining h =
    let (first, later) = then-none _ (check_shares shares (remaining - share)) h in
    let (sum, positive) = check_shares-none shares (remaining - share) later in
    let fits = fail_if-none (ltb share 1 || ltb remaining share) _ first in
    (ground (arith, fits, sum), (ground (arith, fits), positive))

-- What the checks of shares and cooldowns leave.
pub record SharesChecked (c : Config) : Type 0 where
  pub threshold :
      (1 ≤ c.upstream.binance.stop_threshold_percent)
      × (c.upstream.binance.stop_threshold_percent ≤ 99)
  pub margin : c.upstream.safety_margin_percent ≤ 99
  pub positive :
      let s = c.upstream.operation_share_percent in
      (1 ≤ s.tickers) × (1 ≤ s.klines) × (1 ≤ s.instruments) × (1 ≤ s.market_stats)
  pub shares_total :
      let s = c.upstream.operation_share_percent in
      s.tickers + s.klines + s.instruments + s.market_stats ≡ 100

pub validate_shares-checked :
    (c : Config) → validate_shares_and_cooldowns c ≡ none → SharesChecked c
unfolding validate_shares_and_cooldowns
validate_shares-checked c h =
    let shares = c.upstream.operation_share_percent in
    let threshold = c.upstream.binance.stop_threshold_percent in
    let margin = c.upstream.safety_margin_percent in
    let values = shares.tickers ∷ shares.klines ∷ shares.instruments ∷ shares.market_stats ∷ [] in
    let (a, h1) = then-none (fail_if (ltb threshold 1 || ltb 99 threshold) stop_threshold) _ h in
    let (b, h2) = then-none (fail_if (ltb 99 margin) safety_margin) _ h1 in
    let (d, h3) = then-none (check_shares values 100) _ h2 in
    let (sum, each) = check_shares-none values 100 d in
    record {
      threshold = ground (arith, fail_if-none (ltb threshold 1 || ltb 99 threshold) _ a);
      margin = ground (arith, fail_if-none (ltb 99 margin) _ b);
      positive = (each.0, each.1.0, each.1.1.0, each.1.1.1.0);
      shares_total = omega (arith, sum);
    }

percentage-percent : (v s : ℕ) → percentage v s ≡ percent v s
unfolding percentage percent
percentage-percent v s = refl

shares_fit :
    (v a b c d : ℕ)
    → a + b + c + d ≡ 100
    → percentage v a + percentage v b + percentage v c + percentage v d ≤ v
shares_fit v a b c d h = omega (
  arith,
  percent_total v a b c d h,
  percentage-percent v a,
  percentage-percent v b,
  percentage-percent v c,
  percentage-percent v d,
)

abbrev sum_of : Operations ℕ → ℕ
sum_of a = a.tickers + a.klines + a.instruments + a.market_stats

divided :
    (both split : Bool) (common : ℕ) (s : Operations ℕ)
    → sum_of s ≡ 100
    → sum_of (
        if not split
        then record { tickers = 0; klines = 0; instruments = common; market_stats = 0 }
        else record {
          tickers = percentage common (shared both s).tickers;
          klines = percentage common (shared both s).klines;
          instruments = percentage common (shared both s).instruments;
          market_stats = percentage common (shared both s).market_stats;
        })
      ≤ common
divided both false common s h = omega arith
divided true true common s h =
    shares_fit common (s.tickers + s.market_stats) s.klines s.instruments 0 (omega (arith, h))
divided false true common s h = shares_fit common s.tickers s.klines s.instruments s.market_stats h

-- After the checks of shares and cooldowns, the allowances of the four operations in a window total
-- at most the common allowance, which is at most the limit of the window, also where tickers and
-- statistics share theirs.
pub allowances-bounded :
    (c : Config) (w : Window) (both : Bool)
    → validate_shares_and_cooldowns c ≡ none
    → let (common, a) = allowances c w both in
      (a.tickers + a.klines + a.instruments + a.market_stats ≤ common) × (common ≤ w.limit)
unfolding allowances
allowances-bounded c w both h =
    let checked = validate_shares-checked c h in
    let threshold =
      if both
      then 100 - c.upstream.safety_margin_percent
      else c.upstream.binance.stop_threshold_percent in
    let below : threshold ≤ 100 = ground (arith, checked.threshold) in
    (
      divided both w.split_operations (percentage w.limit threshold)
          c.upstream.operation_share_percent checked.shares_total,
      omega (arith, percent-le w.limit threshold below, percentage-percent w.limit threshold),
    )
