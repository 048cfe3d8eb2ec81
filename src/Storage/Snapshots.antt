-- ===== src/Storage/Snapshots.antt =====
-- internal/infrastructure/storage/memory: what ticker.go, market_stats.go and instrument.go do
-- alike, over the interface `Shape` of their keys and rows. A method runs under its lock, so that
-- it is one step; copies of rows change no value. `ReplaceSnapshot` checks the rows before it
-- locks.
pub mod Replace
pub mod Kinds
pub mod Tests
use market_data.Prelude.{
  ℕ, zero, suc, ◌+◌, Bool, true, false, not, ◌&&◌, ltb, ◌==◌, if◌then◌else◌, Option, none, some,
  is_some, List, [], ◌∷◌, ◌++◌, length, ite,
}
use market_data.Prelude.Map.{Map, get, put}
use market_data.Prelude.Text.{Text-discrete}
use market_data.Errors.{
  Error, Result, ok, err, guard, ◌>>=◌, ◌>>◌, invalid_upstream_data, data_not_ready,
}
use market_data.Domain.Names.{Exchange, Market}
use market_data.Domain.Names as names
use market_data.Domain.Market.{Text}
use market_data.Application.Context.{Context, check}
use market_data.Application.Series.{Scope}

pub record Shape (Key Row : Type 0) : Type 0 where
  pub same_key : Discrete Key
  pub scope_of : Key → Scope
  pub allowed : Key → Result (Unit {0})
  pub belongs : Key → Row → Bool
  pub exchange_of : Row → Exchange
  pub market_of : Row → Market
  pub symbol_of : Row → Text

abbrev pub Repository : Type 0 → Type 0 → Type 0
Repository Key Row = Map Key (Map Text Row)

module _ {Key Row : Type 0} (shape : Shape Key Row) where
  -- The loop over the rows, at the n-th call of `Err`.
  unfoldable pub stage_rows : Context → Key → List Row → ℕ → Map Text Row → Result (Map Text Row)
  stage_rows ctx key [] n next = check ctx n >> ok next
  stage_rows ctx key (row ∷ rows) n next =
      check ctx n
      >> guard (shape.belongs key row) invalid_upstream_data
      >> guard (not (is_some (get Text-discrete (shape.symbol_of row) next))) invalid_upstream_data
      >> stage_rows ctx key rows (suc n) (put Text-discrete (shape.symbol_of row) row next)

  abbrev pub publish :
      Key → Result (Map Text Row) → Repository Key Row → Repository Key Row × Result (Unit {0})
  publish key (err e) r = (r, err e)
  publish key (ok next) r = (put shape.same_key key next r, ok tt)

  -- `ReplaceSnapshot`.
  unfoldable pub replace_rows :
      Context → Key → List Row → Repository Key Row → Repository Key Row × Result (Unit {0})
  unfolding stage_rows
  replace_rows ctx key rows r =
      publish key (check ctx 0 >> shape.allowed key >> stage_rows ctx key rows 1 []) r

  -- `HasSnapshot`.
  unfoldable pub has_rows : Context → Key → Repository Key Row → Result Bool
  has_rows ctx key r = check ctx 0 >> ok (is_some (get shape.same_key key r))

  abbrev found_row : Option (Map Text Row) → Text → Result (Option Row)
  found_row none symbol = err data_not_ready
  found_row (some rows) symbol = ok (get Text-discrete symbol rows)

  -- `Get`, where a row that is not found is `none`.
  unfoldable pub get_row : Context → Key → Text → Repository Key Row → Result (Option Row)
  get_row ctx key symbol r = check ctx 0 >> found_row (get shape.same_key key r) symbol

  abbrev all_ready : List Key → Repository Key Row → Bool
  all_ready [] r = true
  all_ready (key ∷ keys) r = is_some (get shape.same_key key r) && all_ready keys r

  abbrev rows_at : Key → Repository Key Row → Map Text Row
  rows_at key r = of_option (get shape.same_key key r)
    where
      of_option : Option (Map Text Row) → Map Text Row
      of_option none = []
      of_option (some rows) = rows

  -- The loop over the rows of a scope: the rows that pass, and the next call of `Err`.
  unfoldable pub pick_rows : Context → (Row → Bool) → Map Text Row → ℕ → Result (List Row)
  pick_rows ctx passes [] n = ok []
  pick_rows ctx passes ((symbol, row) ∷ rows) n =
      check ctx n
      >> (pick_rows ctx passes rows (suc n) >>= λ picked.
          ok (if passes row then row ∷ picked else picked))

  abbrev seen_key : Key → List Key → Bool
  seen_key key [] = false
  seen_key key (k ∷ ks) = ite (shape.same_key k key) true (seen_key key ks)

  -- The loop over the scopes.
  unfoldable pub pick_scopes :
      Context → (Row → Bool) → Repository Key Row → List Key → List Key → ℕ → Result (List Row)
  unfolding pick_rows
  pick_scopes ctx passes r [] seen n = ok []
  pick_scopes ctx passes r (key ∷ keys) seen n =
      let again = pick_scopes ctx passes r keys seen n in
      let later = pick_scopes ctx passes r keys (key ∷ seen) (n + length (rows_at key r)) in
      if seen_key key seen
      then again
      else pick_rows ctx passes (rows_at key r) n >>= λ here. later >>= λ rest. ok (here ++ rest)

  -- The rank of the names in the order of strings. Rows of other names are never stored.
  abbrev exchange_rank : Exchange → ℕ
  exchange_rank names.binance = 0
  exchange_rank names.bybit = 1
  exchange_rank (Exchange.other n) = 2 + n

  abbrev market_rank : Market → ℕ
  market_rank names.linear = 0
  market_rank names.spot = 1
  market_rank (Market.other n) = 2 + n

  -- Byte by byte, as `cmp.Compare` of strings.
  abbrev pub text_before : Text → Text → Bool
  text_before [] [] = false
  text_before [] (b ∷ bs) = true
  text_before (a ∷ xs) [] = false
  text_before (a ∷ xs) (b ∷ bs) = if a == b then text_before xs bs else ltb a b

  abbrev pub row_before : Row → Row → Bool
  row_before a b =
      let e = exchange_rank (shape.exchange_of a) in
      let e' = exchange_rank (shape.exchange_of b) in
      let m = market_rank (shape.market_of a) in
      let m' = market_rank (shape.market_of b) in
      if not (e == e')
      then ltb e e'
      else if not (m == m')
      then ltb m m'
      else text_before (shape.symbol_of a) (shape.symbol_of b)

  unfoldable pub insert_row : Row → List Row → List Row
  insert_row row [] = row ∷ []
  insert_row row (r ∷ rs) = if row_before r row then r ∷ insert_row row rs else row ∷ r ∷ rs

  -- `slices.SortFunc`, as an insertion sort: no two rows compare equal.
  unfoldable pub sort_rows : List Row → List Row
  unfolding insert_row
  sort_rows [] = []
  sort_rows (row ∷ rows) = insert_row row (sort_rows rows)

  -- `List`.
  unfoldable pub list_rows :
      Context → List Key → (Row → Bool) → Repository Key Row → Result (List Row)
  unfolding pick_scopes sort_rows
  list_rows ctx keys passes r =
      check ctx 0
      >> guard (all_ready keys r) data_not_ready
      >> (pick_scopes ctx passes r keys [] 1 >>= λ rows. ok (sort_rows rows))
