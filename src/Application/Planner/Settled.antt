-- ===== src/Application/Planner/Settled.antt =====
-- `finalSlots` and the refreshed rows of internal/application/kline/fetch_planner.go: which slots
-- need no loading, told from the cached rows alone.
use market_data.Prelude.{
  ◌≡◌, refl, sym, subst, ap, ◌∙◌, arith, Bool, true, false, not, ◌&&◌, ◌||◌, ◌==◌, Option, none,
  some, List, [], ◌∷◌, if◌then◌else◌, is_some, length, ℕ_discrete,
}
use market_data.Prelude.Map.{Map, get, get-nil, put, get-put_self, get-put_ne}
use market_data.Prelude.Int.{ℤ, pos, ltb_ℤ}
use market_data.Errors.{ok, internal, >>=-eq-ok, guard-eq-ok}
use market_data.Domain.Time.{Time}
use market_data.Domain.Timeframe.{Calendar}
use market_data.Application.Series.{Query, Stored}
use market_data.Application.Planner.Loading.{
  Refreshes, check_cached, is_closed, is_true, final_slot, final_rows, final_slots, accepts,
  accept_rows,
}

put-is_true :
    (k t : Time) (b : Bool) (m : Map Time Bool)
    → is_true (get ℕ_discrete t (put ℕ_discrete k b m))
      ≡ (if k == t then b else is_true (get ℕ_discrete t m))
put-is_true k t b m = elim (ℕ_discrete k t) [
  | yes e ↦
      subst
        (λ x.
          is_true (get ℕ_discrete x (put ℕ_discrete k b m))
          ≡ (if k == x then b else is_true (get ℕ_discrete x m)))
        e (rw (get-put_self ℕ_discrete k b m) (ground arith))
  | no n ↦ ground (arith, get-put_ne ℕ_discrete k t b m n)
]

absent : (o : Option Bool) → is_some o ≡ false → is_true o ≡ false
absent none h = refl
absent (some b) h = ground arith

either_test :
    (k t : Time) (b : Bool) (m : Map Time Bool)
    → is_true (get ℕ_discrete k m) ≡ false
    → (if k == t then b else is_true (get ℕ_discrete t m))
      ≡ ((k == t && b) || is_true (get ℕ_discrete t m))
either_test k t b m h = ground arith

module _ {D : Type 0} where
  -- Does one of the rows start at a time and pass a test?
  unfoldable pub any_at : (Stored D → Bool) → Time → List (Stored D) → Bool
  any_at test t [] = false
  any_at test t (row ∷ rows) = (row.candle.open_time == t && test row) || any_at test t rows

  -- A slot needs no loading if the cache has a final row for it, or one that was just loaded.
  abbrev pub settled : Refreshes → Time → List (Stored D) → Time → Bool
  settled refreshed now cached t =
      any_at (is_closed now) t cached || any_at (λ row. accepts refreshed row now) t cached

  final_slot-any_at :
      (q : Query) (c : Calendar) (now t : Time) (row : Stored D) (final final' : Map Time Bool)
      → final_slot q c now row final ≡ ok final'
      → is_true (get ℕ_discrete t final')
        ≡ ((row.candle.open_time == t && is_closed now row) || is_true (get ℕ_discrete t final))
  unfolding final_slot
  final_slot-any_at q c now t row final final' h =
      let (valid, checked, h1) = >>=-eq-ok (check_cached q c row) _ h in
      let (fresh, h2) =
        guard-eq-ok (not (is_some (get ℕ_discrete row.candle.open_time final))) internal
          (ok (put ℕ_discrete row.candle.open_time (is_closed now row) final)) h1 in
      let same : put ℕ_discrete row.candle.open_time (is_closed now row) final ≡ final' = cc in
      let unset = absent (get ℕ_discrete row.candle.open_time final) (ground arith) in
      ap (λ m. is_true (get ℕ_discrete t m)) (sym same)
      ∙ put-is_true row.candle.open_time t (is_closed now row) final
      ∙ either_test row.candle.open_time t (is_closed now row) final unset

  final_rows-any_at :
      (q : Query) (c : Calendar) (now t : Time) (rows : List (Stored D))
      (final final' : Map Time Bool)
      → final_rows q c now rows final ≡ ok final'
      → is_true (get ℕ_discrete t final')
        ≡ (any_at (is_closed now) t rows || is_true (get ℕ_discrete t final))
  unfolding final_rows any_at
  final_rows-any_at q c now t [] final final' h = ground arith
  final_rows-any_at q c now t (row ∷ rows) final final' h =
      let (final1, one, h1) = >>=-eq-ok (final_slot q c now row final) _ h in
      final_rows-any_at q c now t rows final1 final' h1
      ∙ rw (final_slot-any_at q c now t row final final1 one) (ground arith)

  accept_rows-any_at :
      (refreshed : Refreshes) (now t : Time) (rows : List (Stored D)) (final : Map Time Bool)
      → is_true (get ℕ_discrete t (accept_rows refreshed now rows final))
        ≡ (any_at (λ row. accepts refreshed row now) t rows || is_true (get ℕ_discrete t final))
  unfolding accept_rows any_at
  accept_rows-any_at refreshed now t [] final = refl
  accept_rows-any_at refreshed now t (row ∷ rows) final =
      accept_rows-any_at refreshed now t rows (
        if accepts refreshed row now then put ℕ_discrete row.candle.open_time true final else final)
      ∙ ground (arith, put-is_true row.candle.open_time t true final)

  pub final_slots-settled :
      (q : Query) (c : Calendar) (count : ℤ) (cached : List (Stored D)) (now t : Time)
      (refreshed : Refreshes) (final : Map Time Bool)
      → final_slots q c count cached now ≡ ok final
      → is_true (get ℕ_discrete t (accept_rows refreshed now cached final))
        ≡ settled refreshed now cached t
  unfolding final_slots
  final_slots-settled q c count cached now t refreshed final h =
      let (few, h1) =
        guard-eq-ok (not (ltb_ℤ count (pos (length cached)))) internal
          (final_rows q c now cached []) h in
      accept_rows-any_at refreshed now t cached final
      ∙ rw (final_rows-any_at q c now t cached [] final h1, get-nil {V = Bool} ℕ_discrete t)
          (ground arith)
