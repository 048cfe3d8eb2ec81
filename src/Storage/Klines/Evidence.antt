-- ===== src/Storage/Klines/Evidence.antt =====
-- `replacesCandle` of kline.go: which candle of a slot stays.
use market_data.Prelude.{◌≡◌, arith, true, false, Option, none, some, if◌then◌else◌}
use market_data.Storage.Klines.{StoredCandle, replaces_candle, is_final}

module _ {D : Type 0} where
  -- A final candle is never replaced.
  pub replaces_candle_final :
      (stored incoming : StoredCandle D)
      → is_final stored ≡ true
      → replaces_candle stored incoming ≡ false
  unfolding replaces_candle
  replaces_candle_final stored incoming h = ground arith

  -- If `b` replaces `a`, then `a` does not replace `b`.
  pub replaces_candle_asymm :
      (a b : StoredCandle D) → replaces_candle a b ≡ true → replaces_candle b a ≡ false
  unfolding replaces_candle
  replaces_candle_asymm a b h = ground arith

  -- A candle that replaces what replaces a third one replaces the third one too.
  pub replaces_candle_trans :
      (a b c : StoredCandle D)
      → replaces_candle a b ≡ true
      → replaces_candle b c ≡ true
      → replaces_candle a c ≡ true
  unfolding replaces_candle
  replaces_candle_trans a b c h k = ground arith

  -- The candle that stays in a slot when `incoming` meets what is stored there.
  abbrev pub merged : Option (StoredCandle D) → Option (StoredCandle D) → Option (StoredCandle D)
  merged none old = old
  merged (some row) none = some row
  merged (some row) (some old) = if replaces_candle old row then some row else some old
