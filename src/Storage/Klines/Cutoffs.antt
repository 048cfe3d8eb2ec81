-- ===== src/Storage/Klines/Cutoffs.antt =====
-- The retention cutoffs that `UpsertMany` of kline.go applies.
use market_data.Prelude.{
  ◌≡◌, ◌∙◌, subst, ◌≢◌, arith, Option, none, some, [], ◌∷◌, if◌then◌else◌, max,
}
use market_data.Prelude.Map.{
  Map, get, put, get-nil, get-cons_self, get-cons_ne, get-put_self, get-put_ne, Unique,
  get_of_Fresh,
}
use market_data.Domain.Time.{Time}
use market_data.Storage.Klines.{CandleScope, CandleScope-discrete}
use market_data.Storage.Klines.Upsert.{raises, raise_cutoffs}

-- The later of a staged cutoff and the one applied before.
abbrev pub raised : Option Time → Option Time → Option Time
raised none applied = applied
raised (some cutoff) none = some cutoff
raised (some cutoff) (some applied) = some (max applied cutoff)

abbrev raise_one : CandleScope → Time → Map CandleScope Time → Map CandleScope Time
raise_one k cutoff applied =
    if raises cutoff (get CandleScope-discrete k applied)
    then put CandleScope-discrete k cutoff applied
    else applied

raise_one_self :
    (k : CandleScope) (cutoff : Time) (m : Map CandleScope Time)
    → get CandleScope-discrete k (raise_one k cutoff m)
      ≡ raised (some cutoff) (get CandleScope-discrete k m)
raise_one_self k cutoff m = ground (arith, get-put_self CandleScope-discrete k cutoff m)

raise_one_ne :
    (k k' : CandleScope) (cutoff : Time) (m : Map CandleScope Time)
    → k ≢ k'
    → get CandleScope-discrete k' (raise_one k cutoff m) ≡ get CandleScope-discrete k' m
raise_one_ne k k' cutoff m h = ground (arith, get-put_ne CandleScope-discrete k k' cutoff m h)

-- The cutoffs after a write, if no scope was staged twice: in each scope the later of the staged
-- and the applied one.
pub raise_cutoffs-get :
    (k : CandleScope) (staged applied : Map CandleScope Time)
    → Unique staged
    → get CandleScope-discrete k (raise_cutoffs staged applied)
      ≡ raised (get CandleScope-discrete k staged) (get CandleScope-discrete k applied)
unfolding raise_cutoffs
raise_cutoffs-get k [] applied u = rw (get-nil {V = Time} CandleScope-discrete k)
raise_cutoffs-get k ((j, cutoff) ∷ rest) applied u =
    raise_cutoffs-get k rest (raise_one j cutoff applied) u.1 ∙ elim (CandleScope-discrete j k) [
      | yes same ↦
          subst
            (λ x.
              raised (get CandleScope-discrete x rest)
                (get CandleScope-discrete x (raise_one j cutoff applied))
              ≡ raised (get CandleScope-discrete x ((j, cutoff) ∷ rest))
                  (get CandleScope-discrete x applied))
            same
            (rw
              (
                get_of_Fresh CandleScope-discrete j rest u.0,
                get-cons_self CandleScope-discrete j cutoff rest,
              )
              (raise_one_self j cutoff applied))
      | no other ↦ rw (
        get-cons_ne CandleScope-discrete j k cutoff rest other,
        raise_one_ne j k cutoff applied other,
      )
    ]
