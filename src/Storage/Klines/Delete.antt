-- ===== src/Storage/Klines/Delete.antt =====
-- `DeleteBefore`: what is gone after a call and what stays.
use market_data.Prelude.{
  subst, ℕ, suc, ◌≡◌, refl, sym, ◌∙◌, ap, subst, arith, Bool, true, false, not, ◌&&◌, Option, none,
  some, List, [], ◌∷◌, if◌then◌else◌, ite, if_pos, if_neg, inl, inr, ℕ_discrete, Bool-cases,
  Option-cases,
}
use mathlib.Core.Bool.{false≢true}
use market_data.Prelude.Map.{get, get-nil, get-put_self, get-cons_ne, get-keep, guarded}
use market_data.Errors.{Error, Result, ok, err, Result-cases}
use market_data.Domain.Names.{Timeframe}
use market_data.Domain.Time.{Time, before}
use market_data.Application.Context.{Context}
use market_data.Application.Series.{Scope, Series, Series-discrete}
use market_data.Storage.Klines.{
  Rows, Table, Repository, CandleScope, CandleScope-discrete, StoredCandle, prune,
}
use market_data.Storage.Klines.Read.{in_scope, prune_scope, keys, later, validated, delete_before}
use market_data.Storage.Klines.Merge.{rows_of, find, Tidy, rows_of-prune_self, rows_of-prune_ne}
use market_data.Storage.Klines.Commit.{prune-Tidy}

ok-ne-err : (e : Error) → ◌≡◌ {A = Result (Unit {0})} (err e) (ok tt) → ⊥
ok-ne-err e h = cc

listed : Series → List Series → Bool
listed s [] = false
listed s (j ∷ ss) = ite (Series-discrete j s) true (listed s ss)

module _ {D : Type 0} where
  -- A slot that a deletion empties or leaves alone.
  abbrev pub cut : Bool → Option (StoredCandle D) → Option (StoredCandle D)
  cut gone o = if gone then none else o

  guarded-cut : (b : Bool) (o : Option (StoredCandle D)) → guarded (λ _. not b) o ≡ cut b o
  guarded-cut true none = refl
  guarded-cut false none = refl
  guarded-cut true (some c) = refl
  guarded-cut false (some c) = refl

  find-prune_self :
      (s : Series) (t cutoff : Time) (m : Table D)
      → Tidy m
      → find s t (prune s cutoff m) ≡ cut (before t cutoff) (find s t m)
  find-prune_self s t cutoff m tidy =
      ap (get ℕ_discrete t) (rows_of-prune_self s cutoff m)
      ∙ get-keep ℕ_discrete (λ start _. not (before start cutoff)) t (rows_of s m) (tidy s)
      ∙ guarded-cut (before t cutoff) (find s t m)

  cut_outside : (i b : Bool) (o : Option (StoredCandle D)) → cut (i && false && b) o ≡ o
  cut_outside true b o = refl
  cut_outside false b o = refl

  cut_twice {ℓ} :
      {A : Type ℓ} (i b l : Bool) (d : Dec A) (o : Option (StoredCandle D))
      → cut (i && l && b) (cut (i && ite d true false && b) o) ≡ cut (i && ite d true l && b) o
  cut_twice false b l d o = refl
  cut_twice true b false (yes p) o = ground arith
  cut_twice true b true (yes p) o = ground arith
  cut_twice true b false (no p) o = ground arith
  cut_twice true b true (no p) o = ground arith

  module _ (scope : Scope) (interval : Timeframe) (cutoff : Time) where
    abbrev pruned : Series → Table D → Table D
    pruned j m = if in_scope scope interval j then prune j cutoff m else m

    pruned-Tidy : (j : Series) (m : Table D) → Tidy m → Tidy (pruned j m)
    pruned-Tidy j m tidy = elim (Bool-cases (in_scope scope interval j)) [
      | inl inside ↦ rw inside (prune-Tidy j cutoff m tidy)
      | inr outside ↦ rw outside tidy
    ]

    pruned-find :
        (j s : Series) (t : Time) (m : Table D)
        → Tidy m
        → find s t (pruned j m)
          ≡ cut
              (in_scope scope interval s && ite (Series-discrete j s) true false && before t cutoff)
              (find s t m)
    pruned-find j s t m tidy = elim (Series-discrete j s) [
      | yes e ↦ rw (if_pos _ e) (
          subst
            (λ x.
              find x t (pruned j m)
              ≡ cut (in_scope scope interval x && true && before t cutoff) (find x t m))
            e
            (elim (Bool-cases (in_scope scope interval j)) [
              | inl inside ↦ rw inside (find-prune_self j t cutoff m tidy)
              | inr outside ↦ rw outside
            ]))
      | no n ↦
          rw (if_neg _ n, cut_outside (in_scope scope interval s) (before t cutoff) (find s t m))
            (elim (Bool-cases (in_scope scope interval j)) [
              | inl inside ↦ rw inside (ap (get ℕ_discrete t) (rows_of-prune_ne j s cutoff m n))
              | inr outside ↦ rw outside
            ])
    ]

    prune_scope-Tidy :
        (ctx : Context) (n : ℕ) (ss : List Series) (m : Table D)
        → Tidy m
        → Tidy (prune_scope ctx n scope interval cutoff ss m).0
    unfolding prune_scope
    prune_scope-Tidy ctx n [] m tidy = tidy
    prune_scope-Tidy ctx n (j ∷ ss) m tidy = elim (Option-cases (ctx n)) [
      | inl alive ↦
          rw (alive, prune_scope)
            (prune_scope-Tidy ctx (suc n) ss (pruned j m) (pruned-Tidy j m tidy))
      | inr (e, stopped) ↦ rw (stopped, prune_scope) tidy
    ]

    prune_scope-find :
        (ctx : Context) (n : ℕ) (ss : List Series) (s : Series) (t : Time) (m : Table D)
        → Tidy m
        → (prune_scope ctx n scope interval cutoff ss m).1 ≡ ok tt
        → find s t (prune_scope ctx n scope interval cutoff ss m).0
          ≡ cut (in_scope scope interval s && listed s ss && before t cutoff) (find s t m)
    unfolding prune_scope listed
    prune_scope-find ctx n [] s t m tidy h =
        sym (cut_outside (in_scope scope interval s) (before t cutoff) (find s t m))
    prune_scope-find ctx n (j ∷ ss) s t m tidy h = elim (Option-cases (ctx n)) [
      | inl alive ↦
          let h1 = rw (alive, prune_scope) at h in
          rw (alive, prune_scope)
            (prune_scope-find ctx (suc n) ss s t (pruned j m) (pruned-Tidy j m tidy) h1
              ∙ rw (pruned-find j s t m tidy) (
                  cut_twice (in_scope scope interval s) (before t cutoff) (listed s ss)
                    (Series-discrete j s) (find s t m)))
      | inr (e, stopped) ↦ absurd (ok-ne-err e (rw (stopped, prune_scope) at h))
    ]

  -- A series that the table does not list holds nothing.
  unlisted-find :
      (s : Series) (t : Time) (m : Table D) → listed s (keys m) ≡ false → find s t m ≡ none
  unfolding listed
  unlisted-find s t [] h =
      rw (get-nil {V = Rows D} Series-discrete s) (get-nil {V = StoredCandle D} ℕ_discrete t)
  unlisted-find s t ((j, rows) ∷ m) h = elim (Series-discrete j s) [
    | yes e ↦ absurd (false≢true (sym h ∙ if_pos (Series-discrete j s) e true (listed s (keys m))))
    | no n ↦
        rw (get-cons_ne Series-discrete j s rows m n)
          (unlisted-find s t m (sym (if_neg (Series-discrete j s) n true (listed s (keys m))) ∙ h))
  ]

  cut-none : (b : Bool) → cut b none ≡ none
  cut-none true = refl
  cut-none false = refl

  cut_unlisted :
      (i l b : Bool) (o : Option (StoredCandle D))
      → (l ≡ false → o ≡ none)
      → cut (i && l && b) o ≡ cut (i && b) o
  cut_unlisted true true b o h = refl
  cut_unlisted false true b o h = refl
  cut_unlisted i false b o h =
      let e = h refl in rw e (cut_outside i b none ∙ sym (cut-none (i && b)))

  -- If the rows of every series start at distinct times, a successful `DeleteBefore` raises the
  -- cutoff of its scope and interval to the later of the requested and the applied one, and
  -- empties exactly the slots of that scope and interval that start below it.
  pub delete_before-find :
      (ctx : Context) (scope : Scope) (interval : Timeframe) (cutoff : Time) (r : Repository D)
      → Tidy r.series
      → (delete_before ctx scope interval cutoff r).1 ≡ ok tt
      → let r' = (delete_before ctx scope interval cutoff r).0 in
        let key : CandleScope = record { scope = scope; interval = interval } in
        let final = later cutoff (get CandleScope-discrete key r.cutoffs) in
        (get CandleScope-discrete key r'.cutoffs ≡ some final)
        × ((s : Series) (t : Time)
            → find s t r'.series
              ≡ cut (in_scope scope interval s && before t final) (find s t r.series))
  unfolding delete_before
  delete_before-find ctx scope interval cutoff r tidy h =
      elim (Result-cases (validated ctx scope interval cutoff)) [
        | inl valid ↦
            let key : CandleScope = record { scope = scope; interval = interval } in
            let final = later cutoff (get CandleScope-discrete key r.cutoffs) in
            rw (valid, delete_before)
              (
                get-put_self CandleScope-discrete key final r.cutoffs,
                λ s t.
                    prune_scope-find scope interval final ctx 2 (keys r.series) s t r.series tidy
                      (rw (valid, delete_before) at h)
                    ∙ cut_unlisted (in_scope scope interval s) (listed s (keys r.series))
                        (before t final) (find s t r.series) (unlisted-find s t r.series),
              )
        | inr (e, invalid) ↦ absurd (ok-ne-err e (rw (invalid, delete_before) at h))
      ]

  -- If the rows of every series start at distinct times, they do so after `DeleteBefore`, whatever
  -- its outcome, a cancellation half way included.
  pub delete_before-Tidy :
      (ctx : Context) (scope : Scope) (interval : Timeframe) (cutoff : Time) (r : Repository D)
      → Tidy r.series
      → Tidy (delete_before ctx scope interval cutoff r).0.series
  unfolding delete_before
  delete_before-Tidy ctx scope interval cutoff r tidy =
      elim (Result-cases (validated ctx scope interval cutoff)) [
        | inl valid ↦
            rw (valid, delete_before)
              (prune_scope-Tidy scope interval _ ctx 2 (keys r.series) r.series tidy)
        | inr (e, invalid) ↦ rw (invalid, delete_before) tidy
      ]
