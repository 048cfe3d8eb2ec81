-- ===== src/Application/Retention/Cleaned.antt =====
-- What a pass of `Clean` in internal/application/kline/retention.go leaves.
use market_data.Prelude.{
  ℕ, suc, ◌≤◌, ◌≡◌, refl, sym, ◌∙◌, ap, subst, arith, Bool, ◌&&◌, Option, none, some, List, [], ◌∷◌,
  All,
}
use market_data.Prelude.Int.{pos}
use market_data.Errors.{Error, Result, err, ok}
use market_data.Domain.Time.{Time, before}
use market_data.Domain.Timeframe.{Calendar, new_calendar, history_cutoff}
use market_data.Application.Context.{Context}
use market_data.Application.Series.{Series}
use market_data.Storage.Klines.{Repository, CandleScope, CandleScope-discrete, Table, StoredCandle}
use market_data.Prelude.Map.{get}
use market_data.Storage.Klines.Read.{in_scope, later, delete_before}
use market_data.Storage.Klines.Merge.{find, Tidy}
use market_data.Storage.Klines.Delete.{cut, delete_before-find, delete_before-Tidy}
use market_data.Application.Retention.{
  RetentionScope, Retention, join_error, failing, clean_scope, clean_scopes, clean,
}

later-le : (cutoff : Time) (applied : Option Time) → cutoff ≤ later cutoff applied
later-le cutoff none = omega arith
later-le cutoff (some t) = ground arith

module _ {D : Type 0} where
  -- No row of the scope starts below the cutoff.
  abbrev Emptied : RetentionScope → Time → Table D → Type 0
  Emptied x cutoff m =
      (s : Series) (t : Time)
      → find s t m ≡ cut (in_scope x.scope x.interval s && before t cutoff) (find s t m)

  -- A scope of the retention after a pass.
  pub record Cleaned (now : Time) (history : ℕ) (m : Table D) (x : RetentionScope) : Type 0 where
    pub calendar : Calendar
    pub known : new_calendar x.exchange x.market x.interval ≡ ok calendar
    pub cutoff : Time
    pub limit : history_cutoff calendar now (pos history) ≡ ok cutoff
    pub emptied : Emptied x cutoff m

  cut_below :
      (i : Bool) (t cutoff final : Time) (new old : Option (StoredCandle D))
      → cutoff ≤ final
      → new ≡ cut (i && before t final) old
      → new ≡ cut (i && before t cutoff) new
  cut_below i t cutoff final new old h e = ground arith

  cut_again :
      (b b' : Bool) (new old : Option (StoredCandle D))
      → old ≡ cut b old
      → new ≡ cut b' old
      → new ≡ cut b new
  cut_again b b' new old h e = ground arith

  -- Later deletions keep what earlier ones did.
  clean_scope-keeps :
      (call : Context) (now : Time) (history : ℕ) (x : RetentionScope) (c : Calendar)
      (failures : Option Error) (r : Repository D)
      → Tidy r.series
      → Tidy (clean_scope call now history x c failures r).0.series
  unfolding clean_scope
  clean_scope-keeps call now history x c failures r tidy =
      either (history_cutoff c now (pos history))
    where
      deleted :
          (p : Repository D × Result (Unit {0}))
          → Tidy p.0.series
          → Tidy (failing failures p).0.series
      deleted (r', ok _) h = h
      deleted (r', err e) h = h

      either :
          (cutoff : Result Time)
          → Tidy
              (elim cutoff as (λ x. Repository D × Option Error) [
                | err e ↦ (r, some (join_error failures e))
                | ok t ↦ failing failures (delete_before call x.scope x.interval t r)
              ]).0.series
      either (err e) = tidy
      either (ok t) = deleted _ (delete_before-Tidy call x.scope x.interval t r tidy)

  -- A scope that failed nothing, and found nothing failed.
  clean_scope-ok :
      (call : Context) (now : Time) (history : ℕ) (x : RetentionScope) (c : Calendar)
      (failures : Option Error) (r : Repository D)
      → (clean_scope call now history x c failures r).1 ≡ none
      → (cutoff : Time) × (history_cutoff c now (pos history) ≡ ok cutoff)
        × ((delete_before call x.scope x.interval cutoff r).1 ≡ ok tt)
        × (failures ≡ none)
        × ((clean_scope call now history x c failures r).0
            ≡ (delete_before call x.scope x.interval cutoff r).0)
  unfolding clean_scope
  clean_scope-ok call now history x c failures r h =
      either (history_cutoff c now (pos history)) refl h
    where
      deleted :
          (p : Repository D × Result (Unit {0}))
          → (failing failures p).1 ≡ none
          → (p.1 ≡ ok tt) × (failures ≡ none) × ((failing failures p).0 ≡ p.0)
      deleted (r', ok _) k = (refl, k, refl)
      deleted (r', err e) k = cc

      either :
          (m : Result Time)
          → history_cutoff c now (pos history) ≡ m
          → (elim m as (λ x. Repository D × Option Error) [
            | err e ↦ (r, some (join_error failures e))
            | ok t ↦ failing failures (delete_before call x.scope x.interval t r)
          ]).1
            ≡ none
          → (cutoff : Time) × (history_cutoff c now (pos history) ≡ ok cutoff)
            × ((delete_before call x.scope x.interval cutoff r).1 ≡ ok tt)
            × (failures ≡ none)
            × ((elim m as (λ x. Repository D × Option Error) [
              | err e ↦ (r, some (join_error failures e))
              | ok t ↦ failing failures (delete_before call x.scope x.interval t r)
            ]).0
                ≡ (delete_before call x.scope x.interval cutoff r).0)
      either (err e) limit k = cc
      either (ok t) limit k =
          let (done, earlier, same) = deleted _ k in (t, limit, done, earlier, same)

  -- What one scope of a pass that fails nothing does to the rows.
  record Cleans (now : Time) (history : ℕ) (x : RetentionScope) (c : Calendar) (r r' : Repository D)
      : Type 0 where
    cutoff : Time
    limit : history_cutoff c now (pos history) ≡ ok cutoff
    emptied : Emptied x cutoff r'.series
    keeps : (y : RetentionScope) (t : Time) → Emptied y t r.series → Emptied y t r'.series

  clean_scope-Cleans :
      (call : Context) (now : Time) (history : ℕ) (x : RetentionScope) (c : Calendar)
      (failures : Option Error) (r : Repository D)
      → Tidy r.series
      → (clean_scope call now history x c failures r).1 ≡ none
      → Cleans now history x c r (clean_scope call now history x c failures r).0
  clean_scope-Cleans call now history x c failures r tidy h =
      let (cutoff, limit, done, earlier, same) = clean_scope-ok call now history x c failures r h in
      let key : CandleScope = record { scope = x.scope; interval = x.interval } in
      let final = later cutoff (get CandleScope-discrete key r.cutoffs) in
      let (raised, found) = delete_before-find call x.scope x.interval cutoff r tidy done in
      subst (λ r'. Cleans now history x c r r') (sym same)
        (record {
          cutoff = cutoff;
          limit = limit;
          emptied = λ s t.
              cut_below (in_scope x.scope x.interval s) t cutoff final _ (find s t r.series)
                (later-le cutoff (get CandleScope-discrete key r.cutoffs)) (found s t);
          keeps = λ y t e s u.
              cut_again (in_scope y.scope y.interval s && before u t)
                (in_scope x.scope x.interval s && before u final) _ (find s u r.series) (e s u)
                (found s u);
        })

  module _ (ctx : Context) (calls : ℕ → Context) (now : Time) (history : ℕ) where
    -- A pass that fails nothing gets past the context and the calendar of its first scope.
    clean_scopes-cons :
        (n : ℕ) (x : RetentionScope) (xs : List RetentionScope) (failures : Option Error)
        (r : Repository D)
        → (clean_scopes ctx calls now history n (x ∷ xs) failures r).1 ≡ none
        → (c : Calendar) × (new_calendar x.exchange x.market x.interval ≡ ok c)
          × (clean_scopes ctx calls now history n (x ∷ xs) failures r
              ≡ clean_scopes ctx calls now history
                  (suc n)
                  xs
                  (clean_scope (calls n) now history x c failures r).1
                  (clean_scope (calls n) now history x c failures r).0)
    unfolding clean_scopes
    clean_scopes-cons n x xs failures r h = alive (ctx (suc n)) h
      where
        after_scope : Calendar → Repository D × Option Error
        after_scope c =
            clean_scopes ctx calls now history (suc n) xs
              (clean_scope (calls n) now history x c failures r).1
              (clean_scope (calls n) now history x c failures r).0

        known :
            (m : Result Calendar)
            → new_calendar x.exchange x.market x.interval ≡ m
            → (elim m as (λ y. Repository D × Option Error) [
              | err e ↦ (r, some e)
              | ok c ↦ after_scope c
            ]).1
              ≡ none
            → (c : Calendar) × (new_calendar x.exchange x.market x.interval ≡ ok c)
              × ((elim m as (λ y. Repository D × Option Error) [
                | err e ↦ (r, some e)
                | ok c ↦ after_scope c
              ])
                  ≡ after_scope c)
        known (err e) found k = cc
        known (ok c) found k = (c, found, refl)

        alive :
            (o : Option Error)
            → (elim o as (λ y. Repository D × Option Error) [
              | some e ↦ (r, some (join_error failures e))
              | none ↦
                  elim (new_calendar x.exchange x.market x.interval)
                    as (λ y. Repository D × Option Error) [
                      | err e ↦ (r, some e)
                      | ok c ↦ after_scope c
                    ]
            ]).1
              ≡ none
            → (c : Calendar) × (new_calendar x.exchange x.market x.interval ≡ ok c)
              × ((elim o as (λ y. Repository D × Option Error) [
                | some e ↦ (r, some (join_error failures e))
                | none ↦
                    elim (new_calendar x.exchange x.market x.interval)
                      as (λ y. Repository D × Option Error) [
                        | err e ↦ (r, some e)
                        | ok c ↦ after_scope c
                      ]
              ])
                  ≡ after_scope c)
        alive (some e) k = cc
        alive none k = known (new_calendar x.exchange x.market x.interval) refl k

    clean_scopes-Cleaned :
        (n : ℕ) (xs : List RetentionScope) (failures : Option Error) (r : Repository D)
        → Tidy r.series
        → (clean_scopes ctx calls now history n xs failures r).1 ≡ none
        → All (Cleaned now history (clean_scopes ctx calls now history n xs failures r).0.series) xs
          × (failures ≡ none)
          × ((y : RetentionScope) (t : Time)
              → Emptied y t r.series
              → Emptied y t (clean_scopes ctx calls now history n xs failures r).0.series)
    unfolding clean_scopes
    clean_scopes-Cleaned n [] failures r tidy h = (tt, h, λ y t e. e)
    clean_scopes-Cleaned n (x ∷ xs) failures r tidy h =
        let (c, known, same) = clean_scopes-cons n x xs failures r h in
        let (r1, f1) = clean_scope (calls n) now history x c failures r in
        let (rest, earlier, keeps) =
          clean_scopes-Cleaned (suc n) xs f1 r1
            (clean_scope-keeps (calls n) now history x c failures r tidy)
            (sym (ap (λ z. z.1) same) ∙ h) in
        let own = clean_scope-Cleans (calls n) now history x c failures r tidy earlier in
        let (cutoff, limit, done, before_it, moved) =
          clean_scope-ok (calls n) now history x c failures r earlier in
        let first : Cleaned now history
            (clean_scopes ctx calls now history (suc n) xs f1 r1).0.series x =
          record {
            calendar = c;
            known = known;
            cutoff = own.cutoff;
            limit = own.limit;
            emptied = keeps x own.cutoff own.emptied;
          } in
        (
          subst (λ z. All (Cleaned now history z.0.series) (x ∷ xs)) (sym same) (first, rest),
          before_it,
          λ y t e. subst (λ z. Emptied y t z.0.series) (sym same) (keeps y t (own.keeps y t e)),
        )

-- If the rows of every series start at distinct times, then after a pass of `Clean` that returns
-- no error every scope of the retention has a history cutoff for the time of the pass, and no row
-- of the scope starts below it.
pub clean-Cleaned :
    {D : Type 0} (retention : Retention) (ctx : Context) (calls : ℕ → Context) (now : Time)
    (r : Repository D)
    → Tidy r.series
    → (clean retention ctx calls now r).1 ≡ none
    → All
        (Cleaned now retention.history (clean retention ctx calls now r).0.series)
        retention.scopes
unfolding clean
clean-Cleaned {D} retention ctx calls now r tidy h = started (ctx 0) h
  where
    pass : Option Error → Repository D × Option Error
    pass o = elim o as (λ x. Repository D × Option Error) [
      | some e ↦ (r, some e)
      | none ↦ clean_scopes ctx calls now retention.history 0 retention.scopes none r
    ]

    started :
        (o : Option Error)
        → (pass o).1 ≡ none
        → All (Cleaned now retention.history (pass o).0.series) retention.scopes
    started (some e) k = cc
    started none k =
        (clean_scopes-Cleaned ctx calls now retention.history 0 retention.scopes none r tidy k).0
