-- ===== src/Storage/Snapshots/Replace.antt =====
-- What a snapshot repository (internal/infrastructure/storage/memory) holds after
-- `ReplaceSnapshot`.
use market_data.Prelude.{
  ℕ, suc, ◌≡◌, refl, sym, ap, ◌∙◌, Bool, true, false, not, Option, none, some, is_some, List, [],
  ◌∷◌, ite,
}
use market_data.Prelude.Map.{Map, get, put, get-nil, get-put_self, get-put_ne}
use market_data.Prelude.Text.{Text-discrete}
use market_data.Errors.{Result, ok, err, guard, ◌>>◌, >>=-eq-ok, invalid_upstream_data}
use market_data.Domain.Market.{Text}
use market_data.Application.Context.{Context, check}
use market_data.Storage.Snapshots.{Shape, Repository, stage_rows, replace_rows, publish}

module _ {Key Row : Type 0} (shape : Shape Key Row) where
  -- The first row of a symbol.
  unfoldable pub row_of : Text → List Row → Option Row
  row_of t [] = none
  row_of t (row ∷ rows) = ite (Text-discrete (shape.symbol_of row) t) (some row) (row_of t rows)

  abbrev pub or_else : Option Row → Option Row → Option Row
  or_else none o = o
  or_else (some row) o = some row

  stage_row-get :
      (t : Text) (row : Row) (rows : List Row) (next : Map Text Row)
      → get Text-discrete (shape.symbol_of row) next ≡ none
      → or_else
          (get Text-discrete t (put Text-discrete (shape.symbol_of row) row next))
          (row_of t rows)
        ≡ or_else (get Text-discrete t next) (row_of t (row ∷ rows))
  unfolding row_of
  stage_row-get t row rows next h = choose (Text-discrete (shape.symbol_of row) t)
    where
      choose :
          (d : Dec (shape.symbol_of row ≡ t))
          → or_else
              (get Text-discrete t (put Text-discrete (shape.symbol_of row) row next))
              (row_of t rows)
            ≡ or_else (get Text-discrete t next) (ite d (some row) (row_of t rows))
      choose (yes e) = rw (sym e, get-put_self Text-discrete (shape.symbol_of row) row next, h) refl
      choose (no n) = rw (get-put_ne Text-discrete (shape.symbol_of row) t row next n) refl

  stage_rows-get :
      (ctx : Context) (key : Key) (t : Text) (rows : List Row) (n : ℕ) (next : Map Text Row)
      {staged : Map Text Row}
      → stage_rows shape ctx key rows n next ≡ ok staged
      → get Text-discrete t staged ≡ or_else (get Text-discrete t next) (row_of t rows)
  unfolding stage_rows row_of
  stage_rows-get ctx key t [] n next {staged} h =
      let (alive, checked, done) = >>=-eq-ok (check ctx n) (λ _. ok next) h in
      let same_rows : staged ≡ next = cc in
      ap (get Text-discrete t) same_rows ∙ or_none (get Text-discrete t next)
    where
      or_none : (o : Option Row) → o ≡ or_else o none
      or_none none = refl
      or_none (some row) = refl
  stage_rows-get ctx key t (row ∷ rows) n next {staged} h =
      let symbol = shape.symbol_of row in
      let own = guard (shape.belongs key row) invalid_upstream_data in
      let fresh = not (is_some (get Text-discrete symbol next)) in
      let unique = guard fresh invalid_upstream_data in
      let later = stage_rows shape ctx key rows (suc n) (put Text-discrete symbol row next) in
      let (_, checks, h1) = >>=-eq-ok (check ctx n >> own >> unique) (λ _. later) h in
      let (_, _, h2) = >>=-eq-ok (check ctx n >> own) (λ _. unique) checks in
      stage_rows-get ctx key t rows (suc n) (put Text-discrete symbol row next) h1
      ∙ stage_row-get t row rows next (absent (get Text-discrete symbol next) (passed fresh h2))
    where
      passed : (b : Bool) {u : Unit {0}} → guard b invalid_upstream_data ≡ ok u → b ≡ true
      passed true h = refl
      passed false h = cc

      absent : (o : Option Row) → not (is_some o) ≡ true → o ≡ none
      absent none h = refl
      absent (some r) h = cc

  -- What a snapshot, if there is one, holds under a symbol.
  abbrev pub held : Option (Map Text Row) → Text → Option (Option Row)
  held none t = none
  held (some rows) t = some (get Text-discrete t rows)

  -- After a `ReplaceSnapshot` that succeeds, the snapshot of its key is there, and holds under a
  -- symbol the first row of the batch with that symbol, or nothing where the batch has none; the
  -- snapshot of any other key is there or not, and holds what it held.
  pub replace_rows-get :
      (ctx : Context) (key other : Key) (t : Text) (rows : List Row) (r : Repository Key Row)
      → (replace_rows shape ctx key rows r).1 ≡ ok tt
      → held (get shape.same_key other (replace_rows shape ctx key rows r).0) t
        ≡ ite
            (shape.same_key key other)
            (some (row_of t rows))
            (held (get shape.same_key other r) t)
  unfolding replace_rows
  replace_rows-get ctx key other t rows r h =
      by_outcome (check ctx 0 >> shape.allowed key >> stage_rows shape ctx key rows 1 []) refl h
    where
      published :
          (next : Map Text Row) (d : Dec (key ≡ other))
          → get Text-discrete t next ≡ row_of t rows
          → held (get shape.same_key other (put shape.same_key key next r)) t
            ≡ ite d (some (row_of t rows)) (held (get shape.same_key other r) t)
      published next (yes e) g = rw (sym e, get-put_self shape.same_key key next r) (ap some g)
      published next (no n) g = rw (get-put_ne shape.same_key key other next r n) refl

      by_outcome :
          (staged : Result (Map Text Row))
          → check ctx 0 >> shape.allowed key >> stage_rows shape ctx key rows 1 [] ≡ staged
          → (publish shape key staged r).1 ≡ ok tt
          → held (get shape.same_key other (publish shape key staged r).0) t
            ≡ ite
                (shape.same_key key other)
                (some (row_of t rows))
                (held (get shape.same_key other r) t)
      by_outcome (err e) s h = cc
      by_outcome (ok next) s h =
          let (_, checks, staged) =
            >>=-eq-ok (check ctx 0 >> shape.allowed key) (λ _. stage_rows shape ctx key rows 1 [])
              s in
          published next (shape.same_key key other) (
            stage_rows-get ctx key t rows 1 [] staged
            ∙ ap (λ o. or_else o (row_of t rows)) (get-nil {V = Row} Text-discrete t))
