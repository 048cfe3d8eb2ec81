-- ===== src/Application/Refreshes.antt =====
-- internal/application/kline/service.go and internal/application/kline/fill.go: the evidence that a
-- caller gathers on the rows of its query (`refreshes.merge`), and `madeProgress`.
mod Tests
use market_data.Prelude.{
  ℕ, ◌<◌, ◌≤◌, ◌≡◌, refl, sym, ◌⊎◌, inl, inr, Bool-cases, subst, ◌∙◌, ◌≢◌, arith, Bool, true, false,
  not, ◌&&◌, ◌||◌, ◌==◌, Option, none, some, List, [], ◌∷◌, if◌then◌else◌, ℕ_discrete, is_some,
}
use market_data.Prelude.Map.{
  Map, get, put, get-nil, get-cons_self, get-cons_ne, get-put_self, get-put_ne, Unique,
  get_of_Fresh,
}
use market_data.Domain.Time.{Time, before, after}
use market_data.Application.Series.{Query, Stored}
use market_data.Application.Planner.Loading.{Evidence, Refreshes}

abbrev pub within_query : Query → Time → Bool
within_query q t = not (before t q.from) && before t q.to

-- `!ok || e.started.After(previous.started) || ...`.
abbrev pub newer : Evidence → Option Evidence → Bool
newer e none = true
newer e (some previous) =
    after e.started previous.started
    || (e.started == previous.started && after e.fetched previous.fetched)

unfoldable pub merge_one : Query → Time → Evidence → Refreshes → Refreshes
merge_one q t e r =
    if within_query q t && newer e (get ℕ_discrete t r) then put ℕ_discrete t e r else r

unfoldable pub merge : Query → Refreshes → Refreshes → Refreshes
unfolding merge_one
merge q [] r = r
merge q ((t, e) ∷ other) r = merge q other (merge_one q t e r)

-- What a slot of the query has after a merge: the newer evidence, and the old one on a tie.
abbrev pub newest : Bool → Option Evidence → Option Evidence → Option Evidence
newest false incoming old = old
newest true none old = old
newest true (some e) old = if newer e old then some e else old

merge_one_self :
    (q : Query) (t : Time) (e : Evidence) (r : Refreshes)
    → get ℕ_discrete t (merge_one q t e r) ≡ newest (within_query q t) (some e) (get ℕ_discrete t r)
unfolding merge_one
merge_one_self q t e r = ground (arith, get-put_self ℕ_discrete t e r)

merge_one_ne :
    (q : Query) (t t' : Time) (e : Evidence) (r : Refreshes)
    → t ≢ t'
    → get ℕ_discrete t' (merge_one q t e r) ≡ get ℕ_discrete t' r
unfolding merge_one
merge_one_ne q t t' e r h = ground (arith, get-put_ne ℕ_discrete t t' e r h)

newest-none : (b : Bool) (o : Option Evidence) → newest b none o ≡ o
newest-none true o = refl
newest-none false o = refl

merge-get :
    (q : Query) (t : Time) (other r : Refreshes)
    → Unique other
    → get ℕ_discrete t (merge q other r)
      ≡ newest (within_query q t) (get ℕ_discrete t other) (get ℕ_discrete t r)
unfolding merge
merge-get q t [] r u =
    sym (
      rw (get-nil {V = Evidence} ℕ_discrete t)
        (newest-none (within_query q t) (get ℕ_discrete t r)))
merge-get q t ((t', e) ∷ other) r u =
    merge-get q t other (merge_one q t' e r) u.1 ∙ elim (ℕ_discrete t' t) [
      | yes same ↦
          subst
            (λ x.
              newest (within_query q x) (get ℕ_discrete x other)
                (get ℕ_discrete x (merge_one q t' e r))
              ≡ newest (within_query q x) (get ℕ_discrete x ((t', e) ∷ other)) (get ℕ_discrete x r))
            same
            (rw (get_of_Fresh ℕ_discrete t' other u.0, get-cons_self ℕ_discrete t' e other)
              (newest-none (within_query q t') (get ℕ_discrete t' (merge_one q t' e r))
                ∙ merge_one_self q t' e r))
      | no other_slot ↦
          rw (get-cons_ne ℕ_discrete t' t e other other_slot, merge_one_ne q t' t e r other_slot)
            refl
    ]

-- The piece of evidence is of an earlier request than the other, or of the same one, fetched before
-- it.
abbrev pub Earlier : Evidence → Evidence → Type 0
Earlier a b = (a.started < b.started) ⊎ ((a.started ≡ b.started) × (a.fetched < b.fetched))

-- What a slot has after a merge, by what the two maps have for it.
abbrev pub Latest : Option Evidence → Option Evidence → Option Evidence → Type 0
Latest none old result = result ≡ old
Latest (some e) none result = result ≡ some e
Latest (some e) (some p) result =
    (Earlier p e × (result ≡ some e)) ⊎ (¬ (Earlier p e) × (result ≡ some p))

newer-Earlier : (e p : Evidence) → newer e (some p) ≡ true → Earlier p e
newer-Earlier e p h = ground arith

older-Earlier : (e p : Evidence) → newer e (some p) ≡ false → ¬ (Earlier p e)
older-Earlier e p h = ground arith

newest-Latest : (incoming old : Option Evidence) → Latest incoming old (newest true incoming old)
newest-Latest none old = refl
newest-Latest (some e) none = refl
newest-Latest (some e) (some p) = elim (Bool-cases (newer e (some p))) [
  | inl later ↦ inl (newer-Earlier e p later, rw later refl)
  | inr kept ↦ inr (older-Earlier e p kept, rw kept refl)
]

-- After a `merge` of a map, whose keys are distinct, a slot at or after `From` and before `To` has
-- the later of the two pieces of evidence by the start of the request, then by the time of the
-- fetch, the old one on a tie, and the only one where there is one; every other slot has what it
-- had.
pub merge-Latest :
    (q : Query) (t : Time) (other r : Refreshes)
    → Unique other
    → (((q.from ≤ t)
          × (t < q.to)
          × Latest
              (get ℕ_discrete t other)
              (get ℕ_discrete t r)
              (get ℕ_discrete t (merge q other r)))
        ⊎ (((t < q.from) ⊎ (q.to ≤ t)) × (get ℕ_discrete t (merge q other r) ≡ get ℕ_discrete t r)))
merge-Latest q t other r u = elim (Bool-cases (within_query q t)) [
  | inl inside ↦
      let (low, high) = bounds inside in
      inl (
        low,
        high,
        subst (Latest (get ℕ_discrete t other) (get ℕ_discrete t r)) (sym (at_slot true inside))
            (newest-Latest (get ℕ_discrete t other) (get ℕ_discrete t r)),
      )
  | inr outside ↦ inr (outer outside, at_slot false outside)
]
  where
    at_slot :
        (b : Bool)
        → within_query q t ≡ b
        → get ℕ_discrete t (merge q other r)
          ≡ newest b (get ℕ_discrete t other) (get ℕ_discrete t r)
    at_slot b h =
        subst
          (λ x.
            get ℕ_discrete t (merge q other r)
            ≡ newest x (get ℕ_discrete t other) (get ℕ_discrete t r))
          h (merge-get q t other r u)

    bounds : within_query q t ≡ true → (q.from ≤ t) × (t < q.to)
    bounds h = ground arith

    outer : within_query q t ≡ false → (t < q.from) ⊎ (q.to ≤ t)
    outer h = ground arith

-- The evidence of a stored row, as `madeProgress` compares it.
abbrev evidence_of : {D : Type 0} → Stored D → Evidence
evidence_of row = record { started = row.request_started_at; fetched = row.candle.fetched_at }

-- `previous` of `madeProgress`.
unfoldable pub index_rows : {D : Type 0} → List (Stored D) → Refreshes → Refreshes
index_rows [] previous = previous
index_rows (row ∷ rows) previous =
    index_rows rows (put ℕ_discrete row.candle.open_time (evidence_of row) previous)

unfoldable pub any_newer : {D : Type 0} → Refreshes → List (Stored D) → Bool
any_newer previous [] = false
any_newer previous (row ∷ rows) =
    newer (evidence_of row) (get ℕ_discrete row.candle.open_time previous)
    || any_newer previous rows

unfoldable pub made_progress : {D : Type 0} → List (Stored D) → List (Stored D) → Bool
unfolding index_rows any_newer
made_progress before_rows after_rows = any_newer (index_rows before_rows []) after_rows
