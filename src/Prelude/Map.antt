-- ===== src/Prelude/Map.antt =====
-- Go's `map[K]V` as an association list: `get` is `v, ok := m[k]`, `put` is `m[k] = v`, `delete` is
-- `delete(m, k)`, `keep` deletes the entries that fail a test. The order of the list stands for
-- the unspecified order of `range`.
use mathlib.Core.Path.{◌≡◌, refl, sym, subst}
use mathlib.Core.Logic.{◌≢◌, ite}
use mathlib.Core.List.{List, [], ◌∷◌}
use mathlib.Core.Option.{Option, none, some}
use mathlib.Core.Bool.{Bool}
use native.Mathlib.Omega.{arith}
use market_data.Prelude.Tests.{if◌then◌else◌}

abbrev pub Map {ℓ} : Type ℓ → Type ℓ → Type ℓ
Map K V = List (K × V)

module _ {ℓ} {K V : Type ℓ} (d : Discrete K) where
  unfoldable pub get : K → Map K V → Option V
  get k [] = none
  get k ((j, v) ∷ m) = ite (d j k) (some v) (get k m)

  unfoldable pub put : K → V → Map K V → Map K V
  put k v [] = (k, v) ∷ []
  put k v ((j, w) ∷ m) = ite (d j k) ((k, v) ∷ m) ((j, w) ∷ put k v m)

  unfoldable pub delete : K → Map K V → Map K V
  delete k [] = []
  delete k ((j, w) ∷ m) = ite (d j k) (delete k m) ((j, w) ∷ delete k m)

  pub get-nil : (k : K) → get k [] ≡ none
  unfolding get
  get-nil k = refl

  pub get-cons_self : (k : K) (v : V) (m : Map K V) → get k ((k, v) ∷ m) ≡ some v
  unfolding get
  get-cons_self k v m = ground arith

  pub get-cons_ne : (j k : K) (v : V) (m : Map K V) → j ≢ k → get k ((j, v) ∷ m) ≡ get k m
  unfolding get
  get-cons_ne j k v m h = ground arith

  pub get-put_self : (k : K) (v : V) (m : Map K V) → get k (put k v m) ≡ some v
  unfolding get put
  get-put_self k v [] = ground arith
  get-put_self k v ((j, w) ∷ m) = ground (arith, get-put_self k v m)

  pub get-put_ne : (k j : K) (v : V) (m : Map K V) → k ≢ j → get j (put k v m) ≡ get j m
  unfolding get put
  get-put_ne k j v [] h = ground arith
  get-put_ne k j v ((i, w) ∷ m) h = ground (arith, get-put_ne k j v m)

  pub get-delete_self : (k : K) (m : Map K V) → get k (delete k m) ≡ none
  unfolding get delete
  get-delete_self k [] = refl
  get-delete_self k ((j, w) ∷ m) = ground (arith, get-delete_self k m)

  pub get-delete_ne : (k j : K) (m : Map K V) → k ≢ j → get j (delete k m) ≡ get j m
  unfolding get delete
  get-delete_ne k j [] h = refl
  get-delete_ne k j ((i, w) ∷ m) h = ground (arith, get-delete_ne k j m)

-- `some v` where `v` passes the test.
abbrev pub guarded {ℓ} : {V : Type ℓ} → (V → Bool) → Option V → Option V
guarded p none = none
guarded p (some v) = if p v then some v else none

module _ {ℓ} {K V : Type ℓ} where
  unfoldable pub keep : (K → V → Bool) → Map K V → Map K V
  keep p [] = []
  keep p ((k, v) ∷ m) = let rest = keep p m in if p k v then (k, v) ∷ rest else rest

  -- No key of `m` is `k`.
  abbrev pub Fresh : K → Map K V → Type ℓ
  Fresh k [] = Unit
  Fresh k ((j, v) ∷ m) = (j ≢ k) × Fresh k m

  -- No key occurs twice, as in every Go map.
  abbrev pub Unique : Map K V → Type ℓ
  Unique [] = Unit
  Unique ((k, v) ∷ m) = Fresh k m × Unique m

  pub keep-Fresh : (p : K → V → Bool) (k : K) (m : Map K V) → Fresh k m → Fresh k (keep p m)
  unfolding keep
  keep-Fresh p k [] h = tt
  keep-Fresh p k ((j, v) ∷ m) h = ground (arith, keep-Fresh p k m h.1)

  pub keep-Unique : (p : K → V → Bool) (m : Map K V) → Unique m → Unique (keep p m)
  unfolding keep
  keep-Unique p [] h = tt
  keep-Unique p ((k, v) ∷ m) h = ground (arith, keep-Unique p m h.1, keep-Fresh p k m h.0)

module _ {ℓ} {K V : Type ℓ} (d : Discrete K) where
  pub get_of_Fresh : (k : K) (m : Map K V) → Fresh k m → get d k m ≡ none
  unfolding get
  get_of_Fresh k [] h = refl
  get_of_Fresh k ((j, v) ∷ m) h = ground (arith, get_of_Fresh k m h.1)

  -- Reading through a filter, where no key occurs twice.
  pub get-keep :
      (p : K → V → Bool) (k : K) (m : Map K V)
      → Unique m
      → get d k (keep p m) ≡ guarded (p k) (get d k m)
  unfolding get keep
  get-keep p k [] u = refl
  get-keep p k ((j, v) ∷ m) u = elim (d j k) [
    | yes e ↦
        subst (λ i. get d k (keep p ((i, v) ∷ m)) ≡ guarded (p k) (get d k ((i, v) ∷ m))) (sym e)
          (ground (arith, get_of_Fresh k m, get-keep p k m u.1, subst (λ i. Fresh i m) e u.0))
    | no n ↦ ground (arith, get-keep p k m u.1)
  ]

  put-Fresh : (k j : K) (v : V) (m : Map K V) → j ≢ k → Fresh k m → Fresh k (put d j v m)
  unfolding put
  put-Fresh k j v [] n h = (n, tt)
  put-Fresh k j v ((i, w) ∷ m) n h = ground (arith, put-Fresh k j v m)

  pub put-Unique : (k : K) (v : V) (m : Map K V) → Unique m → Unique (put d k v m)
  unfolding put
  put-Unique k v [] h = (tt, tt)
  put-Unique k v ((j, w) ∷ m) h = ground (arith, put-Unique k v m, put-Fresh j k v m)

  delete-Fresh : (k j : K) (m : Map K V) → Fresh k m → Fresh k (delete d j m)
  unfolding delete
  delete-Fresh k j [] h = tt
  delete-Fresh k j ((i, w) ∷ m) h = ground (arith, delete-Fresh k j m)

  pub delete-Unique : (k : K) (m : Map K V) → Unique m → Unique (delete d k m)
  unfolding delete
  delete-Unique k [] h = tt
  delete-Unique k ((j, w) ∷ m) h = ground (arith, delete-Unique k m, delete-Fresh j k m)
