-- ===== src/Prelude/Weights.antt =====
-- The number of entries of a Go map, and the sum of a weight of its keys.

use Prim.Native.Nat.{ℕ, suc, ◌+◌, ◌≤◌}
use mathlib.Core.Path.{◌≡◌, refl}
use mathlib.Core.List.{[], ◌∷◌}
use mathlib.Core.Option.{none, some}
use native.Mathlib.Omega.{arith}
use market_data.Prelude.Lists.{length}
use market_data.Prelude.Map.{Map, get, put, delete, Fresh, Unique}

unfoldable pub weigh {ℓ} : {K V : Type ℓ} → (K → ℕ) → Map K V → ℕ
weigh w [] = 0
weigh w ((k, v) ∷ m) = w k + weigh w m

module _ {ℓ} {K V : Type ℓ} (d : Discrete K) where
  pub length-put :
      (k : K) (v : V) (m : Map K V) → get d k m ≡ none → length (put d k v m) ≡ suc (length m)
  unfolding get put
  length-put k v [] h = refl
  length-put k v ((j, u) ∷ m) h = ground (arith, length-put k v m)

  pub length-delete : (k : K) (m : Map K V) → length (delete d k m) ≤ length m
  unfolding delete
  length-delete k [] = omega arith
  length-delete k ((j, v) ∷ m) = ground (arith, length-delete k m)

  delete_absent : (k : K) (m : Map K V) → Fresh k m → delete d k m ≡ m
  unfolding delete
  delete_absent k [] h = refl
  delete_absent k ((j, v) ∷ m) h = ground (arith, delete_absent k m h.1)

  module _ (w : K → ℕ) where
    pub weigh-put :
        (k : K) (v : V) (m : Map K V) → get d k m ≡ none → weigh w (put d k v m) ≡ weigh w m + w k
    unfolding get put weigh
    weigh-put k v [] h = omega arith
    weigh-put k v ((j, u) ∷ m) h = ground (arith, weigh-put k v m)

    pub weigh-delete :
        (k : K) (v : V) (m : Map K V)
        → Unique m
        → get d k m ≡ some v
        → weigh w (delete d k m) + w k ≡ weigh w m
    unfolding get delete weigh
    weigh-delete k v [] u h = ground arith
    weigh-delete k v ((j, x) ∷ m) u h =
        ground (arith, weigh-delete k v m u.1, delete_absent j m u.0)
