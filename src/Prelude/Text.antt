-- ===== src/Prelude/Text.antt =====
-- Go strings as their bytes, written as literals.
use Prim.Native.Char.{code}
use Prim.Native.Nat.{ℕ}
use Prim.Native.String.{String}
use mathlib.Core.Bool.{Bool, true, false, ◌&&◌, ◌||◌}
use mathlib.Core.List.{List, [], ◌∷◌}
use mathlib.Core.Path.{◌≡◌, refl, sym}
use native.Mathlib.Decide.{ℕ_discrete}
use market_data.Prelude.Tests.{◌==◌}

-- The bytes of a literal, which are its code points in ASCII.
abbrev pub bytes : String → List ℕ
bytes String.[] = []
bytes (String.◌∷◌ c s) = code c ∷ bytes s

abbrev pub same_text : List ℕ → List ℕ → Bool
same_text [] [] = true
same_text (a ∷ xs) (b ∷ ys) = a == b && same_text xs ys
same_text _ _ = false

abbrev pub contains : List (List ℕ) → List ℕ → Bool
contains [] t = false
contains (u ∷ us) t = same_text u t || contains us t

pub cons_eq : {x y : ℕ} {xs ys : List ℕ} → x ≡ y → xs ≡ ys → x ∷ xs ≡ y ∷ ys
cons_eq e f = cc

pub cons_head : {x y : ℕ} {xs ys : List ℕ} → x ∷ xs ≡ y ∷ ys → x ≡ y
cons_head e = cc

pub cons_tail : {x y : ℕ} {xs ys : List ℕ} → x ∷ xs ≡ y ∷ ys → xs ≡ ys
cons_tail e = cc

pub nil-ne-cons : {y : ℕ} {ys : List ℕ} → ¬ ([] ≡ y ∷ ys)
nil-ne-cons e = cc

abbrev cons_discrete :
    {x y : ℕ} {xs ys : List ℕ} → Dec (x ≡ y) → Dec (xs ≡ ys) → Dec (x ∷ xs ≡ y ∷ ys)
cons_discrete (yes e) (yes f) = yes (cons_eq e f)
cons_discrete (no n) _ = no (λ e. n (cons_head e))
cons_discrete (yes e) (no n) = no (λ f. n (cons_tail f))

unfoldable pub Text-discrete : Discrete (List ℕ)
unfolding ℕ_discrete
Text-discrete [] [] = yes refl
Text-discrete [] (y ∷ ys) = no nil-ne-cons
Text-discrete (x ∷ xs) [] = no (λ e. nil-ne-cons (sym e))
Text-discrete (x ∷ xs) (y ∷ ys) = cons_discrete (ℕ_discrete x y) (Text-discrete xs ys)
