-- ===== src/Upstream/Percent.antt =====
-- `percent` of internal/infrastructure/exchange/upstream/controller.go and `percentage` of
-- internal/config/validate.go.
use native.Mathlib.Nat.{add-mul, mul-add, mul-le-mul_left, mul-le-mul_right, mul_assoc}
use market_data.Prelude.{ℕ, ◌+◌, ◌*◌, ◌/◌, ◌%◌, ◌≤◌, ◌≡◌, arith, ap, ◌∙◌}
use market_data.Upstream.{percent}

split_product : (v s : ℕ) → v * s ≡ 100 * (v / 100 * s) + v % 100 * s
split_product v s =
    let whole : v ≡ 100 * (v / 100) + v % 100 = omega arith in
    ap (λ x. x * s) whole
    ∙ add-mul (100 * (v / 100)) (v % 100) s
    ∙ ap (λ x. x + v % 100 * s) (mul_assoc 100 (v / 100) s)

-- `percent` is the exact floor of value * share / 100, although it multiplies no number above 99
-- and the quotient by the share.
pub percent_floor : (value share : ℕ) → percent value share ≡ value * share / 100
unfolding percent
percent_floor value share = omega (arith, split_product value share)

-- A share up to 100 is no more than the value.
pub percent-le : (value share : ℕ) → share ≤ 100 → percent value share ≤ value
percent-le value share h =
    omega (arith, percent_floor value share, mul-le-mul_left {m = share} {n = 100} value h)

-- The same share of a value no less is no less.
pub percent_mono : (v v' share : ℕ) → v ≤ v' → percent v share ≤ percent v' share
percent_mono v v' share h = omega (
  arith,
  percent_floor v share,
  percent_floor v' share,
  mul-le-mul_right {m = v} {n = v'} share h,
)

-- Shares of one value that total 100 take no more than the value together.
pub percent_total :
    (v a b c d : ℕ)
    → a + b + c + d ≡ 100
    → percent v a + percent v b + percent v c + percent v d ≤ v
percent_total v a b c d h =
    let total : v * a + v * b + v * c + v * d ≡ v * 100 =
      omega
        (arith, mul-add v (a + b + c) d, mul-add v (a + b) c, mul-add v a b, ap (λ x. v * x) h) in
    omega (arith, percent_floor v a, percent_floor v b, percent_floor v c, percent_floor v d)
