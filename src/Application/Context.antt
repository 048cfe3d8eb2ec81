-- ===== src/Application/Context.antt =====
-- A `context.Context` as the answers of its `Err` method: the n-th call in an operation gives the
-- n-th answer. An answer is `none` while the context lives.
use market_data.Prelude.{ℕ, Option, none, some}
use market_data.Errors.{Error, Result, ok, err}

abbrev pub Context : Type 0
Context = ℕ → Option Error

abbrev pub failed_if : Option Error → Result (Unit {0})
failed_if none = ok tt
failed_if (some e) = err e

-- `if err := ctx.Err(); err != nil { return err }`, the n-th time.
abbrev pub check : Context → ℕ → Result (Unit {0})
check ctx n = failed_if (ctx n)

-- The context that is never canceled.
abbrev pub background : Context
background n = none
