-- ===== src/Money.antt =====
-- Money: `_convert_amount_usd` of app/services/transaction_service.py and the part of Python's
-- `decimal` that it runs on. Amounts and rates are not negative (the request schemas refuse a
-- negative amount or rate), so a Decimal is a natural coefficient over a power of ten.
pub mod Rounding
use payment_ledger_api.Common.{
  ℕ, zero, suc, ◌+◌, ◌*◌, ◌/◌, ◌%◌, ◌^◌, Option, none, some, ltb, ◌==◌, nat_eq, if◌then◌else◌,
}

-- `coefficient / 10 ^ places`
pub record Decimal : Type 0 where
  pub coefficient : ℕ
  pub places : ℕ

-- The default context of `decimal` keeps 28 significant digits.
abbrev pub context_limit : ℕ
context_limit = 10 ^ 28

-- The power of ten by which a coefficient exceeds the context. Each round drops a digit, so a
-- fuel of the coefficient itself is more than enough.
unfoldable pub excess : ℕ → ℕ → ℕ
excess zero n = 1
excess (suc f) n = let more = 10 * excess f (n / 10) in if ltb n context_limit then 1 else more

-- `n / d` to the nearest, ties to the even neighbour: the rounding of the default context.
unfoldable pub div_half_even : ℕ → ℕ → ℕ
div_half_even n d =
    if ltb (2 * (n % d)) d
    then n / d
    else if ltb d (2 * (n % d))
    then n / d + 1
    else if n / d % 2 == 0
    then n / d
    else n / d + 1

-- A result rounded to the context, written at the places that it had.
unfoldable pub round_to_context : ℕ → ℕ
unfolding excess div_half_even
round_to_context n = let d = excess n n in div_half_even n d * d

unfoldable pub mul : Decimal → Decimal → Decimal
mul a b = record {
  coefficient = round_to_context (a.coefficient * b.coefficient);
  places = a.places + b.places;
}

-- `x.quantize(Decimal("1"), rounding=ROUND_HALF_UP)`, which raises InvalidOperation (`none`) if
-- the result has more digits than the context.
unfoldable pub quantize_half_up : Decimal → Option ℕ
quantize_half_up x =
    let q = (2 * x.coefficient + 10 ^ x.places) / (2 * 10 ^ x.places) in
    if ltb q context_limit then some q else none

-- `_convert_amount_usd`
unfoldable pub convert_amount_usd : ℕ → Decimal → Option ℕ
unfolding mul quantize_half_up
convert_amount_usd amount rate =
    quantize_half_up (mul (record { coefficient = amount; places = 0 }) rate)

-- `Decimal("1")`
abbrev pub decimal_one : Decimal
decimal_one = record { coefficient = 1; places = 0 }

-- A rate as the column `Numeric(18, 8)` returns it: eight places.
abbrev pub numeric8 : ℕ → Decimal
numeric8 n = record { coefficient = n; places = 8 }

-- A rate as that column stores it, in units of 10 ^ -8: to the nearest, a half upwards.
abbrev pub rounded8 : Decimal → ℕ
rounded8 x = (2 * (x.coefficient * 10 ^ 8) + 10 ^ x.places) / (2 * 10 ^ x.places)

-- What a column of type BIGINT can hold of the numbers that are not negative.
abbrev pub bigint_limit : ℕ
bigint_limit = 2 ^ 63
