-- ===== src/Money/Rounding.antt =====
-- The conversion to USD rounds once, half up, wherever its result can be stored.
use native.Mathlib.Nat.{mul-le-mul, le-div_iff_mul-le}
use payment_ledger_api.Common.{
  ℕ, zero, suc, ◌+◌, ◌*◌, ◌/◌, ◌^◌, ◌≤◌, ◌<◌, ◌≡◌, refl, ◌↔◌, some, arith,
}
use payment_ledger_api.Money.{
  context_limit, excess, div_half_even, round_to_context, convert_amount_usd, decimal_one, numeric8,
  bigint_limit,
}

excess-eq_one : (f n : ℕ) → n < context_limit → excess f n ≡ 1
unfolding excess
excess-eq_one zero n h = refl
excess-eq_one (suc f) n h = ground arith

excess_pos : (f n : ℕ) → 1 ≤ excess f n
unfolding excess
excess_pos zero n = omega arith
excess_pos (suc f) n = ground (arith, excess_pos f (n / 10))

excess_ge_ten : (f n : ℕ) → context_limit ≤ n → 10 ≤ excess (suc f) n
unfolding excess
excess_ge_ten f n h = ground (arith, excess_pos f (n / 10))

excess_keeps : (f n : ℕ) → 10 ^ 27 ≤ n → 10 ^ 27 * excess f n ≤ n
unfolding excess
excess_keeps zero n h = omega arith
excess_keeps (suc f) n h = ground (arith, excess_keeps f (n / 10))

div_half_even_one : (n : ℕ) → div_half_even n 1 ≡ n
unfolding div_half_even
div_half_even_one n = ground arith

div-le-div_half_even : (n d : ℕ) → n / d ≤ div_half_even n d
unfolding div_half_even
div-le-div_half_even n d = ground arith

-- A coefficient that fits the context is not rounded.
round_to_context-small : (n : ℕ) → n < context_limit → round_to_context n ≡ n
unfolding round_to_context
round_to_context-small n h = rw (excess-eq_one n n h, div_half_even_one n) (omega arith)

-- The rounding keeps at least what 27 digits say.
excess-le-round : (n d : ℕ) → 1 ≤ d → 10 ^ 27 * d ≤ n → 10 ^ 27 ≤ div_half_even n d
excess-le-round n d p h =
    omega (arith, div-le-div_half_even n d, (le-div_iff_mul-le {k = d} {x = 10 ^ 27} {y = n} p).1 h)

round_to_context-large : (n : ℕ) → context_limit ≤ n → context_limit ≤ round_to_context n
unfolding round_to_context
round_to_context-large zero h = absurd (omega arith)
round_to_context-large (suc n) h =
    let d = excess (suc n) (suc n) in
    omega (
      arith,
      mul-le-mul
          (excess-le-round (suc n) d (excess_pos (suc n) (suc n))
            (excess_keeps (suc n) (suc n) (omega arith)))
          (excess_ge_ten n (suc n) h),
    )

-- `u` is `amount * rate` to the nearest cent, a half upwards, for a rate of eight places.
pub record IsHalfUp (amount rate u : ℕ) : Type 0 where
  pub lower : 2 * 10 ^ 8 * u ≤ 2 * (amount * rate) + 10 ^ 8
  pub upper : 2 * (amount * rate) + 10 ^ 8 < 2 * 10 ^ 8 * (u + 1)

-- A product beyond the context gives more cents than BIGINT holds.
large_is_unstorable :
    (n : ℕ) → context_limit ≤ n → bigint_limit ≤ (2 * round_to_context n + 10 ^ 8) / (2 * 10 ^ 8)
large_is_unstorable n h = omega (arith, round_to_context-large n h)

-- What is converted and can be stored was rounded once, half up.
convert_sound :
    (amount rate u : ℕ)
    → convert_amount_usd amount (numeric8 rate) ≡ some u
    → u < bigint_limit
    → IsHalfUp amount rate u
unfolding convert_amount_usd
convert_sound amount rate u h fits =
    ground (arith, round_to_context-small (amount * rate), large_is_unstorable (amount * rate))

convert_complete :
    (amount rate u : ℕ)
    → IsHalfUp amount rate u
    → u < bigint_limit
    → convert_amount_usd amount (numeric8 rate) ≡ some u
unfolding convert_amount_usd
convert_complete amount rate u h fits =
    let p : amount * rate < context_limit = omega arith in
    ground (arith, round_to_context-small (amount * rate) p)

-- For a rate of eight places and an amount of cents that BIGINT holds: the conversion gives this
-- amount exactly when it is the product to the nearest cent, a half upwards. The 28 digits of the
-- decimal context never change a result that can be stored.
pub convert_iff :
    (amount rate u : ℕ)
    → u < bigint_limit
    → (convert_amount_usd amount (numeric8 rate) ≡ some u) ↔ IsHalfUp amount rate u
convert_iff amount rate u fits =
    (λ h. convert_sound amount rate u h fits, λ h. convert_complete amount rate u h fits)

-- An amount in USD that can be stored converts to itself.
pub convert_usd_identity :
    (amount : ℕ) → amount < bigint_limit → convert_amount_usd amount decimal_one ≡ some amount
unfolding convert_amount_usd
convert_usd_identity amount fits = ground (arith, round_to_context-small (amount * 1))

-- More converts to no less, at the same rate and among storable results.
pub convert_mono :
    (amount amount' rate rate' u u' : ℕ)
    → amount ≤ amount'
    → rate ≤ rate'
    → convert_amount_usd amount (numeric8 rate) ≡ some u
    → convert_amount_usd amount' (numeric8 rate') ≡ some u'
    → u < bigint_limit
    → u' < bigint_limit
    → u ≤ u'
convert_mono amount amount' rate rate' u u' la lr h h' fits fits' =
    let s = convert_sound amount rate u h fits in
    let s' = convert_sound amount' rate' u' h' fits' in
    omega (arith, mul-le-mul la lr, s.lower, s'.upper)
