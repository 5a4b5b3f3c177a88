-- ===== src/Payment/Number.antt =====
-- JavaScript numbers that stand for amounts: what payment.repository.ts, payment.service.ts and
-- cancellation-refund.ts of src/modules add, subtract and compare, with the rounding to 53 bits.
-- A double is a count of steps of 2 ^ -59, in which every number between a paisa and 2 ^ 57 rupees
-- that a column, a sum or a difference of such numbers gives is whole.
use doot_backend.Base.{
  ℕ, zero, suc, ◌+◌, ◌-◌, ◌*◌, ◌/◌, ◌%◌, ◌≤◌, ◌≡◌, Bool, true, ◌&&◌, List, [], ◌∷◌, arith, ltb, leb,
  ◌==◌, if◌then◌else◌,
}

-- 2 ^ 59
abbrev one : ℕ
one = 576460752303423488

-- 2 ^ 53
abbrev mantissas : ℕ
mantissas = 9007199254740992

-- The step between the doubles of the size of the number, from `u` up.
unfoldable step_of : ℕ → ℕ → ℕ → ℕ
step_of zero u n = u
step_of (suc fuel) u n =
    let rest = step_of fuel (u * 2) n in if ltb n (u * mantissas) then u else rest

-- The quotient to the nearest whole number, and in the middle to the even one.
unfoldable nearest : ℕ → ℕ → ℕ
nearest size n =
    let q = n / size in
    let r = n % size in
    if ltb (2 * r) size then q else if ltb size (2 * r) then q + 1 else q + q % 2

-- The double nearest to a fraction.
unfoldable round_number : ℕ → ℕ → ℕ
unfolding step_of nearest
round_number n denominator =
    let u = step_of 64 1 (n / denominator) in nearest (denominator * u) n * u

unfoldable of_decimal : ℕ → ℕ → ℕ
unfolding round_number
of_decimal digits scale = round_number (digits * one) scale

-- `Number(decimal.toString())` of a column.
unfoldable pub of_paise : ℕ → ℕ
unfolding of_decimal
of_paise paise = of_decimal paise 100

unfoldable pub add : ℕ → ℕ → ℕ
unfolding round_number
add a b = round_number (a + b) 1

-- `Math.max(0, a - b)`
unfoldable pub subtract : ℕ → ℕ → ℕ
unfolding round_number
subtract a b = round_number (a - b) 1

-- The shortest decimal that reads as the number, from so many places on, in steps of 10 ^ -40.
unfoldable shortest : ℕ → ℕ → ℕ → ℕ → ℕ
unfolding nearest of_decimal
shortest zero scale weight d = nearest one (d * scale) * weight
shortest (suc fuel) scale weight d =
    let rest = shortest fuel (scale * 10) (weight / 10) d in
    let digits = nearest one (d * scale) in
    if of_decimal digits scale == d then digits * weight else rest

-- `new Decimal(number)`, which reads the number as it is printed. The library rounds a sum of decimals
-- to twenty digits; here it keeps them all.
unfoldable pub decimal : ℕ → ℕ
unfolding shortest
decimal d = shortest 38 100 100000000000000000000000000000000000000 d

-- A number that stands for an amount: the whole paise that a column keeps of it, and the number.
pub record Number : Type 0 where
  pub paise : ℕ
  pub double : ℕ

abbrev pub number_of : ℕ → Number
number_of paise = record { paise = paise; double = of_paise paise }

abbrev pub plus : Number → Number → Number
plus a b = record { paise = a.paise + b.paise; double = add a.double b.double }

abbrev pub minus : Number → Number → Number
minus a b = record { paise = a.paise - b.paise; double = subtract a.double b.double }

-- `rows.reduce((sum, row) => sum + row, 0)`
unfoldable pub add_rows {ℓ} : {A : Type ℓ} → (A → ℕ) → ℕ → List A → ℕ
add_rows w sum [] = sum
add_rows w sum (x ∷ xs) = add_rows w (add sum (of_paise (w x))) xs

-- `number >= amount`: the sums of a payment's refunds are off by less than half a paisa, so one that
-- is less by a paisa or more does not reach the amount, and else the numbers are compared.
abbrev pub reaches : Number → ℕ → Bool
reaches n amount = leb amount n.paise && leb (of_paise amount) n.double

-- `amount === number`
abbrev pub same_number : ℕ → Number → Bool
same_number amount n = amount == n.paise && of_paise amount == n.double

-- `isRefundWithinPaidAmount` of src/modules/payment/payment.money.ts: sums that exceed the amount by a
-- paisa or more do not fit, and else the decimals are compared.
unfoldable pub is_refund_within_paid_amount : ℕ → Number → Number → Bool
is_refund_within_paid_amount paid already requested =
    leb (already.paise + requested.paise) paid
    && leb (decimal already.double + decimal requested.double) (decimal (of_paise paid))

-- What is within the amount as decimals fits in whole paise.
pub is_refund_within_paid_amount-fits :
    (paid : ℕ) (already requested : Number)
    → is_refund_within_paid_amount paid already requested ≡ true
    → already.paise + requested.paise ≤ paid
unfolding is_refund_within_paid_amount
is_refund_within_paid_amount-fits paid already requested h = ground arith
