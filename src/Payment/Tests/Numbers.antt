-- ===== src/Payment/Tests/Numbers.antt =====
-- The rounding of JavaScript numbers, at amounts where it shows.
use doot_backend.Base.{◌≡◌, refl, true, false}
use doot_backend.Payment.Number.{
  of_paise, add, subtract, decimal, number_of, plus, reaches, is_refund_within_paid_amount,
}

-- 86.87 + 138.11 is 224.98000000000002.
sum_prints :
    decimal (add (of_paise 8687) (of_paise 13811)) ≡ 2249800000000000200000000000000000000000000
unfolding decimal add of_paise
sum_prints = refl

-- 650.37 - 498.71 is 151.66000000000003.
difference_prints :
    decimal (subtract (of_paise 65037) (of_paise 49871))
    ≡ 1516600000000000300000000000000000000000000
unfolding decimal subtract of_paise
difference_prints = refl

-- Of 407.31, with 86.87 and 138.11 reserved, the last 182.33 are refused.
rest_is_refused :
    is_refund_within_paid_amount 40731 (plus (number_of 8687) (number_of 13811)) (number_of 18233)
    ≡ false
unfolding is_refund_within_paid_amount decimal add of_paise
rest_is_refused = refl

rest_is_accepted :
    is_refund_within_paid_amount 32450 (plus (number_of 450) (number_of 2000)) (number_of 30000)
    ≡ true
unfolding is_refund_within_paid_amount decimal add of_paise
rest_is_accepted = refl

-- 110.10 + 220.20 is 330.29999999999995.
sum_falls_short : reaches (plus (number_of 11010) (number_of 22020)) 33030 ≡ false
unfolding add of_paise
sum_falls_short = refl
