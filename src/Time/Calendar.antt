-- ===== src/Time/Calendar.antt =====
-- The calendar arithmetic: months and years tile the days, so later dates have larger numbers.
use agent_runtime_ops.Prelude.{ℕ, zero, suc, ◌+◌, ◌≤◌, ◌<◌, ◌≡◌, arith, ap}
use native.Mathlib.Decide.{dec_lt}
use agent_runtime_ops.Time.{is_leap, days_in_month, days_before_year, days_before_month}

-- The last month has 31 days.
abbrev pub year_days : ℕ → ℕ
year_days y = days_before_month y 12 + 31

days_in_month-le : (y m : ℕ) → days_in_month y m ≤ 31
unfolding days_in_month
days_in_month-le y m = ground arith

-- An earlier month ends before a later one begins.
pub days_before_month-lt :
    (y m n : ℕ) → 0 < m → m < n → days_before_month y m + days_in_month y m ≤ days_before_month y n
unfolding days_before_month
days_before_month-lt y m zero p h = elim h [ ]
days_before_month-lt y m (suc zero) p h = absurd (omega arith)
days_before_month-lt y m (suc (suc n)) p h = elim (dec_lt m (suc n)) [
  | yes q ↦ omega (arith, days_before_month-lt y m (suc n) p q)
  | no q ↦ (let e : m ≡ suc n = omega arith in rw e (omega arith))
]

days_before_year-suc :
    (n : ℕ) → days_before_year (2000 + suc n) ≡ days_before_year (2000 + n) + year_days (2000 + n)
unfolding days_before_year days_before_month days_in_month is_leap
days_before_year-suc n = ground arith

-- An earlier year ends before a later one begins.
pub days_before_year-lt :
    (n m : ℕ)
    → n < m
    → days_before_year (2000 + n) + year_days (2000 + n) ≤ days_before_year (2000 + m)
days_before_year-lt n zero h = elim h [ ]
days_before_year-lt n (suc m) h = elim (dec_lt n m) [
  | yes q ↦ omega (arith, days_before_year-suc m, days_before_year-lt n m q)
  | no q ↦ (let e : n ≡ m = omega arith in rw e (omega (arith, days_before_year-suc m)))
]

-- A date of the calendar lies within its year.
pub in_year :
    (y m d : ℕ) → 0 < m → m ≤ 12 → d ≤ days_in_month y m → days_before_month y m + d ≤ year_days y
in_year y m d p q h = elim (dec_lt m 12) [
  | yes l ↦ omega (arith, days_before_month-lt y m 12 p l)
  | no l ↦
      (let e : m ≡ 12 = omega arith in
        rw e (omega (arith, days_in_month-le y m, ap (λ k. days_in_month y k) e)))
]
