-- ===== src/Time.antt =====
-- UTC second timestamps: the regular expression `_TIMESTAMP_RE` that state.py, contracts.py and
-- receipts.py of opsctl/agent_runtime_ops/root_actions/ share, the fields of a matching text, and
-- what `datetime.strptime(text, "%Y-%m-%dT%H:%M:%SZ")` returns for it.
pub mod Spelling
pub mod Calendar
pub mod Order
use agent_runtime_ops.Prelude.{
  ℕ, zero, suc, ◌-◌, ◌+◌, ◌*◌, ◌/◌, ◌%◌, ◌≡◌, String, Bool, true, false, not, ◌&&◌, ◌||◌, List, [],
  ◌∷◌, Option, none, some, leb, ◌==ℕ◌, if◌then◌else◌, is_some,
}
use agent_runtime_ops.Text.{codes, is_digit}

pub record Stamp : Type 0 where
  pub year : ℕ
  pub month : ℕ
  pub day : ℕ
  pub hour : ℕ
  pub minute : ℕ
  pub second : ℕ

-- The value of two decimal digits.
abbrev pub two_digits : ℕ → ℕ → ℕ
two_digits a b = (a - b'0') * 10 + (b - b'0')

-- The ranges of the expression: a year of this century, months 01 to 12, days 01 to 31, hours to
-- 23, minutes and seconds to 59.
unfoldable pub in_ranges : Stamp → Bool
in_ranges t =
    (leb 1 t.month && leb t.month 12)
    && (leb 1 t.day && leb t.day 31)
    && leb t.hour 23
    && leb t.minute 59
    && leb t.second 59

-- The fields of a text of the expression's shape, `20YY-MM-DDThh:mm:ssZ`.
unfoldable pub stamp_codes : List ℕ → Option Stamp
stamp_codes
      (y1 ∷ y2 ∷ y3 ∷ y4 ∷ d1 ∷ m1 ∷ m2 ∷ d2 ∷ a1 ∷ a2 ∷ t1 ∷ h1 ∷ h2 ∷ c1 ∷ n1 ∷ n2 ∷ c2 ∷ s1 ∷ s2
        ∷ z ∷ []) =
    let t : Stamp = record {
      year = 2000 + two_digits y3 y4;
      month = two_digits m1 m2;
      day = two_digits a1 a2;
      hour = two_digits h1 h2;
      minute = two_digits n1 n2;
      second = two_digits s1 s2;
    } in
    let marks =
      y1 ==ℕ b'2'
      && y2 ==ℕ b'0'
      && d1 ==ℕ b'-'
      && d2 ==ℕ b'-'
      && t1 ==ℕ b'T'
      && c1 ==ℕ b':'
      && c2 ==ℕ b':'
      && z ==ℕ b'Z' in
    let digits =
      (is_digit y3 && is_digit y4)
      && (is_digit m1 && is_digit m2)
      && (is_digit a1 && is_digit a2)
      && (is_digit h1 && is_digit h2)
      && (is_digit n1 && is_digit n2)
      && (is_digit s1 && is_digit s2) in
    if marks && digits && in_ranges t then some t else none
stamp_codes _ = none

unfoldable pub stamp : String → Option Stamp
unfolding stamp_codes codes
stamp s = stamp_codes (codes s)

-- `_TIMESTAMP_RE.fullmatch(text) is not None`
unfoldable pub is_timestamp : String → Bool
is_timestamp s = is_some (stamp s)

-- The proleptic Gregorian calendar of `datetime`.
unfoldable pub is_leap : ℕ → Bool
is_leap y = y % 4 ==ℕ 0 && (not (y % 100 ==ℕ 0) || y % 400 ==ℕ 0)

unfoldable pub days_in_month : ℕ → ℕ → ℕ
unfolding is_leap
days_in_month y m =
    if m ==ℕ 2
    then (if is_leap y then 29 else 28)
    else if m ==ℕ 4 || m ==ℕ 6 || m ==ℕ 9 || m ==ℕ 11
    then 30
    else 31

-- Days before the year `y`, counted from the year 2000 on.
unfoldable pub days_before_year : ℕ → ℕ
days_before_year y = let n = y - 2000 in n * 365 + (n + 3) / 4 - (n + 99) / 100 + (n + 399) / 400

unfoldable pub days_before_month : ℕ → ℕ → ℕ
unfolding days_in_month
days_before_month y zero = 0
days_before_month y (suc zero) = 0
days_before_month y (suc (suc m)) = days_before_month y (suc m) + days_in_month y (suc m)

-- Days since the start of the year 2000.
unfoldable pub day_number : ℕ → ℕ → ℕ → ℕ
day_number y m d = days_before_year y + days_before_month y m + d - 1

-- Seconds since the start of the year 2000.
unfoldable pub seconds : Stamp → ℕ
seconds t = ((day_number t.year t.month t.day * 24 + t.hour) * 60 + t.minute) * 60 + t.second

-- A date that the calendar has.
unfoldable pub is_real : Stamp → Bool
unfolding days_in_month
is_real t = leb t.day (days_in_month t.year t.month)

-- Seconds from the start of the year 1, the first of `datetime`, to that of the year 2000.
abbrev pub epoch : ℕ
epoch = 730_119 * 86_400

-- `datetime.strptime` with the format `%Y-%m-%dT%H:%M:%SZ`, as the instant in seconds since the
-- start of the year 1, `none` for a `ValueError`. It accepts more spellings than the expression
-- does; of those that match the expression it accepts the real dates. `strftime` writes the instant
-- with the same format; nothing is assumed of it.
pub record Datetime : Type 0 where
  pub strptime : String → Option ℕ
  pub strftime : ℕ → String
  pub strptime_lem :
      (s : String) (t : Stamp)
      → stamp s ≡ some t
      → strptime s ≡ (if is_real t then some (epoch + seconds t) else none)
