-- ===== src/Time/Order.antt =====
-- Text order of timestamps against the order of the instants that they name.
use agent_runtime_ops.Prelude.{
  ℕ, ◌+◌, ◌-◌, ◌*◌, ◌≤◌, ◌<◌, ◌≡◌, refl, ◌↔◌, Bool, true, false, List, some, String, arith, ltb,
  if◌then◌else◌, ap, Option-cases, inl, inr, [], ◌∷◌, ◌∙◌, Bool-cases,
}
use agent_runtime_ops.Text.{lex_lt, text_lt, codes}
use agent_runtime_ops.Time.{
  Stamp, epoch, stamp, in_ranges, is_real, seconds, day_number, days_in_month, days_before_year,
  Datetime, is_timestamp,
}
use agent_runtime_ops.Time.Spelling.{
  Digits, spell, fields, AreDigits, Spelled, stamp_codes-Spelled, lex_lt-two_digits,
}
use agent_runtime_ops.Time.Calendar.{year_days, days_before_month-lt, days_before_year-lt, in_year}

-- The order of dates field by field.
abbrev earlier : ℕ → ℕ → Bool → Bool
earlier a b rest = if ltb a b then true else if ltb b a then false else rest

abbrev before : Stamp → Stamp → Bool
before a b = earlier a.year b.year (
    earlier a.month b.month (
      earlier a.day b.day
        (earlier a.hour b.hour (earlier a.minute b.minute (earlier a.second b.second false)))))

-- A character that both texts have is passed over.
lex_lt-same : (c : ℕ) (l m : List ℕ) → lex_lt (c ∷ l) (c ∷ m) ≡ lex_lt l m
unfolding lex_lt
lex_lt-same c l m = ground arith

lex_lt-nil : lex_lt [] [] ≡ false
unfolding lex_lt
lex_lt-nil = refl

earlier_year : (a b : ℕ) (rest : Bool) → earlier (2000 + a) (2000 + b) rest ≡ earlier a b rest
earlier_year a b rest = ground arith

lex_lt-spell :
    (d e : Digits)
    → AreDigits d
    → AreDigits e
    → lex_lt (spell d) (spell e) ≡ before (fields d) (fields e)
lex_lt-spell d e p q = simp (
  lex_lt-same,
  lex_lt-nil,
  earlier_year,
  lex_lt-two_digits d.y3 d.y4 e.y3 e.y4 _ _ p.y3 p.y4 q.y3 q.y4,
  lex_lt-two_digits d.m1 d.m2 e.m1 e.m2 _ _ p.m1 p.m2 q.m1 q.m2,
  lex_lt-two_digits d.a1 d.a2 e.a1 e.a2 _ _ p.a1 p.a2 q.a1 q.a2,
  lex_lt-two_digits d.h1 d.h2 e.h1 e.h2 _ _ p.h1 p.h2 q.h1 q.h2,
  lex_lt-two_digits d.n1 d.n2 e.n1 e.n2 _ _ p.n1 p.n2 q.n1 q.n2,
  lex_lt-two_digits d.s1 d.s2 e.s1 e.s2 _ _ p.s1 p.s2 q.s1 q.s2,
)

record IsDate (t : Stamp) : Type 0 where
  century : 2000 ≤ t.year
  month_pos : 0 < t.month
  month_le : t.month ≤ 12
  day_pos : 0 < t.day
  day_le : t.day ≤ days_in_month t.year t.month
  hour_le : t.hour ≤ 23
  minute_le : t.minute ≤ 59
  second_le : t.second ≤ 59

number : Stamp → ℕ
number t = day_number t.year t.month t.day

number-lt_year : (a b : Stamp) → IsDate a → IsDate b → a.year < b.year → number a < number b
unfolding number day_number
number-lt_year a b p q h =
    let ya : 2000 + (a.year - 2000) ≡ a.year = omega arith in
    let yb : 2000 + (b.year - 2000) ≡ b.year = omega arith in
    let tiles : days_before_year a.year + year_days a.year ≤ days_before_year b.year =
      rw ya at (rw yb at (days_before_year-lt (a.year - 2000) (b.year - 2000) (omega arith))) in
    omega (arith, in_year a.year a.month a.day p.month_pos p.month_le p.day_le)

number-lt_month :
    (a b : Stamp) → IsDate a → IsDate b → a.year ≡ b.year → a.month < b.month → number a < number b
unfolding number day_number
number-lt_month a b p q e h =
    ground (arith, days_before_month-lt a.year a.month b.month p.month_pos h)

number-lt_day :
    (a b : Stamp)
    → IsDate a
    → a.year ≡ b.year
    → a.month ≡ b.month
    → a.day < b.day
    → number a < number b
unfolding number day_number
number-lt_day a b p e f h = ground arith

number-eq :
    (a b : Stamp) → a.year ≡ b.year → a.month ≡ b.month → a.day ≡ b.day → number a ≡ number b
unfolding number
number-eq a b e f g = cc

seconds_lem : (t : Stamp) → seconds t ≡ ((number t * 24 + t.hour) * 60 + t.minute) * 60 + t.second
unfolding seconds number
seconds_lem t = refl

seconds-lt_of_before :
    (a b : Stamp) → IsDate a → IsDate b → before a b ≡ true → seconds a < seconds b
seconds-lt_of_before a b p q h = ground (
  arith,
  seconds_lem a,
  seconds_lem b,
  number-lt_year a b p q,
  number-lt_month a b p q,
  number-lt_day a b p,
  number-eq a b,
)

seconds-le_of_not_before :
    (a b : Stamp) → IsDate a → IsDate b → before a b ≡ false → seconds b ≤ seconds a
seconds-le_of_not_before a b p q h = ground (
  arith,
  seconds_lem a,
  seconds_lem b,
  number-lt_year b a q p,
  number-lt_month b a q p,
  number-lt_day b a q,
  number-eq b a,
)

Spelled-IsDate : (l : List ℕ) (t : Stamp) → Spelled l t → is_real t ≡ true → IsDate t
unfolding in_ranges is_real
Spelled-IsDate l t s r =
    let e = ap (λ (x : Stamp). x.year) s.stamp in
    record {
      century = omega arith;
      month_pos = ground (arith, s.ranges);
      month_le = ground (arith, s.ranges);
      day_pos = ground (arith, s.ranges);
      day_le = ground arith;
      hour_le = ground (arith, s.ranges);
      minute_le = ground (arith, s.ranges);
      second_le = ground (arith, s.ranges);
    }

lex_lt-Spelled : (l m : List ℕ) (a b : Stamp) → Spelled l a → Spelled m b → lex_lt l m ≡ before a b
lex_lt-Spelled l m a b p q =
    rw (p.text, q.text, p.stamp, q.stamp) (lex_lt-spell p.digits q.digits p.are_digits q.are_digits)

-- A timestamp that the code has accepted: its fields, and the instant that it names.
record Instant (s : String) (n : ℕ) : Type 0 where
  fields : Stamp
  spelled : Spelled (codes s) fields
  is_date : IsDate fields
  instant : n ≡ epoch + seconds fields

module _ ⦃datetime : Datetime⦄ where
  timestamp-Instant :
      (s : String) (n : ℕ) → is_timestamp s ≡ true → datetime.strptime s ≡ some n → Instant s n
  unfolding is_timestamp stamp
  timestamp-Instant s n h k = elim (Option-cases (stamp s)) [
    | inl e ↦ cc
    | inr (t, e) ↦
        (let law = datetime.strptime_lem s t e in
          let sp = stamp_codes-Spelled (codes s) t e in
          record {
            fields = t;
            spelled = sp;
            is_date = Spelled-IsDate (codes s) t sp (ground arith);
            instant = ground arith;
          })
  ]

  -- The text order by which the code compares two accepted timestamps is the order of the instants
  -- that they name.
  pub text_lt-iff_earlier :
      (s t : String) (a b : ℕ)
      → is_timestamp s ≡ true
      → is_timestamp t ≡ true
      → datetime.strptime s ≡ some a
      → datetime.strptime t ≡ some b
      → (text_lt s t ≡ true) ↔ (a < b)
  unfolding text_lt
  text_lt-iff_earlier s t a b hs ht ps pt =
      let i = timestamp-Instant s a hs ps in
      let j = timestamp-Instant t b ht pt in
      let e = lex_lt-Spelled (codes s) (codes t) i.fields j.fields i.spelled j.spelled in
      (
        λ h. omega (
          arith,
          i.instant,
          j.instant,
          seconds-lt_of_before i.fields j.fields i.is_date j.is_date (ground arith),
        ),
        λ h. elim (Bool-cases (before i.fields j.fields)) [
          | inl y ↦ e ∙ y
          | inr n ↦ absurd (
              omega (
                arith,
                i.instant,
                j.instant,
                seconds-le_of_not_before i.fields j.fields i.is_date j.is_date n,
              ))
        ],
      )
