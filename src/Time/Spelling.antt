-- ===== src/Time/Spelling.antt =====
-- The digits of a timestamp: a text of the expression's shape is the spelling of its fields.
use agent_runtime_ops.Prelude.{
  ℕ, ◌+◌, ◌≤◌, ◌≡◌, true, false, List, [], ◌∷◌, some, arith, ltb, if◌then◌else◌,
}
use agent_runtime_ops.Text.{is_digit, lex_lt}
use agent_runtime_ops.Time.{Stamp, two_digits, stamp_codes, in_ranges}

-- The twelve digits that vary.
pub record Digits : Type 0 where
  pub y3 : ℕ
  pub y4 : ℕ
  pub m1 : ℕ
  pub m2 : ℕ
  pub a1 : ℕ
  pub a2 : ℕ
  pub h1 : ℕ
  pub h2 : ℕ
  pub n1 : ℕ
  pub n2 : ℕ
  pub s1 : ℕ
  pub s2 : ℕ

abbrev pub spell : Digits → List ℕ
spell d =
    b'2' ∷ b'0' ∷ d.y3 ∷ d.y4 ∷ b'-' ∷ d.m1 ∷ d.m2 ∷ b'-' ∷ d.a1 ∷ d.a2 ∷ b'T' ∷ d.h1 ∷ d.h2 ∷ b':'
    ∷ d.n1 ∷ d.n2 ∷ b':' ∷ d.s1 ∷ d.s2 ∷ b'Z' ∷ []

abbrev pub fields : Digits → Stamp
fields d = record {
  year = 2000 + two_digits d.y3 d.y4;
  month = two_digits d.m1 d.m2;
  day = two_digits d.a1 d.a2;
  hour = two_digits d.h1 d.h2;
  minute = two_digits d.n1 d.n2;
  second = two_digits d.s1 d.s2;
}

abbrev pub IsDigit : ℕ → Type 0
IsDigit c = (48 ≤ c) × (c ≤ 57)

pub record AreDigits (d : Digits) : Type 0 where
  pub y3 : IsDigit d.y3
  pub y4 : IsDigit d.y4
  pub m1 : IsDigit d.m1
  pub m2 : IsDigit d.m2
  pub a1 : IsDigit d.a1
  pub a2 : IsDigit d.a2
  pub h1 : IsDigit d.h1
  pub h2 : IsDigit d.h2
  pub n1 : IsDigit d.n1
  pub n2 : IsDigit d.n2
  pub s1 : IsDigit d.s1
  pub s2 : IsDigit d.s2

-- A text of the shape is the spelling of twelve digits, and its fields are theirs.
pub record Spelled (l : List ℕ) (t : Stamp) : Type 0 where
  pub digits : Digits
  pub are_digits : AreDigits digits
  pub text : l ≡ spell digits
  pub stamp : t ≡ fields digits
  pub ranges : in_ranges t ≡ true

is_digit-IsDigit : (c : ℕ) → is_digit c ≡ true → IsDigit c
unfolding is_digit
is_digit-IsDigit c h = ground arith

pub stamp_codes-Spelled : (l : List ℕ) (t : Stamp) → stamp_codes l ≡ some t → Spelled l t
unfolding stamp_codes
stamp_codes-Spelled
      (y1 ∷ y2 ∷ y3 ∷ y4 ∷ d1 ∷ m1 ∷ m2 ∷ d2 ∷ a1 ∷ a2 ∷ t1 ∷ h1 ∷ h2 ∷ c1 ∷ n1 ∷ n2 ∷ c2 ∷ s1 ∷ s2
        ∷ z ∷ [])
      t h =
    record {
      digits = record {
        y3 = y3;
        y4 = y4;
        m1 = m1;
        m2 = m2;
        a1 = a1;
        a2 = a2;
        h1 = h1;
        h2 = h2;
        n1 = n1;
        n2 = n2;
        s1 = s1;
        s2 = s2;
      };
      are_digits = record {
        y3 = is_digit-IsDigit y3 (ground arith);
        y4 = is_digit-IsDigit y4 (ground arith);
        m1 = is_digit-IsDigit m1 (ground arith);
        m2 = is_digit-IsDigit m2 (ground arith);
        a1 = is_digit-IsDigit a1 (ground arith);
        a2 = is_digit-IsDigit a2 (ground arith);
        h1 = is_digit-IsDigit h1 (ground arith);
        h2 = is_digit-IsDigit h2 (ground arith);
        n1 = is_digit-IsDigit n1 (ground arith);
        n2 = is_digit-IsDigit n2 (ground arith);
        s1 = is_digit-IsDigit s1 (ground arith);
        s2 = is_digit-IsDigit s2 (ground arith);
      };
      text = ground arith;
      stamp = ground arith;
      ranges = ground arith;
    }
stamp_codes-Spelled _ t h = cc

-- Two digits are compared as the number that they spell.
pub lex_lt-two_digits :
    (a b c d : ℕ) (l m : List ℕ)
    → IsDigit a
    → IsDigit b
    → IsDigit c
    → IsDigit d
    → lex_lt (a ∷ b ∷ l) (c ∷ d ∷ m) ≡ (
        if ltb (two_digits a b) (two_digits c d)
        then true
        else if ltb (two_digits c d) (two_digits a b)
        then false
        else lex_lt l m)
unfolding lex_lt
lex_lt-two_digits a b c d l m p q r s = ground arith
