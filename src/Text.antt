-- ===== src/Text.antt =====
-- The identifier, digest and timestamp formats that the root-action modules check by regular
-- expressions (opsctl/agent_runtime_ops/root_actions/state.py, contracts.py, receipts.py).
use Prim.Native.Char.{code}
use agent_runtime_ops.Prelude.{
  ℕ, String, Bool, true, false, ◌&&◌, ◌||◌, List, [], ◌∷◌, ltb, leb, ◌==ℕ◌, if◌then◌else◌,
}
use agent_runtime_ops.Prelude.Lists.{length, all}

-- The code points of a text. `String` has its own `[]` and `∷`.
unfoldable pub codes : String → List ℕ
codes String.[] = []
codes (String.◌∷◌ c s) = code c ∷ codes s

unfoldable pub is_digit : ℕ → Bool
is_digit c = leb b'0' c && leb c b'9'

unfoldable pub is_lower : ℕ → Bool
is_lower c = leb b'a' c && leb c b'z'

-- `[a-z0-9._:-]`
is_id_char : ℕ → Bool
unfolding is_digit is_lower
is_id_char c = is_lower c || is_digit c || c ==ℕ b'.' || c ==ℕ b'_' || c ==ℕ b':' || c ==ℕ b'-'

-- `[a-z0-9][a-z0-9._:-]{0,127}`
safe_id_codes : List ℕ → Bool
unfolding is_id_char all
safe_id_codes [] = false
safe_id_codes (c ∷ cs) = (is_lower c || is_digit c) && leb (length cs) 127 && all is_id_char cs

unfoldable pub safe_id : String → Bool
unfolding safe_id_codes codes
safe_id s = safe_id_codes (codes s)

-- `[0-9a-f]`
unfoldable pub is_hex : ℕ → Bool
unfolding is_digit
is_hex c = is_digit c || (leb b'a' c && leb c b'f')

-- `sha256:[0-9a-f]{64}`
digest_codes : List ℕ → Bool
unfolding is_hex all
digest_codes (c0 ∷ c1 ∷ c2 ∷ c3 ∷ c4 ∷ c5 ∷ c6 ∷ hex) =
    c0 ==ℕ b's'
    && c1 ==ℕ b'h'
    && c2 ==ℕ b'a'
    && c3 ==ℕ b'2'
    && c4 ==ℕ b'5'
    && c5 ==ℕ b'6'
    && c6 ==ℕ b':'
    && length hex ==ℕ 64
    && all is_hex hex
digest_codes _ = false

unfoldable pub is_digest : String → Bool
unfolding digest_codes codes
is_digest s = digest_codes (codes s)

-- Python's `<` on `str`: by code points, a proper prefix first.
unfoldable pub lex_lt : List ℕ → List ℕ → Bool
lex_lt [] [] = false
lex_lt [] (y ∷ ys) = true
lex_lt (x ∷ xs) [] = false
lex_lt (x ∷ xs) (y ∷ ys) = if ltb x y then true else if ltb y x then false else lex_lt xs ys

unfoldable pub text_lt : String → String → Bool
unfolding lex_lt codes
text_lt s t = lex_lt (codes s) (codes t)
