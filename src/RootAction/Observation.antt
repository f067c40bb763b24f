-- ===== src/RootAction/Observation.antt =====
-- The reserved public facts of an execution
-- (`validate_public_observation_facts` of opsctl/agent_runtime_ops/root_actions/observation.py).
use agent_runtime_ops.Prelude.{
  ℕ, ◌+◌, ◌*◌, ◌-◌, String, Bool, true, false, not, ◌&&◌, ◌||◌, List, [], ◌∷◌, ◌==◌, leb, ◌==ℕ◌,
  if◌then◌else◌,
}
use agent_runtime_ops.Prelude.Lists.{length, any, all}
use agent_runtime_ops.Text.{codes, is_digit, is_lower}
use agent_runtime_ops.RootAction.Json.{contains}

abbrev max_provider_observation_count : ℕ
max_provider_observation_count = 1_000_000

abbrev max_public_path_bytes : ℕ
max_public_path_bytes = 1024

abbrev unavailable : String
unavailable = "unavailable"

abbrev pub fact_order : List String
fact_order =
    "dispatch_started" ∷ "dispatch_completed" ∷ "provider_request_count"
    ∷ "provider_reservation_count" ∷ "preserved_snapshot_path" ∷ "staging_path" ∷ []

abbrev pub forbidden_names : List String
forbidden_names = "terminal_outcome" ∷ "terminal_status" ∷ []

-- `[A-Za-z0-9._/-]`
is_path_char : ℕ → Bool
unfolding is_digit is_lower
is_path_char c =
    is_lower c
    || (leb b'A' c && leb c b'Z')
    || is_digit c
    || c ==ℕ b'.'
    || c ==ℕ b'_'
    || c ==ℕ b'/'
    || c ==ℕ b'-'

-- The components between slashes; `part` collects the current one, backwards.
no_dots : List ℕ → Bool
no_dots [] = false
no_dots (c ∷ []) = not (c ==ℕ b'.')
no_dots (c ∷ d ∷ []) = not (c ==ℕ b'.' && d ==ℕ b'.')
no_dots _ = true

parts_ok : List ℕ → List ℕ → Bool
unfolding no_dots
parts_ok part [] = no_dots part
parts_ok part (c ∷ cs) =
    let later = parts_ok [] cs in
    let on = parts_ok (c ∷ part) cs in if c ==ℕ b'/' then no_dots part && later else on

-- Of the text behind the first slash: `PurePosixPath` keeps a second leading slash, folds three or
-- more into one, and drops empty and `.` components, so what it leaves unchanged has none of them.
canonical_rest : List ℕ → Bool
unfolding parts_ok
canonical_rest [] = false
canonical_rest (c ∷ []) = c ==ℕ b'/' || parts_ok [] (c ∷ [])
canonical_rest (c ∷ cs) = if c ==ℕ b'/' then parts_ok [] cs else parts_ok [] (c ∷ cs)

public_path_codes : List ℕ → Bool
unfolding is_path_char canonical_rest all
public_path_codes [] = false
public_path_codes (c ∷ cs) =
    leb (length (c ∷ cs)) max_public_path_bytes
    && c ==ℕ b'/'
    && all is_path_char cs
    && canonical_rest cs

-- `_canonical_public_path` accepts the value.
unfoldable pub canonical_public_path : String → Bool
unfolding public_path_codes codes
canonical_public_path value = public_path_codes (codes value)

-- `0|[1-9][0-9]{0,6}`, and the number
digits_value : ℕ → List ℕ → ℕ
digits_value n [] = n
digits_value n (c ∷ cs) = digits_value (n * 10 + (c - b'0')) cs

count_codes : List ℕ → Bool
unfolding digits_value is_digit all
count_codes [] = false
count_codes (c ∷ cs) =
    (c ==ℕ b'0' && length cs ==ℕ 0
      || is_digit c && not (c ==ℕ b'0') && leb (length cs) 6 && all is_digit cs)
    && leb (digits_value 0 (c ∷ cs)) max_provider_observation_count

unfoldable pub public_count : String → Bool
unfolding count_codes codes
public_count value = count_codes (codes value)

names_equal : List String → List String → Bool
names_equal [] [] = true
names_equal (x ∷ xs) (y ∷ ys) = x == y && names_equal xs ys
names_equal _ _ = false

-- The names that occur among the reserved ones, in their order.
observed_names : List (String × String) → List String
unfolding contains
observed_names [] = []
observed_names ((name, value) ∷ facts) =
    let rest = observed_names facts in if contains name fact_order then name ∷ rest else rest

-- `dict(facts)[name]`: the last value given; the facts are known to hold the name.
fact_value : String → String → List (String × String) → String
fact_value name found [] = found
fact_value name found ((n, v) ∷ facts) = fact_value name (if n == name then v else found) facts

observation_values_ok : List (String × String) → Bool
unfolding fact_value canonical_public_path public_count contains
observation_values_ok facts =
    let started = fact_value "dispatch_started" "" facts in
    let completed = fact_value "dispatch_completed" "" facts in
    let booleans = "true" ∷ "false" ∷ unavailable ∷ [] in
    let count_ok =
      λ (name : String). let v = fact_value name "" facts in v == unavailable || public_count v in
    let path_ok = λ (name : String).
      let v = fact_value name "" facts in v == unavailable || canonical_public_path v in
    contains started booleans
    && contains completed booleans
    && (not (completed == "true") || started == "true")
    && count_ok "provider_request_count"
    && count_ok "provider_reservation_count"
    && path_ok "preserved_snapshot_path"
    && path_ok "staging_path"

-- `validate_public_observation_facts` raises nothing.
unfoldable pub observation_facts_ok : List (String × String) → Bool
unfolding names_equal observed_names observation_values_ok any contains
observation_facts_ok facts =
    not (any (λ fact. contains fact.0 forbidden_names) facts)
    && (length (observed_names facts) ==ℕ 0
        || names_equal (observed_names facts) fact_order && observation_values_ok facts)
