-- ===== src/RootAction/Json.antt =====
-- JSON values as Python's `json` module reads them, and what the root-action modules use of the
-- standard library: `json`, `hashlib`, `unicodedata` (the parameters), sets and dictionaries.
pub mod Checks
use agent_runtime_ops.Prelude.{
  ℕ, ◌+◌, ◌≡◌, String, Bool, true, false, not, ◌&&◌, ◌||◌, List, [], ◌∷◌, Option, none, some, ◌==◌,
  ltb, if◌then◌else◌, Result, ok, err, key_error, type_error,
}
use agent_runtime_ops.Prelude.Lists.{any, all}
use agent_runtime_ops.Prelude.Int.{ℤ}
use agent_runtime_ops.Text.{codes, is_digest}
use agent_runtime_ops.RootAction.Job.{Bytes}

-- `real` holds the text of a number that is no integer. An object keeps its members in the order
-- of the text.
mutual
  pub data Json : Type 0 where
    null : Json
    bool : Bool → Json
    int : ℤ → Json
    real : String → Json
    str : String → Json
    arr : Items → Json
    obj : Members → Json

  pub data Items : Type 0 where
    nil : Items
    cons : Json → Items → Items

  pub data Members : Type 0 where
    end : Members
    member : String → Json → Members → Members

pub record Library : Type 0 where
  -- `json.loads(raw.decode("utf-8"))`: `none` for bytes that are not UTF-8 or not JSON
  pub loads : Bytes → Option Json
  -- `json.dumps(value, ensure_ascii=False, sort_keys=True, separators=(",", ":")).encode("utf-8")`
  pub dumps : Json → Bytes
  -- `json.dumps(value, ensure_ascii=False).encode("utf-8")`
  pub dumps_plain : Json → Bytes
  -- `"sha256:" + hashlib.sha256(data).hexdigest()`
  pub sha256 : Bytes → String
  -- `hashlib.sha256(data).digest()`
  pub digest : Bytes → Bytes
  -- `unicodedata.normalize("NFC", value) == value`
  pub is_nfc : String → Bool
  -- `unicodedata.category(character)` begins with C, or is Zl or Zp
  pub is_control : ℕ → Bool
  -- whether a number that is no integer equals 0
  pub real_is_zero : String → Bool
  -- a SHA-256 digest has 64 lower-case hexadecimal digits
  pub sha256_format : (data_bytes : Bytes) → is_digest (sha256 data_bytes) ≡ true

-- `x in xs`
unfoldable pub contains : String → List String → Bool
contains x [] = false
contains x (y ∷ ys) = y == x || contains x ys

-- `set(xs) == set(ys)`
unfoldable pub same_set : List String → List String → Bool
unfolding contains all
same_set xs ys = all (λ x. contains x ys) xs && all (λ y. contains y xs) ys

-- `len(set(xs)) == len(xs)`
unfoldable pub distinct : List String → Bool
unfolding contains
distinct [] = true
distinct (x ∷ xs) = not (contains x xs) && distinct xs

unfoldable pub keys : Members → List String
keys end = []
keys (member k v ms) = k ∷ keys ms

unfoldable pub elements : Items → List Json
elements nil = []
elements (cons v vs) = v ∷ elements vs

-- `value[key]`
unfoldable pub get_item : String → Members → Result Json
get_item k end = err key_error
get_item k (member j v ms) = if j == k then ok v else get_item k ms

-- `value.get(key)`, where JSON's null is `None` too
unfoldable pub get : String → Members → Json
get k end = null
get k (member j v ms) = if j == k then v else get k ms

-- What `_unique_object` of contracts.py and receipts.py lets pass: no object, at any depth, names a
-- key twice.
unfoldable mutual
  unfolding contains keys

  pub unique_keys : Json → Bool
  unique_keys (arr vs) = unique_items vs
  unique_keys (obj ms) = unique_members ms
  unique_keys _ = true

  pub unique_items : Items → Bool
  unique_items nil = true
  unique_items (cons v vs) = unique_keys v && unique_items vs

  pub unique_members : Members → Bool
  unique_members end = true
  unique_members (member k v ms) = not (contains k (keys ms)) && unique_keys v && unique_members ms

-- `value == text` for a JSON value.
abbrev pub is_text : String → Json → Bool
is_text s (str t) = t == s
is_text s _ = false

-- `value in texts` for a set of texts: a list or an object has no hash, which is a `TypeError`.
unfoldable pub in_set : Json → List String → Result Bool
unfolding contains
in_set (str s) xs = ok (contains s xs)
in_set (arr vs) xs = err type_error
in_set (obj ms) xs = err type_error
in_set _ xs = ok false

-- The length of the UTF-8 encoding.
unfoldable pub utf8_codes : List ℕ → ℕ
utf8_codes [] = 0
utf8_codes (c ∷ cs) =
    (if ltb c 128 then 1 else if ltb c 2048 then 2 else if ltb c 65536 then 3 else 4)
    + utf8_codes cs

unfoldable pub utf8_len : String → ℕ
unfolding utf8_codes codes
utf8_len s = utf8_codes (codes s)
