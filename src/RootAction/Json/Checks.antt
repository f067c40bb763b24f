-- ===== src/RootAction/Json/Checks.antt =====
-- The checks of one JSON value that contracts.py and receipts.py of
-- opsctl/agent_runtime_ops/root_actions/ both define, over the exception that they raise.
use agent_runtime_ops.Prelude.{
  ℕ, String, not, ◌&&◌, List, ◌==◌, leb, is_some, Error, Result, ok, err, ◌>>=◌, ◌>>◌, guard,
}
use agent_runtime_ops.Prelude.Lists.{any}
use agent_runtime_ops.Text.{codes, safe_id, is_digest}
use agent_runtime_ops.Time.{Datetime, is_timestamp}
use agent_runtime_ops.RootAction.Json.{Json, str, obj, Members, Library, keys, same_set, utf8_len}

module _ (e : Error) where
  -- An object with exactly the expected fields.
  unfoldable pub exact_keys : Json → List String → Result Members
  unfolding same_set keys
  exact_keys (obj ms) expected = do guard (same_set (keys ms) expected) e; ok ms
  exact_keys _ expected = err e

  unfoldable pub digest_value : Json → Result String
  digest_value (str s) = do guard (is_digest s) e; ok s
  digest_value _ = err e

  module _ ⦃library : Library⦄ where
    -- A non-empty string of at most so many bytes, in NFC and with no control character.
    unfoldable pub text_value : ℕ → Json → Result String
    unfolding any codes utf8_len
    text_value maximum (str s) = do
      guard (not (s == "") && leb (utf8_len s) maximum) e
      guard (library.is_nfc s) e
      guard (not (any library.is_control (codes s))) e
      ok s
    text_value maximum _ = err e

    unfoldable pub id_value : Json → Result String
    id_value v = do s ← text_value 128 v; guard (safe_id s) e; ok s

    unfoldable pub timestamp_value : ⦃datetime : Datetime⦄ → Json → Result String
    timestamp_value ⦃datetime⦄ v = do
      s ← text_value 20 v
      guard (is_timestamp s) e
      guard (is_some (datetime.strptime s)) e
      ok s
