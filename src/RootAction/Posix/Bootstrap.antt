-- ===== src/RootAction/Posix/Bootstrap.antt =====
-- `create_auth_bootstrap` of posix_store.py: the session in which the first credentials are
-- registered.
use agent_runtime_ops.Prelude.{
  Bool, true, false, not, ◌&&◌, ◌||◌, List, [], ◌∷◌, ◌++◌, ◌==◌, err, guard, raise_if,
  storage_conflict,
}
use agent_runtime_ops.Prelude.Actions.{◌>>◌, lift, writes, pure}
use agent_runtime_ops.Prelude.Lists.{any}
use agent_runtime_ops.RootAction.Authorization.{
  BootstrapSession, expired, PendingCeremony, is_issued, is_consumed,
}
use agent_runtime_ops.RootAction.Posix.{
  CredentialRow, Database, Tx, update_rows, execute_insert, transaction,
}

-- `bootstrap_id TEXT PRIMARY KEY, token_digest TEXT NOT NULL UNIQUE`
abbrev pub bootstrap_taken : BootstrapSession → Database → Bool
bootstrap_taken session db =
    any
      (λ (row : BootstrapSession).
        row.bootstrap_id == session.bootstrap_id || row.token_digest == session.token_digest)
      db.auth_bootstrap

abbrev pub with_bootstrap : BootstrapSession → Database → Database
with_bootstrap session db = record db { auth_bootstrap = db.auth_bootstrap ++ session ∷ [] }

abbrev pub is_empty : {R : Type 0} → List R → Bool
is_empty [] = true
is_empty (row ∷ rows) = false

-- `WHERE bootstrap_id=? AND state IN ('issued', 'expired')`
abbrev pub can_expire : BootstrapSession → BootstrapSession → Bool
can_expire existing row = row.bootstrap_id == existing.bootstrap_id && not (is_consumed row.state)

abbrev pub expire_bootstrap : BootstrapSession → Database → Database
expire_bootstrap existing db = record db {
  auth_bootstrap =
      update_rows (can_expire existing) (λ row. record row { state = expired }) db.auth_bootstrap;
}

-- An existing session: the only one, unused, is replaced once more if nothing was begun with it.
unfoldable pub replace_existing :
    List BootstrapSession → List CredentialRow → List PendingCeremony → Tx (Unit {0})
replace_existing [] credentials ceremonies = pure tt
replace_existing (existing ∷ []) credentials ceremonies = do
  lift (
      raise_if
        (not (is_empty credentials) || not (is_empty ceremonies) || is_consumed existing.state)
        storage_conflict)
  writes (expire_bootstrap existing)
replace_existing (_ ∷ _ ∷ _) credentials ceremonies = lift (err storage_conflict)

unfoldable pub expire_existing : Tx (Unit {0})
expire_existing db = replace_existing db.auth_bootstrap db.auth_credentials db.auth_ceremonies db

unfoldable pub create_auth_bootstrap : BootstrapSession → Tx (Unit {0})
create_auth_bootstrap session = do
  lift (guard (is_issued session.state) storage_conflict)
  transaction do expire_existing; execute_insert (bootstrap_taken session) (with_bootstrap session)
