-- ===== src/RootAction/Posix/Steps.antt =====
-- From what an insert or update does to the rows to what the actions of posix_store.py ensure.
use agent_runtime_ops.Prelude.{
  ℕ, ◌≡◌, refl, sym, ap, ◌∙◌, String, Bool, true, false, Option, none, some, List, [], ◌∷◌, Result,
  ok, arith,
}
use mathlib.Core.Path.{subst}
use agent_runtime_ops.Prelude.Actions.{
  ◌>>=◌, lift, writes, Ensures, from_action, chain-Ensures, reads-Ensures, lift-Ensures,
  pure-Ensures,
}
use agent_runtime_ops.Time.{Datetime}
use agent_runtime_ops.RootAction.Json.{Library}
use agent_runtime_ops.RootAction.Receipts.{ReceiptArtifact}
use agent_runtime_ops.RootAction.State.{JobRecord, TransitionEvent}
use agent_runtime_ops.RootAction.Authorization.{
  BootstrapSession, RegisteredCredential, PendingCeremony,
}
use agent_runtime_ops.RootAction.Posix.{
  Database, CredentialRow, ReceiptRow, Tx, execute_insert, insert_row, update_rows,
}
use agent_runtime_ops.RootAction.Posix.Inserts.{
  record_taken, with_record, entry_taken, with_initial_entry, insert_record_and_initial_ledger,
  with_transition, insert_ledger,
}
use agent_runtime_ops.RootAction.Posix.Transitions.{
  update_one, same_revision, moved_row, update_record, compare_and_append,
}
use agent_runtime_ops.RootAction.Posix.Publication.{
  with_receipt, current_taken, with_current, moved_current, point_to, insert_receipt,
}
use agent_runtime_ops.RootAction.Posix.Bootstrap.{
  with_bootstrap, expire_bootstrap, replace_existing, expire_existing, create_auth_bootstrap,
}
use agent_runtime_ops.RootAction.Posix.Registration.{
  with_credential, insert_credential, consume_ceremony, same_counter, counted_down, count_down,
  complete_registration,
}
use agent_runtime_ops.RootAction.Posix.Statements.{transaction-Ensures}

insert_row-returns :
    (v : Bool) (w : Database → Database) (s s' : Database) (a : Unit {0})
    → insert_row v w s ≡ (ok a, s')
    → (v ≡ false) × (w s ≡ s')
insert_row-returns true w s s' a h = cc
insert_row-returns false w s s' a h = (refl, ap (λ (x : Result (Unit {0}) × Database). x.1) h)

-- An insert that returns has broken no key and no reference, and has added its row.
pub execute_insert-returns :
    (v : Database → Bool) (w : Database → Database) (s s' : Database) (a : Unit {0})
    → execute_insert v w s ≡ (ok a, s')
    → (v s ≡ false) × (w s ≡ s')
unfolding execute_insert
execute_insert-returns v w s s' a h = insert_row-returns (v s) w s s' a h

-- An update that returns has changed one row.
pub update_one-returns :
    (n : ℕ) (w : Database → Database) (s s' : Database) (a : Unit {0})
    → update_one n w s ≡ (ok a, s')
    → (n ≡ 1) × (w s ≡ s')
unfolding ◌>>=◌ writes lift
update_one-returns n w s s' a h = (
  ground (arith, ap (λ (x : Result (Unit {0}) × Database). x.0) h),
  ap (λ (x : Result (Unit {0}) × Database). x.1) h,
)

module _ {ℓ} {B : Type 0} {C : Type ℓ} where
  pub from_insert :
      (v : Database → Bool) (w : Database → Database) (k : Unit {0} → Tx B) (s s' : Database)
      (b : B)
      → (execute_insert v w >>= k) s ≡ (ok b, s')
      → (v s ≡ false → k tt (w s) ≡ (ok b, s') → C)
      → C
  from_insert v w k s s' b h go = from_action (execute_insert v w) k s s' b h λ a mid p q.
      let (f, e) = execute_insert-returns v w s mid a p in
      go f (subst (λ at. k tt at ≡ (ok b, s')) (sym e) q)

  -- An update is a function of the database that it counts the rows of.
  pub from_update :
      (m : Tx (Unit {0})) (n : ℕ) (w : Database → Database) (k : Unit {0} → Tx B) (s s' : Database)
      (b : B)
      → m s ≡ update_one n w s
      → (m >>= k) s ≡ (ok b, s')
      → (n ≡ 1 → k tt (w s) ≡ (ok b, s') → C)
      → C
  from_update m n w k s s' b is_update h go = from_action m k s s' b h λ a mid p q.
      let (f, e) = update_one-returns n w s mid a (sym is_update ∙ p) in
      go f (subst (λ at. k tt at ≡ (ok b, s')) (sym e) q)

module _ {R : Database → Database → Type 0} where
  pub insert-Ensures :
      (v : Database → Bool) (w : Database → Database)
      → ((db : Database) → v db ≡ false → R db (w db))
      → Ensures R (execute_insert v w)
  insert-Ensures v w h = record {
    between = λ s s' a q. let (f, e) = execute_insert-returns v w s s' a q in subst (R s) e (h s f);
  }

  pub update-Ensures :
      (n : Database → ℕ) (w : Database → Database)
      → ((db : Database) → n db ≡ 1 → R db (w db))
      → Ensures R (λ db. update_one (n db) w db)
  update-Ensures n w h = record {
    between = λ s s' a q. let (f, e) = update_one-returns (n s) w s s' a q in subst (R s) e (h s f);
  }

  pub writes-Ensures :
      (w : Database → Database) → ((db : Database) → R db (w db)) → Ensures R (writes w)
  unfolding writes
  writes-Ensures w h = record {
    between = λ s s' a q. subst (R s) (ap (λ (x : Result (Unit {0}) × Database). x.1) q) (h s);
  }

module _ ⦃datetime : Datetime⦄ ⦃library : Library⦄ {R : Database → Database → Type 0}
    (same : (db : Database) → R db db) (chained : (s t u : Database) → R s t → R t u → R s u) where
  pub record-Ensures :
      (r : JobRecord)
      → ((db : Database) → record_taken r db ≡ false → R db (with_record r db))
      → ((db : Database) → R db (with_initial_entry r db))
      → Ensures R (insert_record_and_initial_ledger r)
  unfolding insert_record_and_initial_ledger
  record-Ensures r h g =
      chain-Ensures chained _ _ (insert-Ensures (record_taken r) (with_record r) h) λ _.
        insert-Ensures (entry_taken r.job_id r.last_event_id) (with_initial_entry r) λ db _. g db

  pub update_record-Ensures :
      (u : JobRecord) (n : ℕ)
      → ((db : Database)
          → R db (record db { records = update_rows (same_revision u n) (moved_row u) db.records }))
      → Ensures R (update_record u n)
  unfolding update_record
  update_record-Ensures u n h = update-Ensures _ _ λ db _. h db

  -- The relation for a transition, where it does not depend on which it is.
  pub event-Ensures :
      (e : TransitionEvent)
      → ((u : JobRecord) (n : ℕ) (db : Database)
          → R db (record db { records = update_rows (same_revision u n) (moved_row u) db.records }))
      → ((r u : JobRecord) (db : Database) → R db (with_transition r u e db))
      → Ensures R (compare_and_append e)
  unfolding compare_and_append insert_ledger
  event-Ensures e h g = chain-Ensures chained _ _ (reads-Ensures same _) λ r.
      chain-Ensures chained _ _ (reads-Ensures same _) λ _.
        chain-Ensures chained _ _ (lift-Ensures same _) λ u.
          chain-Ensures chained _ _ (update_record-Ensures u _ (h u _)) λ _.
            chain-Ensures chained _ _ (insert-Ensures _ _ λ db _. g r u db) λ _. pure-Ensures same u

  point_to-Ensures :
      (o : Option ReceiptRow) (a : ReceiptArtifact)
      → ((db : Database) → R db (with_current a db))
      → ((db : Database) → R db (moved_current a db))
      → Ensures R (point_to o a)
  unfolding point_to
  point_to-Ensures none a h g = insert-Ensures (current_taken a) (with_current a) λ db _. h db
  point_to-Ensures (some c) a h g = update-Ensures _ (moved_current a) λ db _. g db

  pub receipt-Ensures :
      (a : ReceiptArtifact)
      → ((db : Database) → R db (with_receipt a db))
      → ((db : Database) → R db (with_current a db))
      → ((db : Database) → R db (moved_current a db))
      → Ensures R (insert_receipt a)
  unfolding insert_receipt
  receipt-Ensures a h g k = chain-Ensures chained _ _ (reads-Ensures same _) λ o.
      chain-Ensures chained _ _ (lift-Ensures same _) λ _.
        chain-Ensures chained _ _ (insert-Ensures _ _ λ db _. h db) λ _. point_to-Ensures o a g k

  replace-Ensures :
      (bs : List BootstrapSession) (cs : List CredentialRow) (ps : List PendingCeremony)
      → ((b : BootstrapSession) (db : Database) → R db (expire_bootstrap b db))
      → Ensures R (replace_existing bs cs ps)
  unfolding replace_existing
  replace-Ensures [] cs ps h = pure-Ensures same tt
  replace-Ensures (b ∷ []) cs ps h =
      chain-Ensures chained _ _ (lift-Ensures same _) λ _. writes-Ensures _ (h b)
  replace-Ensures (_ ∷ _ ∷ _) cs ps h = lift-Ensures same _

  expire-Ensures :
      ((b : BootstrapSession) (db : Database) → R db (expire_bootstrap b db))
      → Ensures R expire_existing
  unfolding expire_existing
  expire-Ensures h = record {
    between = λ s s' a q.
        (replace-Ensures s.auth_bootstrap s.auth_credentials s.auth_ceremonies h).between s s' a q;
  }

  pub bootstrap-Ensures :
      (b : BootstrapSession)
      → ((x : BootstrapSession) (db : Database) → R db (expire_bootstrap x db))
      → ((db : Database) → R db (with_bootstrap b db))
      → Ensures R (create_auth_bootstrap b)
  unfolding create_auth_bootstrap
  bootstrap-Ensures b h g = chain-Ensures chained _ _ (lift-Ensures same _) λ _.
      transaction-Ensures _
        (chain-Ensures chained _ _ (expire-Ensures h) λ _. insert-Ensures _ _ λ db _. g db)

  pub registration-Ensures :
      (d i : String) (c : RegisteredCredential) (t : String)
      → ((v : String) (db : Database) → R db (with_credential c v db))
      → ((j v : String) → Ensures R (consume_ceremony j t v))
      → ((b : BootstrapSession) (db : Database)
          → R db (record db {
            auth_bootstrap = update_rows (same_counter b) (counted_down b) db.auth_bootstrap;
          }))
      → Ensures R (complete_registration d i c t)
  unfolding complete_registration insert_credential count_down
  registration-Ensures d i c t h g k = transaction-Ensures _ (
      chain-Ensures chained _ _ (reads-Ensures same _) λ x.
        chain-Ensures chained _ _ (lift-Ensures same _) λ _.
          chain-Ensures chained _ _ (reads-Ensures same _) λ b.
            chain-Ensures chained _ _ (lift-Ensures same _) λ _.
              chain-Ensures chained _ _ (insert-Ensures _ _ λ db _. h _ db) λ _.
                chain-Ensures chained _ _ (g _ _) λ _.
                  chain-Ensures chained _ _ (update-Ensures _ _ λ db _. k b db)
                    λ _. pure-Ensures same c)
