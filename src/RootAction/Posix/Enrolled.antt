-- ===== src/RootAction/Posix/Enrolled.antt =====
-- How many credentials posix_store.py ever enrolls.
use agent_runtime_ops.Prelude.{
  ◌+◌, ◌≤◌, ◌≡◌, refl, ap, sym, Result, true, false, not, List, [], ◌∷◌, ok, arith, eq_iff, String,
  storage_conflict, guard,
}
use agent_runtime_ops.Prelude.Actions.{
  Ensures, writes, lift, from_read, from_check, from_action, from_pure,
}
use agent_runtime_ops.Prelude.Lists.{length, length-append}
use agent_runtime_ops.Time.{Datetime}
use agent_runtime_ops.RootAction.Json.{Library}
use agent_runtime_ops.RootAction.Authorization.{
  BootstrapSession, RegisteredCredential, PendingCeremony, expired, is_consumed,
}
use agent_runtime_ops.RootAction.Authorization.Challenges.{fingerprint}
use agent_runtime_ops.RootAction.Authorization.Records.{bootstrap_checked}
use agent_runtime_ops.RootAction.Posix.{
  CredentialRow, Database, empty_database, count_rows, update_rows,
}
use agent_runtime_ops.RootAction.Posix.Inserts.{insert_job, insert_raw}
use agent_runtime_ops.RootAction.Posix.Bootstrap.{
  is_empty, can_expire, expire_bootstrap, replace_existing, expire_existing, create_auth_bootstrap,
}
use agent_runtime_ops.RootAction.Posix.Registration.{
  same_counter, counted_down, count_down, insert_credential, insert_ceremony, consume_ceremony,
  is_active_for, complete_registration,
}
use agent_runtime_ops.RootAction.Posix.Approval.{update_sign_count}
use agent_runtime_ops.RootAction.Posix.Commands.{Command, run}
use agent_runtime_ops.RootAction.Posix.Statements.{Statements, transaction-returns}
use agent_runtime_ops.RootAction.Posix.Methods.{run-holds}
use agent_runtime_ops.RootAction.Posix.Steps.{
  insert-Ensures, update-Ensures, writes-Ensures, record-Ensures, event-Ensures, receipt-Ensures,
  execute_insert-returns, from_insert, from_update,
}
use agent_runtime_ops.RootAction.Posix.Allowance.{
  allowed, allowance, allowance-append, length-update_rows, allowance-count_down, counted_rows,
  added_row,
}

-- The credentials and what the sessions still allow are three together, and without a session
-- there is no credential.
pub record IsBounded (bs : List BootstrapSession) (cs : List CredentialRow) : Type 0 where
  pub bounded : length cs + allowance bs ≤ 3
  pub started : is_empty bs ≡ true → length cs ≡ 0

pub record KeepsBound (before later : Database) : Type 0 where
  pub still :
      IsBounded before.auth_bootstrap before.auth_credentials
      → IsBounded later.auth_bootstrap later.auth_credentials

module _ ⦃datetime : Datetime⦄ ⦃library : Library⦄ where
  abbrev unchanged : (db : Database) → KeepsBound db db
  unchanged db = record { still = λ h. h }

  bound_chained : (s t u : Database) → KeepsBound s t → KeepsBound t u → KeepsBound s u
  bound_chained s t u h g = record { still = λ x. g.still (h.still x) }

  allows_three :
      (b c : BootstrapSession) → bootstrap_checked b ≡ ok c → b.remaining_registrations ≤ 3
  unfolding bootstrap_checked
  allows_three b c h = ground arith

  active_remaining :
      (c : PendingCeremony) (t : String) (b : BootstrapSession) {u : Unit {0}}
      → guard (is_active_for c t b) storage_conflict ≡ ok u
      → 1 ≤ b.remaining_registrations
  active_remaining c t b h = ground arith

  allowed_le : (b : BootstrapSession) → allowed b ≤ b.remaining_registrations
  allowed_le b = ground arith

  no_credentials : (cs : List CredentialRow) → not (is_empty cs) ≡ false → length cs ≡ 0
  no_credentials [] h = refl
  no_credentials (c ∷ cs) h = cc

  expired_alone :
      (b : BootstrapSession)
      → is_consumed b.state ≡ false
      → allowance (update_rows (can_expire b) (λ row. record row { state = expired }) (b ∷ [])) ≡ 0
  unfolding allowance update_rows
  expired_alone b h = ground (arith, eq_iff b.bootstrap_id b.bootstrap_id)

  replaced_list :
      (bs : List BootstrapSession) (cs : List CredentialRow) (ps : List PendingCeremony)
      (s s' : Database) (a : Unit {0})
      → s.auth_bootstrap ≡ bs
      → s.auth_credentials ≡ cs
      → IsBounded s.auth_bootstrap s.auth_credentials
      → replace_existing bs cs ps s ≡ (ok a, s')
      → (length s'.auth_credentials ≡ 0) × (allowance s'.auth_bootstrap ≡ 0)
  unfolding replace_existing writes lift
  replaced_list [] cs ps s s' a p q x h =
      from_pure _ _ s s' h
        λ _ w. rw (sym w) (x.started (rw p refl), rw p (unfold allowance in refl))
  replaced_list (b ∷ []) cs ps s s' a p q x h = from_check _ _ s s' a h λ _ f h1.
      let w : expire_bootstrap b s ≡ s' = ap (λ (x : Result (Unit {0}) × Database). x.1) h1 in
      let k : (not (is_empty cs) ≡ false) × (is_consumed b.state ≡ false) = ground arith in
      rw (sym w) (rw q (no_credentials cs k.0), rw p (expired_alone b k.1))
  replaced_list (_ ∷ _ ∷ _) cs ps s s' a p q x h = cc

  -- A session is created where no credential is enrolled, and no other allows a registration.
  replaced :
      (s s' : Database) (a : Unit {0})
      → IsBounded s.auth_bootstrap s.auth_credentials
      → expire_existing s ≡ (ok a, s')
      → (length s'.auth_credentials ≡ 0) × (allowance s'.auth_bootstrap ≡ 0)
  unfolding expire_existing
  replaced s s' a b h =
      replaced_list s.auth_bootstrap s.auth_credentials s.auth_ceremonies s s' a refl refl b h

  bootstrap-KeepsBound :
      (b c : BootstrapSession)
      → bootstrap_checked b ≡ ok c
      → Ensures KeepsBound (create_auth_bootstrap b)
  unfolding create_auth_bootstrap
  bootstrap-KeepsBound b c e = record {
    between = λ s s' u h. record {
      still = λ x. from_check _ _ s s' u h λ _ _ h1.
          from_action expire_existing _ s s' u (transaction-returns _ s s' u h1) λ _ mid p h2.
            let (_, w) = execute_insert-returns _ _ mid s' u h2 in
            let r = replaced s mid _ x p in
            rw (sym w) (record {
              bounded = omega (
                arith,
                r,
                allowance-append mid.auth_bootstrap b,
                allows_three b c e,
                allowed_le b,
              );
              started = λ none_left. ground (arith, added_row mid.auth_bootstrap b);
            });
    };
  }

  registration-KeepsBound :
      (d i : String) (c : RegisteredCredential) (t : String)
      → Ensures KeepsBound (complete_registration d i c t)
  unfolding complete_registration insert_credential consume_ceremony count_down
  registration-KeepsBound d i c t = record {
    between = λ s s' u h. record {
      still = λ x. from_read _ _ s s' u (transaction-returns _ s s' u h) λ ceremony _ h1.
          from_check _ _ s s' u h1 λ _ _ h2. from_read _ _ s s' u h2 λ b _ h3.
            from_check _ _ s s' u h3 λ _ active h4. from_insert _ _ _ s s' u h4 λ _ h5.
              from_update _ _ _ _ _ s' u refl h5 λ _ h6.
                from_update _ _ _ _ _ s' u refl h6 λ one h7. from_pure _ _ _ s' h7 λ _ w.
                  let bs = s.auth_bootstrap in
                  let row : CredentialRow = record {
                    credential = c;
                    credential_fingerprint = fingerprint c.credential_id;
                  } in
                  let one_row : count_rows (same_counter b) bs ≡ 1 = one in
                  let less = allowance-count_down b bs (active_remaining ceremony t b active) in
                  let more = length-append s.auth_credentials (row ∷ []) in
                  rw (sym w) (record {
                    bounded = omega (arith, x.bounded, one_row, less, more);
                    started = λ none_left.
                        ground (arith, counted_rows (same_counter b) (counted_down b) bs one_row);
                  });
    };
  }

  Statements-KeepsBound : Statements KeepsBound
  unfolding insert_job insert_raw insert_ceremony update_sign_count consume_ceremony
  Statements-KeepsBound = record {
    same = unchanged;
    chained = bound_chained;
    of_job = λ job m. insert-Ensures _ _ λ db _. record { still = λ h. h };
    of_record = λ r f.
        record-Ensures unchanged bound_chained r (λ db _. record { still = λ h. h })
          λ db. record { still = λ h. h };
    of_raw = λ raw. insert-Ensures _ _ λ db _. record { still = λ h. h };
    of_event = λ e.
        event-Ensures unchanged bound_chained e (λ u n db. record { still = λ h. h })
          λ r u db. record { still = λ h. h };
    of_receipt = λ a.
        receipt-Ensures unchanged bound_chained a (λ db. record { still = λ h. h })
          (λ db. record { still = λ h. h }) λ db. record { still = λ h. h };
    of_quarantine = λ q. insert-Ensures _ _ λ db _. record { still = λ h. h };
    of_bootstrap = bootstrap-KeepsBound;
    of_ceremony = λ c. insert-Ensures _ _ λ db _. record { still = λ h. h };
    of_expiry = λ now. writes-Ensures _ λ db. record { still = λ h. h };
    of_registration = registration-KeepsBound;
    of_sign_count = λ c v. update-Ensures _ _ λ db _. record {
      still = λ h. record {
        bounded = omega (arith, h, length-update_rows _ _ db.auth_credentials);
        started = λ e. omega (arith, h.started e, length-update_rows _ _ db.auth_credentials);
      };
    };
    of_consumption = λ i t v. update-Ensures _ _ λ db _. record { still = λ h. h };
    of_approval = λ a. insert-Ensures _ _ λ db _. record { still = λ h. h };
  }

  empty-IsBounded : IsBounded [] []
  unfolding allowance
  empty-IsBounded = record { bounded = omega arith; started = λ _. refl }

  -- After any commands on an empty database, in any order and raising or not, at most three
  -- credentials are stored.
  pub at_most_three : (cs : List Command) → length (run cs empty_database).auth_credentials ≤ 3
  at_most_three cs =
      let h = (run-holds Statements-KeepsBound cs empty_database).still empty-IsBounded in
      omega (arith, h.bounded)
