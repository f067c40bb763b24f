-- ===== src/RootAction/Posix/Consumed.antt =====
-- A ceremony of posix_store.py that is no longer issued stays so.
use agent_runtime_ops.Prelude.{
  ◌≡◌, refl, ap, String, Bool, false, some, List, [], ◌∷◌, ◌++◌, ◌==◌, arith,
}
use agent_runtime_ops.Prelude.Actions.{Ensures}
use agent_runtime_ops.Time.{Datetime}
use agent_runtime_ops.RootAction.Json.{Library}
use agent_runtime_ops.RootAction.Authorization.{PendingCeremony, is_issued}
use agent_runtime_ops.RootAction.Posix.{Database, fetch_one, update_rows}
use agent_runtime_ops.RootAction.Posix.Reading.{ceremony_for}
use agent_runtime_ops.RootAction.Posix.Registration.{insert_ceremony, consume_ceremony}
use agent_runtime_ops.RootAction.Posix.Inserts.{insert_job, insert_raw}
use agent_runtime_ops.RootAction.Posix.Approval.{update_sign_count}
use agent_runtime_ops.RootAction.Posix.Rows.{fetch_one-append, fetch_one-update}
use agent_runtime_ops.RootAction.Posix.Statements.{Statements}
use agent_runtime_ops.RootAction.Posix.Steps.{
  insert-Ensures, update-Ensures, writes-Ensures, record-Ensures, event-Ensures, receipt-Ensures,
  bootstrap-Ensures, registration-Ensures,
}

-- The ceremony of the name is stored, and was consumed or has expired.
pub record IsSpent (ceremony_id : String) (rows : List PendingCeremony) : Type 0 where
  pub row : PendingCeremony
  pub found : fetch_one (ceremony_for ceremony_id) rows ≡ some row
  pub spent : is_issued row.state ≡ false

pub record KeepsSpent (before later : Database) : Type 0 where
  pub still :
      (ceremony_id : String)
      → IsSpent ceremony_id before.auth_ceremonies
      → IsSpent ceremony_id later.auth_ceremonies

update-IsSpent :
    (picks : PendingCeremony → Bool) (change : PendingCeremony → PendingCeremony)
    → ((c : PendingCeremony) → (change c).ceremony_id ≡ c.ceremony_id)
    → ((c : PendingCeremony) → is_issued (change c).state ≡ false)
    → (i : String) (rows : List PendingCeremony) → IsSpent i rows
    → IsSpent i (update_rows picks change rows)
update-IsSpent picks change k f i rows h = record {
  row = _;
  found =
      fetch_one-update (ceremony_for i) picks change (λ c. ap (λ j. j == i) (k c)) rows h.row
        h.found;
  spent = ground (arith, f h.row, h.spent);
}

module _ ⦃datetime : Datetime⦄ ⦃library : Library⦄ where
  abbrev unchanged : (db : Database) → KeepsSpent db db
  unchanged db = record { still = λ i h. h }

  spent_chained : (s t u : Database) → KeepsSpent s t → KeepsSpent t u → KeepsSpent s u
  spent_chained s t u h g = record { still = λ i x. g.still i (h.still i x) }

  consume-Ensures : (i t v : String) → Ensures KeepsSpent (consume_ceremony i t v)
  unfolding consume_ceremony
  consume-Ensures i t v = update-Ensures _ _ λ db _. record {
    still = λ j h. update-IsSpent _ _ (λ c. refl) (λ c. refl) j db.auth_ceremonies h;
  }

  added :
      (c : PendingCeremony) (rows : List PendingCeremony) (i : String)
      → IsSpent i rows
      → IsSpent i (rows ++ c ∷ [])
  added c rows i h = record {
    row = h.row;
    found = fetch_one-append (ceremony_for i) rows (c ∷ []) h.row h.found;
    spent = h.spent;
  }

  pub Statements-KeepsSpent : Statements KeepsSpent
  unfolding insert_job insert_raw insert_ceremony update_sign_count
  Statements-KeepsSpent = record {
    same = unchanged;
    chained = spent_chained;
    of_job = λ job m. insert-Ensures _ _ λ db _. record { still = λ i h. h };
    of_record = λ r f.
        record-Ensures unchanged spent_chained r (λ db _. record { still = λ i h. h })
          λ db. record { still = λ i h. h };
    of_raw = λ raw. insert-Ensures _ _ λ db _. record { still = λ i h. h };
    of_event = λ e.
        event-Ensures unchanged spent_chained e (λ u n db. record { still = λ i h. h })
          λ r u db. record { still = λ i h. h };
    of_receipt = λ a.
        receipt-Ensures unchanged spent_chained a (λ db. record { still = λ i h. h })
          (λ db. record { still = λ i h. h }) λ db. record { still = λ i h. h };
    of_quarantine = λ q. insert-Ensures _ _ λ db _. record { still = λ i h. h };
    of_bootstrap = λ b c _.
        bootstrap-Ensures unchanged spent_chained b (λ x db. record { still = λ i h. h })
          λ db. record { still = λ i h. h };
    of_ceremony =
        λ c. insert-Ensures _ _ λ db _. record { still = λ i h. added c db.auth_ceremonies i h };
    of_expiry = λ now. writes-Ensures _ λ db. record {
      still = λ i h. update-IsSpent _ _ (λ c. refl) (λ c. refl) i db.auth_ceremonies h;
    };
    of_registration = λ d i c t.
        registration-Ensures unchanged spent_chained d i c t (λ v db. record { still = λ i h. h })
          (λ j v. consume-Ensures j t v) λ b db. record { still = λ i h. h };
    of_sign_count = λ c v. update-Ensures _ _ λ db _. record { still = λ i h. h };
    of_consumption = consume-Ensures;
    of_approval = λ a. insert-Ensures _ _ λ db _. record { still = λ i h. h };
  }
