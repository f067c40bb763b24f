-- ===== src/RootAction/Posix/Keyed.antt =====
-- The keys of the records in posix_store.py, and what makes `compare_and_append` raise.
use agent_runtime_ops.Prelude.{
  ℕ, ◌+◌, ◌≤◌, ◌≡◌, refl, sym, ◌∙◌, String, Bool, true, false, some, none, List, [], ◌∷◌, ◌++◌,
  ◌==◌, ◌||◌, arith, eq_iff, Bool-cases, inl, inr, if◌then◌else◌,
}
use mathlib.Core.Path.{subst}
use agent_runtime_ops.Prelude.Lists.{any}
use agent_runtime_ops.Time.{Datetime}
use agent_runtime_ops.RootAction.Json.{Library}
use agent_runtime_ops.RootAction.State.{JobRecord}
use agent_runtime_ops.RootAction.Posix.{
  JobRow, Database, empty_database, fetch_one, count_rows, update_rows, for_job,
}
use agent_runtime_ops.RootAction.Posix.Reading.{record_for}
use agent_runtime_ops.RootAction.Posix.Inserts.{insert_job, with_record, record_taken}
use agent_runtime_ops.RootAction.Posix.Transitions.{same_revision, moved_row}
use agent_runtime_ops.RootAction.Posix.Commands.{Command, run}
use agent_runtime_ops.RootAction.Posix.Methods.{run-holds}
use agent_runtime_ops.RootAction.Posix.Framed.{Framed, Framed-Statements}
use agent_runtime_ops.RootAction.Posix.Steps.{insert-Ensures, record-Ensures, event-Ensures}
use agent_runtime_ops.RootAction.Posix.Appended.{with_updated}

module _ {A : Type 0} where
  any-append : (p : A → Bool) (xs ys : List A) → any p xs ≡ true → any p (xs ++ ys) ≡ true
  unfolding any
  any-append p [] ys h = cc
  any-append p (x ∷ xs) ys h = ground (arith, any-append p xs ys)

  pub any-found : (p : A → Bool) (xs : List A) (x : A) → fetch_one p xs ≡ some x → any p xs ≡ true
  unfolding any fetch_one
  any-found p [] x h = cc
  any-found p (y ∷ xs) x h = ground (arith, any-found p xs x)

  count-added :
      (p : A → Bool) (xs : List A) (x : A)
      → count_rows p (xs ++ x ∷ []) ≡ count_rows p xs + (if p x then 1 else 0)
  unfolding count_rows
  count-added p [] x = ground arith
  count-added p (y ∷ xs) x = ground (arith, count-added p xs x)

  count-none : (p : A → Bool) (xs : List A) → any p xs ≡ false → count_rows p xs ≡ 0
  unfolding count_rows any
  count-none p [] h = refl
  count-none p (x ∷ xs) h = ground (arith, count-none p xs)

  pub count-found :
      (p q : A → Bool) (xs : List A) (x : A)
      → fetch_one q xs ≡ some x
      → p x ≡ true
      → 1 ≤ count_rows p xs
  unfolding count_rows fetch_one
  count-found p q [] x h k = cc
  count-found p q (y ∷ xs) x h k = ground (arith, count-found p q xs x)

  pub count-le :
      (p q : A → Bool)
      → ((x : A) → p x ≡ true → q x ≡ true)
      → (xs : List A) → count_rows p xs ≤ count_rows q xs
  unfolding count_rows
  count-le p q h [] = omega arith
  count-le p q h (x ∷ xs) = ground (arith, h x, count-le p q h xs)

  module _ (test picks : A → Bool) (change : A → A) (k : (x : A) → test (change x) ≡ test x) where
    count-update :
        (xs : List A) → count_rows test (update_rows picks change xs) ≡ count_rows test xs
    unfolding count_rows update_rows
    count-update [] = refl
    count-update (x ∷ xs) = ground (arith, k x, count-update xs)

    any-update : (xs : List A) → any test (update_rows picks change xs) ≡ any test xs
    unfolding any update_rows
    any-update [] = refl
    any-update (x ∷ xs) = ground (arith, k x, any-update xs)

-- A job has at most one record, and a record has a job.
pub record IsKeyed (jobs : List JobRow) (records : List JobRecord) : Type 0 where
  pub unique : (i : String) → count_rows (record_for i) records ≤ 1
  pub known : (i : String) → any (record_for i) records ≡ true → any (for_job i) jobs ≡ true

pub record KeepsKeyed (before later : Database) : Type 0 where
  pub still : IsKeyed before.jobs before.records → IsKeyed later.jobs later.records

job-IsKeyed :
    (row : JobRow) (js : List JobRow) (rs : List JobRecord)
    → IsKeyed js rs
    → IsKeyed (js ++ row ∷ []) rs
job-IsKeyed row js rs h = record {
  unique = h.unique;
  known = λ i k. any-append (for_job i) js (row ∷ []) (h.known i k);
}

pub any-added :
    {A : Type 0} (p : A → Bool) (xs : List A) (x : A) → any p (xs ++ x ∷ []) ≡ any p xs || p x
unfolding any
any-added p [] x = ground arith
any-added p (y ∷ xs) x = ground (arith, any-added p xs x)

record-IsKeyed :
    (r : JobRecord) (db : Database)
    → record_taken r db ≡ false
    → IsKeyed db.jobs db.records
    → IsKeyed db.jobs (with_record r db).records
record-IsKeyed r db f h =
    let row = record r { terminal_outcome = none; reason_code = none } in
    record {
      unique = λ i. elim (Bool-cases (r.job_id == i)) [
        | inl e ↦
            let new : any (record_for i) db.records ≡ false =
              rw (← (eq_iff r.job_id i).0 e) (ground arith) in
            ground (
              arith,
              e,
              count-added (record_for i) db.records row,
              count-none (record_for i) db.records new,
            )
        | inr e ↦ ground (arith, e, count-added (record_for i) db.records row, h.unique i)
      ];
      known = λ i k. elim (Bool-cases (r.job_id == i)) [
        | inl e ↦ rw (← (eq_iff r.job_id i).0 e) (ground arith)
        | inr e ↦ h.known i (ground (arith, any-added (record_for i) db.records row))
      ];
    }

moved-IsKeyed :
    (u : JobRecord) (n : ℕ) (db : Database)
    → IsKeyed db.jobs db.records
    → IsKeyed db.jobs (with_updated u n db).records
moved-IsKeyed u n db h = record {
  unique = λ i.
      rw (count-update (record_for i) (same_revision u n) (moved_row u) (λ x. refl) db.records)
        (h.unique i);
  known = λ i k. h.known i (
      sym (any-update (record_for i) (same_revision u n) (moved_row u) (λ x. refl) db.records) ∙ k);
}

module _ ⦃datetime : Datetime⦄ ⦃library : Library⦄ where
  keyed_chained : (s t u : Database) → KeepsKeyed s t → KeepsKeyed t u → KeepsKeyed s u
  keyed_chained s t u h g = record { still = λ x. g.still (h.still x) }

  abbrev same_keyed : (db : Database) → KeepsKeyed db db
  same_keyed db = record { still = λ h. h }

  KeepsKeyed-Framed : Framed KeepsKeyed
  unfolding insert_job
  KeepsKeyed-Framed = record {
    framed = λ s t p q _. record { still = λ h. subst (IsKeyed t.jobs) q (rw p at h) };
    chained = keyed_chained;
    of_job = λ job m. insert-Ensures _ _ λ db _. record {
      still = job-IsKeyed (record { job = job; submission = m }) db.jobs db.records;
    };
    of_record = λ r _.
        record-Ensures same_keyed keyed_chained r (λ db f. record { still = record-IsKeyed r db f })
          λ db. record { still = λ h. h };
    of_event = λ e.
        event-Ensures same_keyed keyed_chained e (λ u n db. record { still = moved-IsKeyed u n db })
          λ r u db. record { still = λ h. h };
  }

  empty-IsKeyed : IsKeyed [] []
  unfolding count_rows any
  empty-IsKeyed = record { unique = λ i. omega arith; known = λ i h. cc }

  pub run-IsKeyed :
      (cs : List Command) → IsKeyed (run cs empty_database).jobs (run cs empty_database).records
  run-IsKeyed cs =
      (run-holds (Framed-Statements KeepsKeyed-Framed) cs empty_database).still empty-IsKeyed
