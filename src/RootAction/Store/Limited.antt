-- ===== src/RootAction/Store/Limited.antt =====
-- What `_enforce_submission_limits` of local_fixture.py achieves for the store after the sealing.
use agent_runtime_ops.Prelude.{
  ℕ, suc, ◌≡◌, ◌≢◌, ◌⊎◌, false, List, some, Option-cases, ◌==ℕ◌, ◌<◌, ◌≤◌, refl, String, [], ◌∷◌,
  none, true, ok, arith, inl, inr, Bool-cases, Result-cases, >>=-eq-ok, ◌==◌, eq_iff,
}
use agent_runtime_ops.Prelude.Lists.{length}
use agent_runtime_ops.Prelude.Dict.{Dict, lookup, put, lookup-put}
use agent_runtime_ops.Time.{Datetime}
use agent_runtime_ops.RootAction.Job.{SealedJob}
use agent_runtime_ops.RootAction.Json.{Library}
use agent_runtime_ops.RootAction.State.{JobRecord, JobState, pending, running, terminal, unknown}
use agent_runtime_ops.RootAction.State.Initial.{initial_record-IsInitial}
use agent_runtime_ops.RootAction.Admission.{SubmissionMetadata, SubmissionLimits}
use agent_runtime_ops.RootAction.Store.{Store, is_open}
use agent_runtime_ops.RootAction.Store.Limits.{open_for_uid, enforce_submission_limits}
use agent_runtime_ops.RootAction.Store.Sealing.{seal_pending, sealing_checks, with_pending}
use agent_runtime_ops.RootAction.Store.Soundness.Fresh.{sealing_checks-Fresh}

-- A job that is pending, running or of unknown outcome.
pub data IsUnfinished : JobState → Type 0 where
  waits : IsUnfinished pending
  runs : IsUnfinished running
  unsettled : IsUnfinished unknown

-- The names of the jobs that the user has submitted and that are unfinished, in their order.
pub data OpenJobs (records : Dict JobRecord) (uid : ℕ)
    : Dict SubmissionMetadata → List String → Type 0 where
  none_left : OpenJobs records uid [] []
  listed :
      {k : String} {m : SubmissionMetadata} {r : JobRecord} {rest : Dict SubmissionMetadata}
      {names : List String}
      → m.peer_uid ≡ uid
      → lookup k records ≡ some r
      → IsUnfinished r.state
      → OpenJobs records uid rest names
      → OpenJobs records uid ((k, m) ∷ rest) (k ∷ names)
  ended :
      {k : String} {m : SubmissionMetadata} {r : JobRecord} {rest : Dict SubmissionMetadata}
      {names : List String}
      → m.peer_uid ≡ uid
      → lookup k records ≡ some r
      → r.state ≡ terminal
      → OpenJobs records uid rest names
      → OpenJobs records uid ((k, m) ∷ rest) names
  foreign :
      {k : String} {m : SubmissionMetadata} {rest : Dict SubmissionMetadata} {names : List String}
      → m.peer_uid ≢ uid
      → OpenJobs records uid rest names
      → OpenJobs records uid ((k, m) ∷ rest) names

is_open-cases :
    (s : JobState) → (is_open s ≡ true) × IsUnfinished s ⊎ (is_open s ≡ false) × (s ≡ terminal)
is_open-cases pending = inl (refl, waits)
is_open-cases running = inl (refl, runs)
is_open-cases unknown = inl (refl, unsettled)
is_open-cases terminal = inr (refl, refl)

-- The count is the number of the user's open jobs.
open_for_uid-OpenJobs :
    (records : Dict JobRecord) (uid n : ℕ) (submissions : Dict SubmissionMetadata)
    → open_for_uid records uid submissions ≡ ok n
    → (names : List String) × OpenJobs records uid submissions names × (length names ≡ n)
unfolding open_for_uid length
open_for_uid-OpenJobs records uid n [] h = ([], none_left, ground arith)
open_for_uid-OpenJobs records uid n ((k, m) ∷ rest) h =
    let (i, p, q) = >>=-eq-ok (open_for_uid records uid rest) _ h in
    let (names, o, l) = open_for_uid-OpenJobs records uid i rest p in
    elim (Bool-cases (m.peer_uid ==ℕ uid)) [
      | inr e ↦ (names, foreign (λ w. ground arith) o, ground arith)
      | inl e ↦ elim (Option-cases (lookup k records)) [
        | inl missing ↦ ground arith
        | inr (r, f) ↦ elim (is_open-cases r.state) [
          | inl (b, u) ↦ (k ∷ names, listed (ground arith) f u o, ground arith)
          | inr (b, u) ↦ (names, ended (ground arith) f u o, ground arith)
        ]
      ]
    ]

-- A count that has succeeded read no record of a fresh job.
open_for_uid-put_record :
    (records : Dict JobRecord) (uid n : ℕ) (submissions : Dict SubmissionMetadata) (k : String)
    (r : JobRecord)
    → lookup k records ≡ none
    → open_for_uid records uid submissions ≡ ok n
    → open_for_uid (put k r records) uid submissions ≡ ok n
unfolding open_for_uid
open_for_uid-put_record records uid n [] k r f h = h
open_for_uid-put_record records uid n ((j, m) ∷ rest) k r f h =
    let (i, p, q) = >>=-eq-ok (open_for_uid records uid rest) _ h in
    ground (
      arith,
      p,
      open_for_uid-put_record records uid i rest k r f p,
      lookup-put k j r records,
      eq_iff k j,
    )

-- A fresh open job of the user adds one to the user's open jobs.
open_for_uid-put :
    (records : Dict JobRecord) (n : ℕ) (submissions : Dict SubmissionMetadata) (k : String)
    (r : JobRecord) (m : SubmissionMetadata)
    → lookup k records ≡ none
    → is_open r.state ≡ true
    → open_for_uid records m.peer_uid submissions ≡ ok n
    → open_for_uid (put k r records) m.peer_uid (put k m submissions) ≡ ok (suc n)
unfolding open_for_uid put
open_for_uid-put records n [] k r m f o h = ground (arith, lookup-put k k r records, eq_iff k k)
open_for_uid-put records n ((j, w) ∷ rest) k r m f o h =
    let (i, p, q) = >>=-eq-ok (open_for_uid records m.peer_uid rest) _ h in
    elim (Bool-cases (j == k)) [
      | inl e ↦ ground (
        arith,
        p,
        open_for_uid-put_record records m.peer_uid i rest k r f p,
        lookup-put k j r records,
        eq_iff j k,
        eq_iff k j,
      )
      | inr e ↦ ground (
        arith,
        p,
        open_for_uid-put records i rest k r m f o p,
        lookup-put k j r records,
        eq_iff j k,
        eq_iff k j,
      )
    ]

module _ ⦃datetime : Datetime⦄ ⦃library : Library⦄ where
  -- How many open jobs the submitting user had.
  sealing_checks-open :
      (job : SealedJob) (i t : String) (m : SubmissionMetadata) (l : SubmissionLimits) (s : Store)
      (r : JobRecord)
      → sealing_checks job i t m l s ≡ ok r
      → (n : ℕ) × (open_for_uid s.records m.peer_uid s.submissions ≡ ok n)
        × (n < l.max_open_per_uid)
  unfolding sealing_checks enforce_submission_limits
  sealing_checks-open job i t m l s r h =
      elim (Result-cases (open_for_uid s.records m.peer_uid s.submissions)) [
        | inl (n, e) ↦ (n, e, ground arith)
        | inr (z, e) ↦ ground arith
      ]

  seal_pending-returns :
      (job : SealedJob) (i t : String) (m : SubmissionMetadata) (l : SubmissionLimits)
      (s s' : Store) (r : JobRecord)
      → seal_pending job i t m l s ≡ (ok r, s')
      → (sealing_checks job i t m l s ≡ ok r) × (with_pending s job m r ≡ s')
  unfolding seal_pending
  seal_pending-returns job i t m l s s' r h = elim (Result-cases (sealing_checks job i t m l s)) [
    | inl (u, e) ↦ ground arith
    | inr (z, e) ↦ ground arith
  ]

  -- After a sealing that returns, the user who submitted the job has at most the permitted number
  -- of jobs that are pending, running or of unknown outcome, the new one included: the list of
  -- them, by what the store holds of each submission, is no longer, and its length is the count
  -- that the code makes.
  pub seal_pending-quota :
      (job : SealedJob) (i t : String) (m : SubmissionMetadata) (l : SubmissionLimits)
      (s s' : Store) (r : JobRecord)
      → seal_pending job i t m l s ≡ (ok r, s')
      → (names : List String) × OpenJobs s'.records m.peer_uid s'.submissions names
        × (open_for_uid s'.records m.peer_uid s'.submissions ≡ ok (length names))
        × (length names ≤ l.max_open_per_uid)
  seal_pending-quota job i t m l s s' r h =
      let (e, w) = seal_pending-returns job i t m l s s' r h in
      let (n, c, q) = sealing_checks-open job i t m l s r e in
      let f = sealing_checks-Fresh job i t m l s r e in
      let p = (initial_record-IsInitial job i t r f.initial).is_pending in
      let count : open_for_uid s'.records m.peer_uid s'.submissions ≡ ok (suc n) =
        rw (← w)
          (open_for_uid-put s.records n s.submissions job.job_id r m f.new_record (rw p refl) c) in
      let (names, o, k) =
        open_for_uid-OpenJobs s'.records m.peer_uid (suc n) s'.submissions count in
      (names, o, rw k count, rw k q)
