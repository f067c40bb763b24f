-- ===== src/RootAction/Posix/Claimed.antt =====
-- What `claim_with_approval` of posix_store.py has done when it returns, and how often it returns for
-- a ceremony.
use agent_runtime_ops.Prelude.{
  ◌≡◌, refl, ap, sym, String, Bool, true, ◌&&◌, Option, some, none, ok, err, List, Error, arith,
  eq_iff, guard, storage_conflict, ◌==◌, Result-cases, >>=-eq-ok, inl, inr,
}
use agent_runtime_ops.Prelude.Actions.{from_read, from_check}
use mathlib.Core.Path.{subst}
use agent_runtime_ops.Text.{text_lt}
use agent_runtime_ops.Time.{Datetime}
use agent_runtime_ops.RootAction.Json.{Library}
use agent_runtime_ops.RootAction.State.{
  JobRecord, TransitionEvent, pending, running, apply_transition, claim_execution, TransitionKind,
}
use agent_runtime_ops.RootAction.State.Edges.{Facts, Facts-Edge}
use agent_runtime_ops.RootAction.State.Agreement.{apply_transition_iff}
use agent_runtime_ops.RootAction.Store.{bytes_eq}
use agent_runtime_ops.RootAction.Authorization.{
  PendingCeremony, RegisteredCredential, VerifiedAssertion, ApprovalRecord, CeremonyState, issued,
  consumed, expired, is_issued,
}
use agent_runtime_ops.RootAction.Authorization.Challenges.{fingerprint}
use agent_runtime_ops.RootAction.Authorization.Records.{
  ceremony_checked, ceremony_eq, ceremony_state_eq, purpose_eq, optional_role_eq, text_eq,
}
use agent_runtime_ops.RootAction.Posix.{Database, fetch_one, update_rows}
use agent_runtime_ops.RootAction.Posix.Reading.{
  row_or, record_for, ceremony_for, read_ceremony, read_credential,
}
use agent_runtime_ops.RootAction.Posix.Registration.{
  issued_ceremony, consumed_row, consume_ceremony,
}
use agent_runtime_ops.RootAction.Posix.Approval.{
  update_sign_count, claim_contract, consume_and_claim, claim_with_approval, is_claim_kind,
}
use agent_runtime_ops.RootAction.Posix.Commands.{Command, run}
use agent_runtime_ops.RootAction.Posix.Rows.{fetch_one-update, fetch_one-test}
use agent_runtime_ops.RootAction.Posix.Statements.{transaction-returns}
use agent_runtime_ops.RootAction.Posix.Methods.{run-holds}
use agent_runtime_ops.RootAction.Posix.Steps.{from_insert, from_update}
use agent_runtime_ops.RootAction.Posix.Consumed.{IsSpent, Statements-KeepsSpent}
use agent_runtime_ops.RootAction.Posix.Appended.{compare-Appended, Appended-stored}

-- The consumption of a stored ceremony leaves it spent.
consumed-IsSpent :
    (i t v : String) (rows : List PendingCeremony) (c : PendingCeremony)
    → fetch_one (ceremony_for i) rows ≡ some c
    → IsSpent i (update_rows (issued_ceremony i) (consumed_row t v) rows)
consumed-IsSpent i t v rows c h = record {
  row = _;
  found =
      fetch_one-update (ceremony_for i) (issued_ceremony i) (consumed_row t v) (λ x. refl) rows c h;
  spent = ground (arith, fetch_one-test (ceremony_for i) rows c h);
}

claim_kind_lem : (k : TransitionKind) → is_claim_kind k ≡ true → k ≡ claim_execution
claim_kind_lem claim_execution h = refl
claim_kind_lem _ h = cc

state_eq_lem : (a b : CeremonyState) → ceremony_state_eq a b ≡ true → a ≡ b
unfolding ceremony_state_eq
state_eq_lem issued issued h = refl
state_eq_lem consumed consumed h = refl
state_eq_lem expired expired h = refl
state_eq_lem _ _ h = cc

text_eq_lem : (a b : Option String) → text_eq a b ≡ true → a ≡ b
unfolding text_eq
text_eq_lem none none h = refl
text_eq_lem (some a) (some b) h = ap some ((eq_iff a b).0 h)
text_eq_lem _ _ h = cc

conjuncts :
    (a b c d e f x y g h i j z k l : Bool)
    → a && b && c && d && e && f && x && y && g && h && i && j && z && k && l ≡ true
    → (x ≡ true) × (y ≡ true) × (z ≡ true)
conjuncts a b c d e f x y g h i j z k l q = ground arith

-- The fields of equal ceremonies that the claim depends on.
ceremony_eq_lem :
    (a b : PendingCeremony)
    → ceremony_eq a b ≡ true
    → (a.state ≡ b.state) × (a.job_id ≡ b.job_id) × (a.expires_at ≡ b.expires_at)
unfolding ceremony_eq
ceremony_eq_lem a b h =
    let q =
      conjuncts (a.ceremony_id == b.ceremony_id) (purpose_eq a.purpose b.purpose)
        (bytes_eq a.challenge b.challenge) (bytes_eq a.binding_nonce b.binding_nonce)
        (a.challenge_digest == b.challenge_digest) (a.issued_at == b.issued_at)
        (a.expires_at == b.expires_at) (text_eq a.job_id b.job_id)
        (text_eq a.job_digest b.job_digest) (text_eq a.bootstrap_id b.bootstrap_id)
        (optional_role_eq a.role b.role) (text_eq a.label b.label)
        (ceremony_state_eq a.state b.state) (text_eq a.consumed_at b.consumed_at)
        (text_eq a.credential_fingerprint b.credential_fingerprint) h in
    (
      state_eq_lem a.state b.state q.2,
      text_eq_lem a.job_id b.job_id q.1,
      (eq_iff a.expires_at b.expires_at).0 q.0,
    )

module _ ⦃datetime : Datetime⦄ ⦃library : Library⦄ where
  pub record Claimed (c : PendingCeremony) (a : ApprovalRecord) (e : TransitionEvent)
      (before later : Database) (r : JobRecord) : Type 0 where
    pub stored : PendingCeremony
    pub found : fetch_one (ceremony_for c.ceremony_id) before.auth_ceremonies ≡ some stored
    pub was_issued : is_issued stored.state ≡ true
    pub same_job : text_eq (some e.job_id) stored.job_id ≡ true
    pub in_time : text_lt a.verified_at stored.expires_at ≡ true
    pub spent : IsSpent c.ceremony_id later.auth_ceremonies
    pub current : JobRecord
    pub was_stored : fetch_one (record_for e.job_id) before.records ≡ some current
    pub was_pending : current.state ≡ pending
    pub is_stored : fetch_one (record_for e.job_id) later.records ≡ some r
    pub now_running : r.state ≡ running
    pub counted : r.execution_count ≡ 1

  ceremony_checked-same : (c d : PendingCeremony) → ceremony_checked c ≡ ok d → c ≡ d
  unfolding ceremony_checked
  ceremony_checked-same c d h = ground arith

  read_ceremony-found :
      (i : String) (db : Database) (c : PendingCeremony)
      → read_ceremony i db ≡ ok c
      → fetch_one (ceremony_for i) db.auth_ceremonies ≡ some c
  unfolding read_ceremony
  read_ceremony-found i db c h =
      let (row, f, g) = >>=-eq-ok (row_or _ (fetch_one (ceremony_for i) db.auth_ceremonies)) _ h in
      ground (arith, ceremony_checked-same row c g)

  -- The edge of a claim.
  claim-moves :
      (r : JobRecord) (e : TransitionEvent) (u : JobRecord)
      → apply_transition r e ≡ ok u
      → is_claim_kind e.kind ≡ true
      → (r.state ≡ pending) × (u.state ≡ running) × (u.execution_count ≡ 1)
  claim-moves r e u h k =
      let x = (apply_transition_iff r e u).0 h in
      let kind : e.kind ≡ claim_execution = claim_kind_lem e.kind k in
      let edge : Facts claim_execution r.state e.outcome e.reason_code =
        rw kind at (Facts-Edge x.edge) in
      (edge.0, rw (x.result, kind) refl, rw (x.result, kind) refl)

  contract_lem :
      (c : PendingCeremony) (g : RegisteredCredential) (v : VerifiedAssertion) (a : ApprovalRecord)
      (e : TransitionEvent) {u : Unit {0}}
      → guard (claim_contract c g v a e) storage_conflict ≡ ok u
      → (is_claim_kind e.kind ≡ true)
        × (is_issued c.state ≡ true)
        × (text_eq (some e.job_id) c.job_id ≡ true)
  unfolding claim_contract
  contract_lem c g v a e h = ground arith

  -- A claim that returns has found its ceremony stored and issued, for the job of the claim, with a
  -- later end than the verification; it has moved the record of that job, which was stored and
  -- pending, to running with one claim counted, and has spent the ceremony.
  pub claim_with_approval-Claimed :
      (c : PendingCeremony) (g : RegisteredCredential) (v : VerifiedAssertion) (a : ApprovalRecord)
      (e : TransitionEvent) (s s' : Database) (r : JobRecord)
      → claim_with_approval c g v a e s ≡ (ok r, s')
      → Claimed c a e s s' r
  unfolding claim_with_approval consume_and_claim update_sign_count consume_ceremony
  claim_with_approval-Claimed c g v a e s s' r h = from_check _ _ s s' r h λ _ contract h1.
      from_read (read_ceremony c.ceremony_id) _ s s' r (transaction-returns _ s s' r h1) λ x f2 h2.
        from_check _ _ s s' r h2 λ _ f3 h3.
          from_read (read_credential g.credential_id) _ s s' r h3 λ y f4 h4.
            from_check _ _ s s' r h4 λ _ f5 h5. from_update _ _ _ _ s s' r refl h5 λ f6 h6.
              from_update _ _ _ _ _ s' r refl h6 λ f7 h7. from_insert _ _ _ _ s' r h7 λ f8 h8.
                let w = compare-Appended e _ s' r h8 in
                let k = contract_lem c g v a e contract in
                let q = ceremony_eq_lem x c (ground arith) in
                let m = claim-moves w.current e r w.moved k.0 in
                record {
                  stored = x;
                  found = read_ceremony-found c.ceremony_id s x f2;
                  was_issued = rw q.0 k.1;
                  same_job = rw q.1 k.2;
                  in_time = rw q.2 (ground arith);
                  spent = rw w.result (
                      consumed-IsSpent c.ceremony_id a.verified_at (fingerprint g.credential_id)
                        s.auth_ceremonies x (read_ceremony-found c.ceremony_id s x f2));
                  current = w.current;
                  was_stored = w.found;
                  was_pending = m.0;
                  is_stored = Appended-stored w;
                  now_running = m.1;
                  counted = m.2;
                }

  -- A claim on a ceremony that is spent is refused.
  spent-raises :
      (c : PendingCeremony) (g : RegisteredCredential) (v : VerifiedAssertion) (a : ApprovalRecord)
      (e : TransitionEvent) (db : Database)
      → IsSpent c.ceremony_id db.auth_ceremonies
      → (x : Error) × ((claim_with_approval c g v a e db).0 ≡ err x)
  spent-raises c g v a e db h = elim (Result-cases (claim_with_approval c g v a e db).0) [
    | inl (r, q) ↦
        let w =
          claim_with_approval-Claimed c g v a e db _ r
            (ap (λ x. (x, (claim_with_approval c g v a e db).1)) q) in
        ground (arith, w.found, h.found, w.was_issued, h.spent)
    | inr found ↦ found
  ]

  -- After a claim that returns, whatever commands follow and whether they return or raise, every
  -- further claim that names the same ceremony raises.
  pub claim_with_approval_once :
      (c d : PendingCeremony) (g k : RegisteredCredential) (v w : VerifiedAssertion)
      (a b : ApprovalRecord) (e f : TransitionEvent) (s s' : Database) (r : JobRecord)
      (cs : List Command)
      → claim_with_approval c g v a e s ≡ (ok r, s')
      → d.ceremony_id ≡ c.ceremony_id
      → (x : Error) × ((claim_with_approval d k w b f (run cs s')).0 ≡ err x)
  claim_with_approval_once c d g k v w a b e f s s' r cs h same =
      let spent = (claim_with_approval-Claimed c g v a e s s' r h).spent in
      let later = (run-holds Statements-KeepsSpent cs s').still c.ceremony_id spent in
      spent-raises d k w b f (run cs s')
        (subst (λ i. IsSpent i (run cs s').auth_ceremonies) (sym same) later)
