-- ===== src/RootAction/State/Edges.antt =====
-- The edges of the diagram, from the tests that the branches of `apply_transition` make, and back.
use agent_runtime_ops.Prelude.{◌≡◌, refl, true, false, Option, none, some, String, is_some}
use agent_runtime_ops.Text.{safe_id}
use agent_runtime_ops.RootAction.State.{
  JobState, pending, running, unknown, TransitionKind, claim_execution, close_pending,
  complete_execution, mark_unknown, reconcile_unknown, TerminalOutcome, is_executed, is_closed,
  is_pending, is_running, is_unknown,
}
use agent_runtime_ops.RootAction.State.Spec.{Edge, claim, close, complete, lose, reconcile}

pub Edge-claim :
    (s : JobState) (o : Option TerminalOutcome) (c : Option String)
    → is_pending s ≡ true
    → is_some o ≡ false
    → is_some c ≡ false
    → Edge s claim_execution o c
Edge-claim pending none none p q h = claim
Edge-claim _ _ _ p q h = cc

pub Edge-close :
    (s : JobState) (o : Option TerminalOutcome) (x : String)
    → is_pending s ≡ true
    → is_closed o ≡ true
    → safe_id x ≡ true
    → Edge s close_pending o (some x)
Edge-close pending (some o) x p q h = close q h
Edge-close _ _ _ p q h = cc

pub Edge-complete :
    (s : JobState) (o : Option TerminalOutcome) (x : String)
    → is_running s ≡ true
    → is_executed o ≡ true
    → safe_id x ≡ true
    → Edge s complete_execution o (some x)
Edge-complete running (some o) x p q h = complete q h
Edge-complete _ _ _ p q h = cc

pub Edge-lose :
    (s : JobState) (o : Option TerminalOutcome) (x : String)
    → is_running s ≡ true
    → is_some o ≡ false
    → safe_id x ≡ true
    → Edge s mark_unknown o (some x)
Edge-lose running none x p q h = lose h
Edge-lose _ _ _ p q h = cc

pub Edge-reconcile :
    (s : JobState) (o : Option TerminalOutcome) (x : String)
    → is_unknown s ≡ true
    → is_executed o ≡ true
    → safe_id x ≡ true
    → Edge s reconcile_unknown o (some x)
Edge-reconcile unknown (some o) x p q h = reconcile q h
Edge-reconcile _ _ _ p q h = cc

-- What an edge says of the record's state and of the event.
abbrev pub Facts : TransitionKind → JobState → Option TerminalOutcome → Option String → Type 0
Facts claim_execution s o c = (s ≡ pending) × (o ≡ none) × (c ≡ none)
Facts close_pending s o c =
    (s ≡ pending) × (is_closed o ≡ true) × (x : String) × (c ≡ some x) × (safe_id x ≡ true)
Facts complete_execution s o c =
    (s ≡ running) × (is_executed o ≡ true) × (x : String) × (c ≡ some x) × (safe_id x ≡ true)
Facts mark_unknown s o c =
    (s ≡ running) × (o ≡ none) × (x : String) × (c ≡ some x) × (safe_id x ≡ true)
Facts reconcile_unknown s o c =
    (s ≡ unknown) × (is_executed o ≡ true) × (x : String) × (c ≡ some x) × (safe_id x ≡ true)

pub Facts-Edge :
    {s : JobState} {k : TransitionKind} {o : Option TerminalOutcome} {c : Option String}
    → Edge s k o c
    → Facts k s o c
Facts-Edge claim = (refl, refl, refl)
Facts-Edge (close {reason = x} p q) = (refl, p, x, refl, q)
Facts-Edge (complete {reason = x} p q) = (refl, p, x, refl, q)
Facts-Edge (lose {reason = x} q) = (refl, refl, x, refl, q)
Facts-Edge (reconcile {reason = x} p q) = (refl, p, x, refl, q)
