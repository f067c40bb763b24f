-- ===== src/RootAction/Store/Numbered.antt =====
-- The sequence numbers of a ledger.
use agent_runtime_ops.Prelude.{ℕ, ◌≤◌, ◌<◌, List, [], ◌∷◌, ◌++◌, arith}
use agent_runtime_ops.RootAction.Admission.{LedgerEntry}

-- The sequence numbers rise from above `a`, and none is above `b`.
abbrev pub Numbered : ℕ → List LedgerEntry → ℕ → Type 0
Numbered a [] b = a ≤ b
Numbered a (x ∷ xs) b = (a < x.sequence) × Numbered x.sequence xs b

pub Numbered-append :
    (a b n : ℕ) (es : List LedgerEntry) (x : LedgerEntry)
    → b < x.sequence
    → x.sequence ≤ n
    → Numbered a es b
    → Numbered a (es ++ x ∷ []) n
Numbered-append a b n [] x h k p = (omega arith, k)
Numbered-append a b n (y ∷ es) x h k (p, q) = (p, Numbered-append y.sequence b n es x h k q)

pub Numbered-le : (a b c : ℕ) (es : List LedgerEntry) → b ≤ c → Numbered a es b → Numbered a es c
Numbered-le a b c [] h p = omega arith
Numbered-le a b c (y ∷ es) h (p, q) = (p, Numbered-le y.sequence b c es h q)

-- The numbers before the last entry lie below its number.
pub Numbered-init :
    (a b : ℕ) (es : List LedgerEntry) (x : LedgerEntry)
    → Numbered a (es ++ x ∷ []) b
    → (c : ℕ) × Numbered a es c × (c < x.sequence) × (x.sequence ≤ b)
Numbered-init a b [] x (p, q) = (a, (omega arith), p, q)
Numbered-init a b (y ∷ es) x (p, q) =
    let (c, k, l, m) = Numbered-init y.sequence b es x q in (c, (p, k), l, m)
