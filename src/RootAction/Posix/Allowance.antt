-- ===== src/RootAction/Posix/Allowance.antt =====
-- The registrations that the bootstrap sessions of posix_store.py still allow.
use agent_runtime_ops.Prelude.{
  ℕ, ◌+◌, ◌≤◌, ◌≡◌, refl, Bool, true, false, List, [], ◌∷◌, ◌++◌, arith, if◌then◌else◌, Bool-cases,
  inl, inr,
}
use agent_runtime_ops.Prelude.Lists.{length}
use agent_runtime_ops.RootAction.Authorization.{BootstrapSession, is_issued}
use agent_runtime_ops.RootAction.Posix.{count_rows, update_rows}
use agent_runtime_ops.RootAction.Posix.Bootstrap.{is_empty}
use agent_runtime_ops.RootAction.Posix.Registration.{same_counter, counted_down}

-- The registrations that a session still allows.
abbrev pub allowed : BootstrapSession → ℕ
allowed b = if is_issued b.state then b.remaining_registrations else 0

unfoldable pub allowance : List BootstrapSession → ℕ
allowance [] = 0
allowance (b ∷ bs) = allowed b + allowance bs

pub allowance-append :
    (bs : List BootstrapSession) (b : BootstrapSession)
    → allowance (bs ++ b ∷ []) ≡ allowance bs + allowed b
unfolding allowance
allowance-append [] b = omega arith
allowance-append (x ∷ bs) b = omega (arith, allowance-append bs b)

pub length-update_rows :
    {A : Type 0} (picks : A → Bool) (change : A → A) (xs : List A)
    → length (update_rows picks change xs) ≡ length xs
unfolding update_rows
length-update_rows picks change [] = refl
length-update_rows picks change (x ∷ xs) = omega (arith, length-update_rows picks change xs)

-- A count that is taken down by one.
allowed-counted_down :
    (b x : BootstrapSession)
    → 1 ≤ b.remaining_registrations
    → same_counter b x ≡ true
    → allowed (counted_down b x) + 1 ≡ allowed x
allowed-counted_down b x h p = ground arith

pub allowance-count_down :
    (b : BootstrapSession) (bs : List BootstrapSession)
    → 1 ≤ b.remaining_registrations
    → allowance (update_rows (same_counter b) (counted_down b) bs) + count_rows (same_counter b) bs
      ≡ allowance bs
unfolding allowance update_rows count_rows
allowance-count_down b [] h = refl
allowance-count_down b (x ∷ bs) h = elim (Bool-cases (same_counter b x)) [
  | inl t ↦ rw t (omega (arith, allowed-counted_down b x h t, allowance-count_down b bs h))
  | inr f ↦ rw f (omega (arith, allowance-count_down b bs h))
]

-- Something was counted, so there was a row, and there still is.
pub counted_rows :
    {A : Type 0} (picks : A → Bool) (change : A → A) (xs : List A)
    → count_rows picks xs ≡ 1
    → is_empty (update_rows picks change xs) ≡ false
unfolding count_rows update_rows
counted_rows picks change [] h = cc
counted_rows picks change (x ∷ xs) h = refl

pub added_row : {A : Type 0} (xs : List A) (x : A) → is_empty (xs ++ x ∷ []) ≡ false
added_row [] x = refl
added_row (y ∷ xs) x = refl
