-- ===== src/RootAction/Posix/Rows.antt =====
-- The rows that a query finds after rows were added or updated.
use agent_runtime_ops.Prelude.{
  ◌≡◌, refl, Bool, true, false, none, some, List, [], ◌∷◌, ◌++◌, if◌then◌else◌, arith,
}
use agent_runtime_ops.Prelude.Lists.{any}
use agent_runtime_ops.RootAction.Posix.{fetch_one, fetch_all, update_rows}

module _ {A : Type 0} where
  -- A row stays the first of its key when others are added.
  pub fetch_one-append :
      (test : A → Bool) (xs ys : List A) (x : A)
      → fetch_one test xs ≡ some x
      → fetch_one test (xs ++ ys) ≡ some x
  unfolding fetch_one
  fetch_one-append test [] ys x h = cc
  fetch_one-append test (z ∷ xs) ys x h = ground (arith, fetch_one-append test xs ys x)

  -- A row that is added under a key that none has is found.
  pub fetch_one-added :
      (test : A → Bool) (xs : List A) (x : A)
      → fetch_one test xs ≡ none
      → test x ≡ true
      → fetch_one test (xs ++ x ∷ []) ≡ some x
  unfolding fetch_one
  fetch_one-added test [] x h t = ground arith
  fetch_one-added test (z ∷ xs) x h t = ground (arith, fetch_one-added test xs x)

  -- What an update makes of the row that a query finds, if it keeps the row's key.
  pub fetch_one-update :
      (test picks : A → Bool) (change : A → A)
      → ((x : A) → test (change x) ≡ test x)
      → (xs : List A) (x : A) → fetch_one test xs ≡ some x
      → fetch_one test (update_rows picks change xs) ≡ some (if picks x then change x else x)
  unfolding fetch_one update_rows
  fetch_one-update test picks change k [] x h = cc
  fetch_one-update test picks change k (z ∷ xs) x h =
      ground (arith, k z, fetch_one-update test picks change k xs x)

  pub fetch_one-test :
      (test : A → Bool) (xs : List A) (x : A) → fetch_one test xs ≡ some x → test x ≡ true
  unfolding fetch_one
  fetch_one-test test [] x h = cc
  fetch_one-test test (z ∷ xs) x h = ground (arith, fetch_one-test test xs x)

  -- Rows under other keys do not change what a query finds.
  pub fetch_one-other :
      (test : A → Bool) (xs : List A) (x : A)
      → test x ≡ false
      → fetch_one test (xs ++ x ∷ []) ≡ fetch_one test xs
  unfolding fetch_one
  fetch_one-other test [] x h = ground arith
  fetch_one-other test (z ∷ xs) x h = ground (arith, fetch_one-other test xs x h)

  pub fetch_one-update_none :
      (test picks : A → Bool) (change : A → A)
      → ((x : A) → test (change x) ≡ test x)
      → (xs : List A) → fetch_one test xs ≡ none
      → fetch_one test (update_rows picks change xs) ≡ none
  unfolding fetch_one update_rows
  fetch_one-update_none test picks change k [] h = refl
  fetch_one-update_none test picks change k (z ∷ xs) h =
      ground (arith, k z, fetch_one-update_none test picks change k xs)

  pub fetch_one-none :
      (test : A → Bool) (xs : List A) → any test xs ≡ false → fetch_one test xs ≡ none
  unfolding fetch_one any
  fetch_one-none test [] h = refl
  fetch_one-none test (z ∷ xs) h = ground (arith, fetch_one-none test xs)

  pub fetch_all-added :
      (test : A → Bool) (xs : List A) (x : A)
      → test x ≡ true
      → fetch_all test (xs ++ x ∷ []) ≡ fetch_all test xs ++ x ∷ []
  unfolding fetch_all
  fetch_all-added test [] x h = ground arith
  fetch_all-added test (z ∷ xs) x h = ground (arith, fetch_all-added test xs x h)

  pub fetch_all-other :
      (test : A → Bool) (xs : List A) (x : A)
      → test x ≡ false
      → fetch_all test (xs ++ x ∷ []) ≡ fetch_all test xs
  unfolding fetch_all
  fetch_all-other test [] x h = ground arith
  fetch_all-other test (z ∷ xs) x h = ground (arith, fetch_all-other test xs x h)
