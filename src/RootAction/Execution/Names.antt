-- ===== src/RootAction/Execution/Names.antt =====
-- The names that sorting, sets and dictionaries hold.
use agent_runtime_ops.Prelude.{
  ◌≡◌, refl, String, Bool, true, ◌||◌, List, [], ◌∷◌, ◌==◌, eq_iff, arith,
}
use agent_runtime_ops.Prelude.Lists.{all}
use agent_runtime_ops.Prelude.Dict.{Dict, lookup, has}
use agent_runtime_ops.RootAction.Json.{contains, same_set}
use agent_runtime_ops.RootAction.Store.Transitions.{dict_keys, insert_sorted, sort_by}

module _ (before : String → String → Bool) where
  contains-insert_sorted :
      (k x : String) (xs : List String)
      → contains k (insert_sorted before x xs) ≡ (x == k || contains k xs)
  unfolding insert_sorted contains
  contains-insert_sorted k x [] = refl
  contains-insert_sorted k x (y ∷ ys) = ground (arith, contains-insert_sorted k x ys)

  pub contains-sort_by :
      (k : String) (xs : List String) → contains k (sort_by before xs) ≡ contains k xs
  unfolding sort_by contains
  contains-sort_by k [] = refl
  contains-sort_by k (x ∷ xs) =
      ground (arith, contains-insert_sorted k x (sort_by before xs), contains-sort_by k xs)

pub has-contains : {V : Type 0} (k : String) (d : Dict V) → has k d ≡ contains k (dict_keys d)
unfolding lookup dict_keys contains
has-contains k [] = refl
has-contains k ((j, v) ∷ d) = ground (arith, has-contains k d)

all-contains :
    (p : String → Bool) (k : String) (xs : List String)
    → all p xs ≡ true
    → contains k xs ≡ true
    → p k ≡ true
unfolding all contains
all-contains p k [] h i = cc
all-contains p k (x ∷ xs) h i = ground (arith, eq_iff x k, all-contains p k xs)

pub same_set-contains :
    (k : String) (xs ys : List String) → same_set xs ys ≡ true → contains k xs ≡ contains k ys
unfolding same_set
same_set-contains k xs ys h =
    ground (arith, all-contains (λ x. contains x ys) k xs, all-contains (λ y. contains y xs) k ys)
