-- ===== src/Prelude/Actions.antt =====
-- Code that changes a state and may raise: what was written before a raise stays in the state.
use mathlib.Core.Path.{◌≡◌, refl, sym, ap, subst, ◌∙◌}
use agent_runtime_ops.Prelude.Results.{Result, ok, err}

abbrev pub Action : Type 0 → Type 0 → Type 0
Action S A = S → Result A × S

-- What follows a statement that left the state: an exception skips it.
abbrev pub after : {S A B : Type 0} → Result A → (A → Action S B) → Action S B
after (ok a) k s = k a s
after (err e) k s = (err e, s)

infixl 5 ◌>>=◌ ◌>>◌
unfoldable pub ◌>>=◌ : {S A B : Type 0} → Action S A → (A → Action S B) → Action S B
◌>>=◌ m k s = after (m s).0 k (m s).1

abbrev pub ◌>>◌ : {S A B : Type 0} → Action S A → Action S B → Action S B
m >> k = m >>= λ _. k

module _ {S : Type 0} where
  unfoldable pub pure : {A : Type 0} → A → Action S A
  pure a s = (ok a, s)

  -- Code that does not look at the state.
  unfoldable pub lift : {A : Type 0} → Result A → Action S A
  lift r s = (r, s)

  -- Code that reads the state.
  unfoldable pub reads : {A : Type 0} → (S → Result A) → Action S A
  reads f s = (f s, s)

  unfoldable pub writes : (S → S) → Action S (Unit {0})
  writes f s = (ok tt, f s)

module _ {S A B : Type 0} where
  split_after :
      (r : Result A × S) (k : A → Action S B) (s' : S) (b : B)
      → after r.0 k r.1 ≡ (ok b, s')
      → (a : A) × (mid : S) × (r ≡ (ok a, mid)) × (k a mid ≡ (ok b, s'))
  split_after (ok a, mid) k s' b h = (a, mid, refl, h)
  split_after (err e, mid) k s' b h = cc

  -- What a chain that returns has gone through.
  pub >>=-returns :
      (m : Action S A) (k : A → Action S B) (s s' : S) (b : B)
      → (m >>= k) s ≡ (ok b, s')
      → (a : A) × (mid : S) × (m s ≡ (ok a, mid)) × (k a mid ≡ (ok b, s'))
  unfolding ◌>>=◌
  >>=-returns m k s s' b h = split_after (m s) k s' b h

-- What a chain that returns has gone through, statement by statement: each rule gives what the
-- statement found, and the state that the rest began with.
module _ {ℓ} {S A B : Type 0} {C : Type ℓ} where
  pub from_read :
      (f : S → Result A) (k : A → Action S B) (s s' : S) (b : B)
      → (reads f >>= k) s ≡ (ok b, s')
      → ((a : A) → f s ≡ ok a → k a s ≡ (ok b, s') → C)
      → C
  unfolding ◌>>=◌ reads
  from_read f k s s' b h go =
      let (a, mid, p, q) = split_after (f s, s) k s' b h in
      go a (ap (λ (x : Result A × S). x.0) p)
        (subst (λ at. k a at ≡ (ok b, s')) (sym (ap (λ (x : Result A × S). x.1) p)) q)

  pub from_check :
      (r : Result A) (k : A → Action S B) (s s' : S) (b : B)
      → (lift r >>= k) s ≡ (ok b, s')
      → ((a : A) → r ≡ ok a → k a s ≡ (ok b, s') → C)
      → C
  unfolding ◌>>=◌ lift
  from_check r k s s' b h go =
      let (a, mid, p, q) = split_after (r, s) k s' b h in
      go a (ap (λ (x : Result A × S). x.0) p)
        (subst (λ at. k a at ≡ (ok b, s')) (sym (ap (λ (x : Result A × S). x.1) p)) q)

  pub from_action :
      (m : Action S A) (k : A → Action S B) (s s' : S) (b : B)
      → (m >>= k) s ≡ (ok b, s')
      → ((a : A) (mid : S) → m s ≡ (ok a, mid) → k a mid ≡ (ok b, s') → C)
      → C
  from_action m k s s' b h go = let (a, mid, p, q) = >>=-returns m k s s' b h in go a mid p q

pub from_pure {ℓ} :
    {S A : Type 0} {C : Type ℓ} (a b : A) (s s' : S)
    → pure a s ≡ (ok b, s')
    → (a ≡ b → s ≡ s' → C)
    → C
unfolding pure
from_pure {S = S} {A = A} a b s s' h go =
    let e : Result.ok a ≡ ok b = ap (λ (x : Result A × S). x.0) h in
    let same : a ≡ b = cc in go same (ap (λ (x : Result A × S). x.1) h)

-- A relation between the states before and after an action that returns.
pub record Ensures {S A : Type 0} (R : S → S → Type 0) (m : Action S A) : Type 0 where
  pub between : (s s' : S) (a : A) → m s ≡ (ok a, s') → R s s'

-- A preorder on states holds of a chain if it holds of its statements.
module _ {S : Type 0} {R : S → S → Type 0} (R_trans : (s t u : S) → R s t → R t u → R s u) where
  pub chain-Ensures :
      {A B : Type 0} (m : Action S A) (k : A → Action S B)
      → Ensures R m
      → ((a : A) → Ensures R (k a))
      → Ensures R (m >>= k)
  chain-Ensures m k hm hk = record {
    between = λ s s' b h.
        let (a, mid, p, q) = >>=-returns m k s s' b h in
        R_trans s mid s' (hm.between s mid a p) ((hk a).between mid s' b q);
  }

module _ {S : Type 0} {R : S → S → Type 0} (R_refl : (s : S) → R s s) where
  pub still-Ensures : {A : Type 0} (m : Action S A) → ((s : S) → (m s).1 ≡ s) → Ensures R m
  still-Ensures {A = A} m h = record {
    between = λ s s' a q. subst (R s) (sym (h s) ∙ ap (λ (x : Result A × S). x.1) q) (R_refl s);
  }

  pub reads-Ensures : {A : Type 0} (f : S → Result A) → Ensures R (reads f)
  unfolding reads
  reads-Ensures f = still-Ensures (reads f) λ s. refl

  pub lift-Ensures : {A : Type 0} (r : Result A) → Ensures R (lift {S = S} r)
  unfolding lift
  lift-Ensures r = still-Ensures (lift r) λ s. refl

  pub pure-Ensures : {A : Type 0} (a : A) → Ensures R (pure {S = S} a)
  unfolding pure
  pure-Ensures a = still-Ensures (pure a) λ s. refl

-- What a chain comes to, statement by statement.
module _ {S A B : Type 0} (k : A → Action S B) (a : A) (r : Result B × S) where
  pub read-runs : (f : S → Result A) (s : S) → f s ≡ ok a → k a s ≡ r → (reads f >>= k) s ≡ r
  unfolding ◌>>=◌ reads
  read-runs f s h g = rw h g

  pub check-runs : (m : Result A) (s : S) → m ≡ ok a → k a s ≡ r → (lift m >>= k) s ≡ r
  unfolding ◌>>=◌ lift
  check-runs m s h g = rw h g

  pub action-runs : (m : Action S A) (s mid : S) → m s ≡ (ok a, mid) → k a mid ≡ r → (m >>= k) s ≡ r
  unfolding ◌>>=◌
  action-runs m s mid h g = rw h g
