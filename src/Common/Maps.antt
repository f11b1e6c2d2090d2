-- ===== src/Common/Maps.antt =====
-- JavaScript's `Map` as an association list in insertion order. Keys are identifiers, which the
-- program only compares.
use Prim.Native.Nat.{ℕ, ◌+◌, ◌≤◌}
use mathlib.Core.Path.{◌≡◌, refl, subst}
use mathlib.Core.Logic.{◌≢◌, inl, inr}
use mathlib.Core.Bool.{Bool, true}
use mathlib.Core.Option.{Option, none, some}
use mathlib.Core.List.{List, [], ◌∷◌}
use native.Mathlib.Omega.{arith}
use steam_bee.Common.Tests.{Bool-cases, ==_iff, ◌==◌, if◌then◌else◌}
use steam_bee.Common.Lists.{length}

module _ {ℓ} {V : Type ℓ} where
  unfoldable pub lookup : ℕ → List (ℕ × V) → Option V
  lookup key [] = none
  lookup key ((j, value) ∷ entries) =
      let behind = lookup key entries in if j == key then some value else behind

  unfoldable pub insert : ℕ → V → List (ℕ × V) → List (ℕ × V)
  insert k v [] = (k, v) ∷ []
  insert k v ((j, u) ∷ m) = let rest = insert k v m in if j == k then (k, v) ∷ m else (j, u) ∷ rest

  -- `delete` of every key whose value fails the test, and of one key.
  unfoldable pub retain : (V → Bool) → List (ℕ × V) → List (ℕ × V)
  retain p [] = []
  retain p ((j, v) ∷ m) = let rest = retain p m in if p v then (j, v) ∷ rest else rest

  unfoldable pub delete : ℕ → List (ℕ × V) → List (ℕ × V)
  delete k [] = []
  delete k ((j, v) ∷ m) = let rest = delete k m in if j == k then rest else (j, v) ∷ rest

  pub lookup-insert :
      (k j : ℕ) (v : V) (m : List (ℕ × V))
      → lookup j (insert k v m) ≡ (if k == j then some v else lookup j m)
  unfolding lookup insert
  lookup-insert k j v [] = refl
  lookup-insert k j v ((i, u) ∷ m) = ground (arith, lookup-insert k j v m)

  pub lookup-delete :
      (k j : ℕ) (m : List (ℕ × V)) → lookup j (delete k m) ≡ (if k == j then none else lookup j m)
  unfolding lookup delete
  lookup-delete k j [] = ground arith
  lookup-delete k j ((i, u) ∷ m) = ground (arith, lookup-delete k j m)

  -- What a lookup finds in a filtered map passes the test.
  pub lookup-retain :
      (p : V → Bool) (k : ℕ) (m : List (ℕ × V)) (v : V)
      → lookup k (retain p m) ≡ some v
      → p v ≡ true
  unfolding lookup retain
  lookup-retain p k [] v h = cc
  lookup-retain p k ((j, u) ∷ m) v h = ground (arith, lookup-retain p k m v)

  pub length-retain-le : (p : V → Bool) (m : List (ℕ × V)) → length (retain p m) ≤ length m
  unfolding retain
  length-retain-le p [] = omega arith
  length-retain-le p ((j, u) ∷ m) = ground (arith, length-retain-le p m)

  pub length-insert-le : (k : ℕ) (v : V) (m : List (ℕ × V)) → length (insert k v m) ≤ length m + 1
  unfolding insert
  length-insert-le k v [] = omega arith
  length-insert-le k v ((j, u) ∷ m) = ground (arith, length-insert-le k v m)

  pub length-delete-le : (k : ℕ) (m : List (ℕ × V)) → length (delete k m) ≤ length m
  unfolding delete
  length-delete-le k [] = omega arith
  length-delete-le k ((j, u) ∷ m) = ground (arith, length-delete-le k m)

  abbrev pub Absent : ℕ → List (ℕ × V) → Type 0
  Absent k [] = Unit
  Absent k ((j, v) ∷ m) = (j ≢ k) × Absent k m

  -- No key stands twice, as in a `Map`.
  abbrev pub Distinct : List (ℕ × V) → Type 0
  Distinct [] = Unit
  Distinct ((j, v) ∷ m) = Absent j m × Distinct m

  pub lookup-Absent : (k : ℕ) (m : List (ℕ × V)) → Absent k m → lookup k m ≡ none
  unfolding lookup
  lookup-Absent k [] h = refl
  lookup-Absent k ((j, v) ∷ m) h = ground (arith, lookup-Absent k m h.1)

  pub Absent-retain : (p : V → Bool) (k : ℕ) (m : List (ℕ × V)) → Absent k m → Absent k (retain p m)
  unfolding retain
  Absent-retain p k [] h = tt
  Absent-retain p k ((j, v) ∷ m) h = ground (arith, Absent-retain p k m h.1)

  Absent-insert :
      (k i : ℕ) (v : V) (m : List (ℕ × V)) → i ≢ k → Absent k m → Absent k (insert i v m)
  unfolding insert
  Absent-insert k i v [] d h = (d, tt)
  Absent-insert k i v ((j, u) ∷ m) d h = ground (arith, Absent-insert k i v m d h.1)

  pub Distinct-retain : (p : V → Bool) (m : List (ℕ × V)) → Distinct m → Distinct (retain p m)
  unfolding retain
  Distinct-retain p [] h = tt
  Distinct-retain p ((j, v) ∷ m) h =
      ground (arith, Absent-retain p j m h.0, Distinct-retain p m h.1)

  pub Distinct-insert : (k : ℕ) (v : V) (m : List (ℕ × V)) → Distinct m → Distinct (insert k v m)
  unfolding insert
  Distinct-insert k v [] h = (tt, tt)
  Distinct-insert k v ((j, u) ∷ m) h = elim (Bool-cases (j == k)) [
    | inl same ↦ rw same (subst (λ i. Absent i m) ((==_iff j k).0 same) h.0, h.1)
    | inr other ↦
        rw other (Absent-insert j k v m (λ e. ground arith) h.0, Distinct-insert k v m h.1)
  ]

  -- Where the keys are distinct, a filtered map finds nothing that the map did not.
  pub lookup-retain_of :
      (p : V → Bool) (k : ℕ) (m : List (ℕ × V)) (v : V)
      → Distinct m
      → lookup k (retain p m) ≡ some v
      → lookup k m ≡ some v
  unfolding lookup retain
  lookup-retain_of p k [] v d h = h
  lookup-retain_of p k ((j, u) ∷ m) v d h =
      ground (
        arith,
        lookup-retain_of p k m v d.1,
        lookup-Absent j (retain p m) (Absent-retain p j m d.0),
      )

  pub length-insert-eq :
      (k : ℕ) (v : V) (m : List (ℕ × V)) {u : V}
      → lookup k m ≡ some u
      → length (insert k v m) ≡ length m
  unfolding lookup insert
  length-insert-eq k v [] h = cc
  length-insert-eq k v ((j, w) ∷ m) {u} h = ground (arith, length-insert-eq k v m {u = u})

  pub Absent-delete : (k : ℕ) (m : List (ℕ × V)) → Absent k (delete k m)
  unfolding delete
  Absent-delete k [] = tt
  Absent-delete k ((j, v) ∷ m) = ground (arith, Absent-delete k m)
