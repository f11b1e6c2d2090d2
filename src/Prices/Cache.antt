-- ===== src/Prices/Cache.antt =====
-- apps/server/src/inventory/price-reader.ts: what a cache holds after `remember`.
use steam_bee.Common.{
  ℕ, ◌≤◌, ◌<◌, ◌≡◌, refl, false, none, some, List, [], ◌∷◌, ◌==◌, length, arith, subst, Bool-cases,
  ==_iff, ◌⊎◌, inl, inr,
}
use steam_bee.Common.Maps.{
  lookup, insert, delete, lookup-insert, lookup-delete, Absent, Distinct, lookup-Absent,
  Distinct-insert, Absent-delete, length-insert-le, length-delete-le,
}
use steam_bee.Prices.{drop_oldest, remember}

module _ {ℓ} {V : Type ℓ} where
  -- The new entry is there, the limit is kept, and another entry is there as before or was dropped, which
  -- no entry is while there is room.
  pub record IsRemembered (key : ℕ) (value : V) (limit : ℕ) (cache after : List (ℕ × V))
      : Type ℓ where
    pub found : lookup key after ≡ some value
    pub bounded : length after ≤ limit
    pub others :
        (k : ℕ) → (k == key) ≡ false → (lookup k after ≡ lookup k cache) ⊎ (lookup k after ≡ none)
    pub room : (k : ℕ) → (k == key) ≡ false → length cache < limit → lookup k after ≡ lookup k cache

  drop_oldest-le : (limit : ℕ) (m : List (ℕ × V)) → length (drop_oldest limit m) ≤ limit
  unfolding drop_oldest
  drop_oldest-le limit [] = omega arith
  drop_oldest-le limit (e ∷ m) = ground (arith, drop_oldest-le limit m)

  drop_oldest-room : (limit : ℕ) (m : List (ℕ × V)) → length m ≤ limit → drop_oldest limit m ≡ m
  unfolding drop_oldest
  drop_oldest-room limit [] l = refl
  drop_oldest-room limit (e ∷ m) l = ground (arith, l)

  lookup-drop_oldest :
      (limit k : ℕ) (m : List (ℕ × V))
      → Distinct m
      → (lookup k (drop_oldest limit m) ≡ lookup k m) ⊎ (lookup k (drop_oldest limit m) ≡ none)
  unfolding drop_oldest lookup
  lookup-drop_oldest limit k [] d = inl refl
  lookup-drop_oldest limit k ((j, u) ∷ m) d =
      let ih = lookup-drop_oldest limit k m d.1 in
      elim (Bool-cases (j == k)) [
        | inl same ↦
            let gone : lookup k m ≡ none =
              subst (λ i. lookup i m ≡ none) ((==_iff j k).0 same) (lookup-Absent j m d.0) in
            ground (arith, ih, gone, same)
        | inr other ↦ ground (arith, ih, other)
      ]

  found-drop_oldest :
      (limit key : ℕ) (value : V) (m : List (ℕ × V))
      → 0 < limit
      → Absent key m
      → lookup key (drop_oldest limit (insert key value m)) ≡ some value
  unfolding drop_oldest lookup insert
  found-drop_oldest limit key value [] l a = ground (arith, l)
  found-drop_oldest limit key value ((j, u) ∷ m) l a =
      let apart : (j == key) ≡ false = ground (arith, a.0) in
      let behind = lookup-insert key key value m in
      rw apart (ground (arith, found-drop_oldest limit key value m l a.1, behind, apart))

  delete-Absent : (j k : ℕ) (m : List (ℕ × V)) → Absent j m → Absent j (delete k m)
  unfolding delete
  delete-Absent j k [] a = tt
  delete-Absent j k ((i, u) ∷ m) a = ground (arith, a.0, delete-Absent j k m a.1)

  Distinct-delete : (k : ℕ) (m : List (ℕ × V)) → Distinct m → Distinct (delete k m)
  unfolding delete
  Distinct-delete k [] d = d
  Distinct-delete k ((j, u) ∷ m) d =
      ground (arith, delete-Absent j k m d.0, Distinct-delete k m d.1)

  -- After a value is remembered in a cache of at least one entry whose keys are distinct, its key holds it,
  -- the limit is kept, and each other key holds what it held or nothing, the latter only when the cache
  -- was full.
  pub remember-IsRemembered :
      (key : ℕ) (value : V) (limit : ℕ) (cache : List (ℕ × V))
      → 0 < limit
      → Distinct cache
      → IsRemembered key value limit cache (remember key value limit cache)
  unfolding remember
  remember-IsRemembered key value limit cache l d =
      let without = delete key cache in
      let m = insert key value without in
      let elsewhere : (k : ℕ) → (k == key) ≡ false → lookup k m ≡ lookup k cache =
        λ k e. ground (arith, e, lookup-insert key k value without, lookup-delete key k cache) in
      record {
        found = found-drop_oldest limit key value without l (Absent-delete key cache);
        bounded = drop_oldest-le limit m;
        others = λ k e. ground (
          arith,
          elsewhere k e,
          lookup-drop_oldest limit k m
              (Distinct-insert key value without (Distinct-delete key cache d)),
        );
        room = λ k e r.
            let short : length m ≤ limit =
              omega (arith, r, length-insert-le key value without, length-delete-le key cache) in
            rw (drop_oldest-room limit m short) (elsewhere k e);
      }
