-- ===== src/Notices/Rows.antt =====
-- apps/server/src/notifications/dispatcher.ts: what updates, inserts and deletes leave of the rows.
use steam_bee.Common.{
  ℕ, ◌≡◌, refl, sym, ap, subst, ◌∙◌, Bool, true, false, Option, none, some, List, [], ◌∷◌, arith,
  ◌==◌, if◌then◌else◌, if-intro, Option-cases, Bool-cases, ◌⊎◌, inl, inr,
}
use steam_bee.Common.Maps.{lookup, insert, retain, lookup-insert}
use steam_bee.Notices.{Delivery, Rule, includes, update_delivery, update_rule, has_revision}
use steam_bee.Notices.Requests.{keys}

-- No key occurs twice.
abbrev pub IsKeyed : List (ℕ × Delivery) → Type 0
IsKeyed [] = Unit
IsKeyed ((j, v) ∷ m) = (lookup j m ≡ none) × IsKeyed m

insert-none :
    (k j : ℕ) (v : Delivery) (m : List (ℕ × Delivery))
    → (k == j) ≡ false
    → lookup j m ≡ none
    → lookup j (insert k v m) ≡ none
insert-none k j v m e h = rw (lookup-insert k j v m) (ground (arith, e, h))

pub insert-IsKeyed :
    (k : ℕ) (v : Delivery) (m : List (ℕ × Delivery)) → IsKeyed m → IsKeyed (insert k v m)
unfolding insert lookup
insert-IsKeyed k v [] h = (refl, tt)
insert-IsKeyed k v ((j, u) ∷ m) h =
    if-intro IsKeyed (j == k)
      (λ e.
        let same_key : j ≡ k = ground (arith, e) in
        subst (λ i. (lookup i m ≡ none) × IsKeyed m) same_key h)
      (λ e. (insert-none k j v m (ground (arith, e)) h.0, insert-IsKeyed k v m h.1))

retain-none :
    (p : Delivery → Bool) (k : ℕ) (m : List (ℕ × Delivery))
    → lookup k m ≡ none
    → lookup k (retain p m) ≡ none
unfolding retain lookup
retain-none p k [] h = refl
retain-none p k ((j, u) ∷ m) h = ground (arith, h, retain-none p k m)

pub retain-IsKeyed :
    (p : Delivery → Bool) (m : List (ℕ × Delivery)) → IsKeyed m → IsKeyed (retain p m)
unfolding retain
retain-IsKeyed p [] h = tt
retain-IsKeyed p ((j, u) ∷ m) h =
    if-intro IsKeyed (p u) (λ e. (retain-none p j m h.0, retain-IsKeyed p m h.1))
      (λ e. retain-IsKeyed p m h.1)

-- What a lookup finds among the rows that are kept.
pub lookup-retained :
    (p : Delivery → Bool) (k : ℕ) (m : List (ℕ × Delivery)) (v : Delivery)
    → IsKeyed m
    → lookup k (retain p m) ≡ some v
    → (lookup k m ≡ some v) × (p v ≡ true)
unfolding retain lookup
lookup-retained p k [] v h e = cc
lookup-retained p k ((j, u) ∷ m) v h e =
    ground (arith, e, h.0, lookup-retained p k m v h.1, retain-none p k m)

absent_key :
    (p : Delivery → Bool) (k : ℕ) (m : List (ℕ × Delivery))
    → lookup k m ≡ none
    → includes k (keys (retain p m)) ≡ false
unfolding retain lookup
absent_key p k [] h = refl
absent_key p k ((j, u) ∷ m) h = ground (arith, h, absent_key p k m)

value_or : Delivery → Option Delivery → Delivery
value_or d none = d
value_or d (some x) = x

pub same_value : (u v : Delivery) → some u ≡ some v → u ≡ v
unfolding value_or
same_value u v e = ap (value_or v) e

-- What a lookup finds of a row whose key is kept.
pub lookup-key :
    (p : Delivery → Bool) (k : ℕ) (m : List (ℕ × Delivery)) (v : Delivery)
    → IsKeyed m
    → includes k (keys (retain p m)) ≡ true
    → lookup k m ≡ some v
    → p v ≡ true
unfolding retain lookup
lookup-key p k [] v h i e = cc
lookup-key p k ((j, u) ∷ m) v h i e = elim (Bool-cases (j == k)) [
  | inl t ↦
      let same_key : j ≡ k = ground (arith, t) in
      let absent = absent_key p k m (subst (λ i. lookup i m ≡ none) same_key h.0) in
      let same : u ≡ v = same_value u v (ground (arith, t, e)) in
      subst (λ x. p x ≡ true) same (ground (arith, i, absent))
  | inr f ↦ lookup-key p k m v h.1 (ground (arith, i, f)) (ground (arith, e, f))
]

same_lookup : (i j : ℕ) (m : List (ℕ × Delivery)) → (i == j) ≡ true → lookup i m ≡ lookup j m
same_lookup i j m t = let same_key : i ≡ j = ground (arith, t) in ap (λ k. lookup k m) same_key

-- A row after an update: as it was, and not one that the update is for, or what the update makes of it.
abbrev pub IsUpdated : ℕ → ℕ → (Delivery → Delivery) → List (ℕ × Delivery) → ℕ → Delivery → Type 0
IsUpdated id revision f m j v =
    ((lookup j m ≡ some v) × ((id == j) ≡ true → (v.rule_revision == revision) ≡ false))
    ⊎ (((id == j) ≡ true)
        × (u : Delivery) × (lookup j m ≡ some u)
        × ((u.rule_revision == revision) ≡ true)
        × (v ≡ f u))

inserted-IsUpdated :
    (id revision : ℕ) (f : Delivery → Delivery) (m : List (ℕ × Delivery)) (j : ℕ) (u v : Delivery)
    → lookup id m ≡ some u
    → (u.rule_revision == revision) ≡ true
    → lookup j (insert id (f u) m) ≡ some v
    → IsUpdated id revision f m j v
inserted-IsUpdated id revision f m j u v g t e = elim (Bool-cases (id == j)) [
  | inl s ↦
      let found = sym (lookup-insert id j (f u) m) ∙ e in
      let same =
        same_value (f u) v (subst (λ b. (if b then some (f u) else lookup j m) ≡ some v) s found) in
      inr (s, u, sym (same_lookup id j m s) ∙ g, t, sym same)
  | inr s ↦
      let found = sym (lookup-insert id j (f u) m) ∙ e in
      inl (
        subst (λ b. (if b then some (f u) else lookup j m) ≡ some v) s found,
        λ t. ground (arith, s, t),
      )
]

pub lookup-update_delivery :
    (id revision : ℕ) (f : Delivery → Delivery) (m : List (ℕ × Delivery)) (j : ℕ) (v : Delivery)
    → lookup j (update_delivery id revision f m) ≡ some v
    → IsUpdated id revision f m j v
unfolding update_delivery
lookup-update_delivery id revision f m j v = elim (Option-cases (lookup id m)) [
  | inl n ↦ rw (update_delivery, n) (λ e. inl (e, λ t. ground (arith, n, e, t, same_lookup id j m)))
  | inr (u, g) ↦
      rw (update_delivery, g)
        (if-intro (λ (r : List (ℕ × Delivery)). lookup j r ≡ some v → IsUpdated id revision f m j v)
          (u.rule_revision == revision) (λ t e. inserted-IsUpdated id revision f m j u v g t e)
          (λ t e. inl (
            e,
            λ s.
                let same = same_value u v (sym g ∙ same_lookup id j m s ∙ e) in
                subst (λ (x : Delivery). (x.rule_revision == revision) ≡ false) same t,
          )))
]

pub update_delivery-IsKeyed :
    (id revision : ℕ) (f : Delivery → Delivery) (m : List (ℕ × Delivery))
    → IsKeyed m
    → IsKeyed (update_delivery id revision f m)
unfolding update_delivery
update_delivery-IsKeyed id revision f m h = elim (Option-cases (lookup id m)) [
  | inl n ↦ rw (update_delivery, n) h
  | inr (u, g) ↦
      rw (update_delivery, g)
        (if-intro IsKeyed (u.rule_revision == revision) (λ t. insert-IsKeyed id (f u) m h) (λ t. h))
]

-- An update that keeps the revisions of the rules.
pub revision-update_rule :
    (id revision : ℕ) (f : Rule → Rule) (m : List (ℕ × Rule)) (r : ℕ) (n : ℕ)
    → ((rule : Rule) → (f rule).revision ≡ rule.revision)
    → has_revision n (lookup r m) ≡ true
    → has_revision n (lookup r (update_rule id revision f m)) ≡ true
unfolding update_rule
revision-update_rule id revision f m r n k h = elim (Option-cases (lookup id m)) [
  | inl e ↦ rw (update_rule, e) h
  | inr (rule, g) ↦
      rw (update_rule, g)
        (if-intro (λ (x : List (ℕ × Rule)). has_revision n (lookup r x) ≡ true)
          (rule.revision == revision)
          (λ t. rw (lookup-insert id r (f rule) m) (
            if-intro (λ (o : Option Rule). has_revision n o ≡ true) (id == r)
              (λ u.
                let same_key : id ≡ r = ground (arith, u) in
                let found = sym (ap (λ i. lookup i m) same_key) ∙ g in
                subst (λ i. (i == n) ≡ true) (sym (k rule))
                  (subst (λ o. has_revision n o ≡ true) found h))
              (λ u. h)))
          (λ t. h))
]
