-- ===== src/Batch/Run/Items.antt =====
-- apps/server/src/inventory/batch.ts: the items of a job against the commands still to run.
use steam_bee.Common.{
  ℕ, zero, suc, ◌+◌, ◌≡◌, refl, true, false, List, [], ◌∷◌, map, arith, length, keep_if,
  if◌then◌else◌, All,
}
use steam_bee.Batch.{ItemStatus, queued, running, skipped, Command, Item}
use steam_bee.Batch.Run.{is_pending, is_settled, skip_pending, update_item}

abbrev pub IsSettled : Item → Type 0
IsSettled x = is_pending x.status ≡ false

-- The number of items that are queued or running.
abbrev pub pending : List Item → ℕ
pending xs = length (keep_if (λ x. is_pending x.status) xs)

-- Items that the loop has not reached: queued where there is something to execute, else skipped.
abbrev pub Fits : List Command → List Item → Type 0
Fits [] [] = Unit
Fits [] (x ∷ xs) = ⊥
Fits (c ∷ cs) [] = ⊥
Fits (c ∷ cs) (x ∷ xs) = (x.status ≡ (if c.executable then queued else skipped)) × Fits cs xs

-- The items before `index` are settled, and the others fit the commands.
abbrev pub FitsFrom : ℕ → List Command → List Item → Type 0
FitsFrom zero cs xs = Fits cs xs
FitsFrom (suc index) cs [] = ⊥
FitsFrom (suc index) cs (x ∷ xs) = IsSettled x × FitsFrom index cs xs

-- The same, with the item at `index` in the given state.
abbrev pub FitsAt : ℕ → ItemStatus → List Command → List Item → Type 0
FitsAt index st cs [] = ⊥
FitsAt zero st cs (x ∷ xs) = (x.status ≡ st) × Fits cs xs
FitsAt (suc index) st cs (x ∷ xs) = IsSettled x × FitsAt index st cs xs

pub FitsFrom-executable :
    (index : ℕ) (c : Command) (cs : List Command) (xs : List Item)
    → c.executable ≡ true
    → FitsFrom index (c ∷ cs) xs
    → FitsAt index queued cs xs
FitsFrom-executable zero c cs [] e h = h
FitsFrom-executable zero c cs (x ∷ xs) e h = ground arith
FitsFrom-executable (suc index) c cs [] e h = h
FitsFrom-executable (suc index) c cs (x ∷ xs) e h = (h.0, FitsFrom-executable index c cs xs e h.1)

pub FitsFrom-skipped :
    (index : ℕ) (c : Command) (cs : List Command) (xs : List Item)
    → c.executable ≡ false
    → FitsFrom index (c ∷ cs) xs
    → FitsFrom (suc index) cs xs
FitsFrom-skipped zero c cs [] e h = h
FitsFrom-skipped zero c cs (x ∷ xs) e h = ground arith
FitsFrom-skipped (suc index) c cs [] e h = h
FitsFrom-skipped (suc index) c cs (x ∷ xs) e h = (h.0, FitsFrom-skipped index c cs xs e h.1)

module _ (f : Item → Item) where
  pub length-update_item :
      (index : ℕ) (xs : List Item) → length (update_item index f xs) ≡ length xs
  length-update_item index [] = refl
  length-update_item zero (x ∷ xs) = refl
  length-update_item (suc index) (x ∷ xs) = omega (arith, length-update_item index xs)

  -- The item becomes running.
  pub FitsAt-started :
      (index : ℕ) (cs : List Command) (xs : List Item)
      → ((x : Item) → (f x).status ≡ running)
      → FitsAt index queued cs xs
      → FitsAt index running cs (update_item index f xs)
  FitsAt-started index cs [] s h = h
  FitsAt-started zero cs (x ∷ xs) s h = (s x, h.1)
  FitsAt-started (suc index) cs (x ∷ xs) s h = (h.0, FitsAt-started index cs xs s h.1)

  pub pending-started :
      (index : ℕ) (cs : List Command) (xs : List Item)
      → ((x : Item) → (f x).status ≡ running)
      → FitsAt index queued cs xs
      → pending (update_item index f xs) ≡ pending xs
  pending-started index cs [] s h = refl
  pending-started zero cs (x ∷ xs) s h = ground (arith, s x)
  pending-started (suc index) cs (x ∷ xs) s h = ground (arith, pending-started index cs xs s h.1)

  -- The running item is settled.
  pub FitsAt-settled :
      (index : ℕ) (cs : List Command) (xs : List Item)
      → ((x : Item) → IsSettled (f x))
      → FitsAt index running cs xs
      → FitsFrom (suc index) cs (update_item index f xs)
  FitsAt-settled index cs [] s h = h
  FitsAt-settled zero cs (x ∷ xs) s h = (s x, h.1)
  FitsAt-settled (suc index) cs (x ∷ xs) s h = (h.0, FitsAt-settled index cs xs s h.1)

  pub pending-settled :
      (index : ℕ) (cs : List Command) (xs : List Item)
      → ((x : Item) → IsSettled (f x))
      → FitsAt index running cs xs
      → suc (pending (update_item index f xs)) ≡ pending xs
  pending-settled index cs [] s h = absurd h
  pending-settled zero cs (x ∷ xs) s h = ground (arith, s x)
  pending-settled (suc index) cs (x ∷ xs) s h = ground (arith, pending-settled index cs xs s h.1)

pub skip_pending-IsSettled : (xs : List Item) → All IsSettled (map skip_pending xs)
skip_pending-IsSettled [] = tt
skip_pending-IsSettled (x ∷ xs) = (ground arith, skip_pending-IsSettled xs)

pub pending-of-All : (xs : List Item) → All IsSettled xs → pending xs ≡ 0
pending-of-All [] h = refl
pending-of-All (x ∷ xs) h = ground (arith, pending-of-All xs h.1)

pub settled-pending : (xs : List Item) → length (keep_if is_settled xs) + pending xs ≡ length xs
settled-pending [] = omega arith
settled-pending (x ∷ xs) = ground (arith, settled-pending xs)
