-- ===== src/Money/Units/Laws.antt =====
-- apps/server/src/inventory/money.ts: `fromMinorUnits` and `toMinorUnits` undo one another.
use native.Mathlib.Nat.{mod-add-div', mul-mod_left, mul-div_cancel}
use steam_bee.Common.{◌↔◌, ◌<◌, ℕ, suc, ◌*◌, ◌^◌, ◌/◌, ◌%◌, ◌≡◌, ok, arith, ◌⊎◌, inl, inr, ◌≤◌}
use steam_bee.Common.Int.{ℤ, int, pos, negsuc, magnitude, map_magnitude}
use steam_bee.Money.{Currency}
use steam_bee.Money.Units.{from_minor_units, to_minor_units, max_safe_integer}

-- An exact conversion of `z` to `s`, at `a` units for every `b`.
pub record Converts (c : Currency) (a b : ℕ) (z s : ℤ) : Type 0 where
  pub supported : c.minor_unit ≤ 3
  pub input_safe : magnitude z ≤ max_safe_integer
  pub result_safe : magnitude s ≤ max_safe_integer
  pub exact : magnitude z * a % b ≡ 0
  pub result : s ≡ map_magnitude (λ m. m * a / b) z

pub from_minor_units-Converts :
    (n s : ℤ) (c : Currency)
    → from_minor_units (int n) c ≡ ok s
    → Converts c 100 (10 ^ c.minor_unit) n s
unfolding from_minor_units
from_minor_units-Converts n s c h = ground arith

pub from_minor_units-of-Converts :
    (n s : ℤ) (c : Currency)
    → Converts c 100 (10 ^ c.minor_unit) n s
    → from_minor_units (int n) c ≡ ok s
unfolding from_minor_units
from_minor_units-of-Converts n s c h = ground arith

pub to_minor_units-Converts :
    (n s : ℤ) (c : Currency)
    → to_minor_units (int n) c ≡ ok s
    → Converts c (10 ^ c.minor_unit) 100 n s
unfolding to_minor_units
to_minor_units-Converts n s c h = ground arith

pub to_minor_units-of-Converts :
    (n s : ℤ) (c : Currency)
    → Converts c (10 ^ c.minor_unit) 100 n s
    → to_minor_units (int n) c ≡ ok s
unfolding to_minor_units
to_minor_units-of-Converts n s c h = ground arith

back : (m a b : ℕ) → 0 < a → m * a % b ≡ 0 → (m * a / b * b % a ≡ 0) × (m * a / b * b / a ≡ m)
back m a b ha e =
    let whole : m * a / b * b ≡ m * a = omega (arith, mod-add-div' (m * a) b) in
    rw whole (mul-mod_left m a, mul-div_cancel m ha)

pow-pos : (k : ℕ) → k ≤ 3 → 0 < 10 ^ k
pow-pos k h = elim (small k h) [
  | inl e ↦ rw e (omega arith)
  | inr (inl e) ↦ rw e (omega arith)
  | inr (inr (inl e)) ↦ rw e (omega arith)
  | inr (inr (inr e)) ↦ rw e (omega arith)
]
  where
    small : (k : ℕ) → k ≤ 3 → (k ≡ 0) ⊎ ((k ≡ 1) ⊎ ((k ≡ 2) ⊎ (k ≡ 3)))
    small k h = omega arith

-- An exact conversion is undone by the conversion the other way.
Converts-back :
    (z s : ℤ) (c : Currency) (a b : ℕ) → 0 < a → 0 < b → Converts c a b z s → Converts c b a s z
Converts-back (pos n) s c a b ha hb v = ground (arith, back n a b ha v.exact)
Converts-back (negsuc n) s c a b ha hb v = ground (arith, back (suc n) a b ha v.exact)

-- A price and a Steam amount convert into one another by `fromMinorUnits` exactly when they do by
-- `toMinorUnits`: the two functions are inverse, refusals included.
pub from_minor_units_iff_to_minor_units :
    (n s : ℤ) (c : Currency)
    → (from_minor_units (int n) c ≡ ok s) ↔ (to_minor_units (int s) c ≡ ok n)
from_minor_units_iff_to_minor_units n s c = (
  λ h.
      let v = from_minor_units-Converts n s c h in
      to_minor_units-of-Converts s n c
        (Converts-back n s c 100 (10 ^ c.minor_unit) (omega arith) (pow-pos _ v.supported) v),
  λ h.
      let v = to_minor_units-Converts s n c h in
      from_minor_units-of-Converts n s c
        (Converts-back s n c (10 ^ c.minor_unit) 100 (pow-pos _ v.supported) (omega arith) v),
)
