-- ===== src/Notices/Orderly.antt =====
-- apps/server/src/notifications/dispatcher.ts: how often a delivery is sent.
use steam_bee.Common.{
  ℕ, suc, ◌+◌, ◌≤◌, ◌≡◌, sym, ap, subst, ◌∙◌, Bool, true, false, none, some, List, [], ◌∷◌, arith,
  ◌==◌, Bool-cases, inl, inr,
}
use steam_bee.Common.Maps.{lookup}
use steam_bee.Notices.{Delivery, Rule, Dispatcher, includes, is_open, update_delivery, has_revision}
use steam_bee.Notices.Log.{Entry, is_try, tries, losses, was_accepted}
use steam_bee.Notices.Steps.{is_listed}
use steam_bee.Notices.Rows.{IsKeyed, lookup-update_delivery}

-- Each request that returns or throws does it for a delivery with at most two others before, beside its
-- losses, of which none has succeeded since the last loss.
abbrev pub IsOrderly : List Entry → Type 0
IsOrderly [] = Unit
IsOrderly ((id, mark) ∷ log) =
    (is_try mark ≡ true → (tries id log ≤ 2 + losses id log) × (was_accepted id log ≡ false))
    × IsOrderly log

-- What holds of a row.
pub record IsRow (log : List Entry) (id : ℕ) (row : Delivery) : Type 0 where
  pub counted : tries id log ≤ row.attempts + losses id log
  pub low : is_open row.status ≡ true → row.attempts ≤ 2
  pub unaccepted : is_open row.status ≡ true → was_accepted id log ≡ false

-- The identifiers that a drain has left: different ones, of deliveries that are still open.
abbrev pub IsDistinct : List ℕ → Type 0
IsDistinct [] = Unit
IsDistinct (id ∷ ids) = (includes id ids ≡ false) × IsDistinct ids

pub record IsQueue (m : List (ℕ × Delivery)) (ids : List ℕ) : Type 0 where
  pub distinct : IsDistinct ids
  pub opened :
      (id : ℕ) (row : Delivery)
      → includes id ids ≡ true
      → lookup id m ≡ some row
      → is_open row.status ≡ true

-- The row of the request in flight is as it was read, and its rule has the same revision.
pub record IsRead (rules : List (ℕ × Rule)) (s row : Delivery) : Type 0 where
  pub attempts : row.attempts ≡ s.attempts
  pub rule : row.rule_id ≡ s.rule_id
  pub revision : row.rule_revision ≡ s.rule_revision
  pub current : has_revision s.rule_revision (lookup s.rule_id rules) ≡ true

pub record IsSending (d : Dispatcher) (log : List Entry) (id : ℕ) (s : Delivery) : Type 0 where
  pub counted : tries id log ≤ s.attempts + losses id log
  pub low : s.attempts ≤ 2
  pub unaccepted : was_accepted id log ≡ false
  pub unlisted : is_listed id d.draining ≡ false
  pub read : (row : Delivery) → lookup id d.deliveries ≡ some row → IsRead d.rules s row

pub record IsOrdered (d : Dispatcher) (log : List Entry) : Type 0 where
  pub keyed : IsKeyed d.deliveries
  pub rows : (id : ℕ) (row : Delivery) → lookup id d.deliveries ≡ some row → IsRow log id row
  pub queue : (ids : List ℕ) → d.draining ≡ some ids → IsQueue d.deliveries ids
  pub sending : (id : ℕ) (s : Delivery) → d.sending ≡ some (id, s) → IsSending d log id s
  pub alone : d.draining ≡ none → d.sending ≡ none
  pub orderly : IsOrderly log

-- An update that does not lower the attempts and leaves closed deliveries closed, or is for the open ones.
module _ (log : List Entry) (id revision : ℕ) (f : Delivery → Delivery)
    (m : List (ℕ × Delivery)) where
  pub updated_rows :
      ((j : ℕ) (row : Delivery)
        → lookup j m ≡ some row
        → ((id == j) ≡ true → (row.rule_revision == revision) ≡ false)
        → IsRow log j row)
      → ((row : Delivery)
          → lookup id m ≡ some row
          → (row.rule_revision == revision) ≡ true
          → IsRow log id (f row))
      → (j : ℕ) (row : Delivery) → lookup j (update_delivery id revision f m) ≡ some row
      → IsRow log j row
  updated_rows r k j row e = elim (lookup-update_delivery id revision f m j row e) [
    | inl kept ↦ r j row kept.0 kept.1
    | inr (t, u, g, v, same) ↦
        let same_key : id ≡ j = ground (arith, t) in
        subst (λ x. IsRow log j x) (sym same)
          (subst (λ i. IsRow log i (f u)) same_key
            (k u (subst (λ i. lookup i m ≡ some u) (sym same_key) g) v))
  ]

  -- A drain that does not list the delivery is left as it was.
  pub updated-IsQueue :
      (ids : List ℕ)
      → includes id ids ≡ false
      → IsQueue m ids
      → IsQueue (update_delivery id revision f m) ids
  updated-IsQueue ids n q = record {
    distinct = q.distinct;
    opened = λ j row i e. elim (lookup-update_delivery id revision f m j row e) [
      | inl kept ↦ q.opened j row i kept.0
      | inr (t, u, g, v, same) ↦
          let same_key : id ≡ j = ground (arith, t) in
          ground (arith, n, i, ap (λ k. includes k ids) same_key)
    ];
  }

-- A log that says the same of the other deliveries, and of this one how often it was tried.
pub record IsNoted (log more : List Entry) (id attempts : ℕ) (ok : Bool) : Type 0 where
  pub others :
      (j : ℕ)
      → (id == j) ≡ false
      → (tries j more ≡ tries j log)
        × (losses j more ≡ losses j log)
        × (was_accepted j more ≡ was_accepted j log)
  pub counted : tries id more ≤ attempts + losses id more
  pub accepted : was_accepted id more ≡ ok
  pub orderly : IsOrderly more

other-IsRow :
    (log more : List Entry) (id attempts j : ℕ) (ok : Bool) (row : Delivery)
    → IsNoted log more id attempts ok
    → (id == j) ≡ false
    → IsRow log j row
    → IsRow more j row
other-IsRow log more id attempts j ok row t n r =
    let same = t.others j n in
    record {
      counted = omega (arith, same.0, same.1, r.counted);
      low = r.low;
      unaccepted = λ h. same.2 ∙ r.unaccepted h;
    }

module _ (d : Dispatcher) (log more : List Entry) (id : ℕ) (s : Delivery) (v : IsOrdered d log)
    (w : IsSending d log id s) where
  -- The row that was read is the one that the request is for.
  pub answered_rows :
      (ok : Bool) (f : Delivery → Delivery)
      → IsNoted log more id (suc s.attempts) ok
      → ((row : Delivery) → suc s.attempts ≤ (f row).attempts)
      → ((row : Delivery) → is_open (f row).status ≡ true → ((f row).attempts ≤ 2) × (ok ≡ false))
      → (j : ℕ) (row : Delivery)
      → lookup j (update_delivery id s.rule_revision f d.deliveries) ≡ some row
      → IsRow more j row
  answered_rows ok f t k o =
      updated_rows more id s.rule_revision f d.deliveries
        (λ j row e n. elim (Bool-cases (id == j)) [
          | inl i ↦
              let same_key : id ≡ j = ground (arith, i) in
              let read = w.read row (ap (λ i. lookup i d.deliveries) same_key ∙ e) in
              ground (arith, n i, read.revision)
          | inr i ↦ other-IsRow log more id _ j ok row t i (v.rows j row e)
        ])
        (λ row e g. record {
          counted = omega (arith, k row, t.counted);
          low = λ h. (o row h).0;
          unaccepted = λ h. t.accepted ∙ (o row h).1;
        })

  -- Without the rule there is no row to update.
  pub gone_rows :
      (ok : Bool)
      → IsNoted log more id (suc s.attempts) ok
      → has_revision s.rule_revision (lookup s.rule_id d.rules) ≡ false
      → (j : ℕ) (row : Delivery) → lookup j d.deliveries ≡ some row
      → IsRow more j row
  gone_rows ok t n j row e = elim (Bool-cases (id == j)) [
    | inl i ↦
        let same_key : id ≡ j = ground (arith, i) in
        let read = w.read row (ap (λ i. lookup i d.deliveries) same_key ∙ e) in
        ground (arith, n, read.current)
    | inr i ↦ other-IsRow log more id _ j ok row t i (v.rows j row e)
  ]

  -- What is lost need not be counted.
  pub lost_rows :
      IsNoted log more id s.attempts false
      → (j : ℕ) (row : Delivery) → lookup j d.deliveries ≡ some row
      → IsRow more j row
  lost_rows t j row e = elim (Bool-cases (id == j)) [
    | inl i ↦
        let same_key : id ≡ j = ground (arith, i) in
        let read = w.read row (ap (λ i. lookup i d.deliveries) same_key ∙ e) in
        subst (λ i. IsRow more i row) same_key
          (record {
            counted = omega (arith, t.counted, read.attempts);
            low = λ h. omega (arith, w.low, read.attempts);
            unaccepted = λ h. t.accepted;
          })
    | inr i ↦ other-IsRow log more id _ j false row t i (v.rows j row e)
  ]
