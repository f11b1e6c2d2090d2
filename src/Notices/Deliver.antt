-- ===== src/Notices/Deliver.antt =====
-- apps/server/src/notifications/dispatcher.ts: the delivery that a drain comes to keeps the order.
use steam_bee.Common.{
  ℕ, ◌≡◌, sym, ap, subst, ◌∙◌, Bool, true, false, ◌&&◌, Option, none, some, List, arith, ◌==◌,
  if-intro, Option-cases, inl, inr,
}
use steam_bee.Common.Maps.{lookup}
use steam_bee.Notices.{
  Fault, Delivery, Rule, Dispatcher, is_open, update_delivery, fail, deliver_by, is_suspended,
  is_usable, give_up, deliver_row, deliver,
}
use steam_bee.Notices.Log.{Entry}
use steam_bee.Notices.Steps.{is_listed}
use steam_bee.Notices.Rows.{same_value, update_delivery-IsKeyed}
use steam_bee.Notices.Answers.{fail-IsOrdered}
use steam_bee.Notices.Orderly.{IsRow, IsSending, IsOrdered, updated_rows, updated-IsQueue}

request_or : ℕ × Delivery → Option (ℕ × Delivery) → ℕ × Delivery
request_or d none = d
request_or d (some x) = x

same_request : (u v : ℕ × Delivery) → some u ≡ some v → u ≡ v
unfolding request_or
same_request u v e = ap (request_or v) e

list_or : List ℕ → Option (List ℕ) → List ℕ
list_or d none = d
list_or d (some x) = x

pub same_list : (u v : List ℕ) → some u ≡ some v → u ≡ v
unfolding list_or
same_list u v e = ap (list_or v) e

-- The delivery that a drain comes to: no request is in flight, and it is open and no longer listed.
pub record IsTurn (d : Dispatcher) (id : ℕ) : Type 0 where
  pub quiet : d.sending ≡ none
  pub rest : List ℕ
  pub drains : d.draining ≡ some rest
  pub unlisted : is_listed id d.draining ≡ false
  pub opened : (row : Delivery) → lookup id d.deliveries ≡ some row → is_open row.status ≡ true

module _ (d : Dispatcher) (log : List Entry) (id : ℕ) (v : IsOrdered d log) (t : IsTurn d id) where
  updated-IsOrdered :
      (revision : ℕ) (f : Delivery → Delivery) (rules : List (ℕ × Rule))
      → ((row : Delivery) → lookup id d.deliveries ≡ some row → IsRow log id (f row))
      → IsOrdered
          (record d { deliveries = update_delivery id revision f d.deliveries; rules = rules })
          log
  updated-IsOrdered revision f rules k = record {
    keyed = update_delivery-IsKeyed id revision f d.deliveries v.keyed;
    rows =
        updated_rows log id revision f d.deliveries (λ j row e n. v.rows j row e)
          (λ row e g. k row e);
    queue = λ ids e.
        updated-IsQueue log id revision f d.deliveries ids
          (subst (λ o. is_listed id o ≡ false) e t.unlisted) (v.queue ids e);
    sending = λ i x e. ground (arith, t.quiet, e);
    alone = λ e. t.quiet;
    orderly = v.orderly;
  }

  give_up-IsOrdered : (s : Delivery) → IsOrdered (give_up id s d) log
  unfolding give_up
  give_up-IsOrdered s =
      updated-IsOrdered s.rule_revision _ d.rules (λ row e. record {
        counted = (v.rows id row e).counted;
        low = λ h. cc;
        unaccepted = λ h. cc;
      })

  module _ (now : ℕ) (s : Delivery) (found : lookup id d.deliveries ≡ some s) where
    read-IsRow : IsRow log id s
    read-IsRow = v.rows id s found

    failed : (fault : Fault) → IsOrdered (fail fault now id s d) log
    failed fault =
        let r = read-IsRow in
        let o = t.opened s found in
        fail-IsOrdered d log id s v t.quiet t.unlisted (omega (arith, r.counted)) (r.unaccepted o)
          now fault

    begins-IsSending :
        (rule : Rule)
        → lookup s.rule_id d.rules ≡ some rule
        → (rule.revision == s.rule_revision) ≡ true
        → IsSending (record d { sending = some (id, s) }) log id s
    begins-IsSending rule g u =
        let r = read-IsRow in
        let o = t.opened s found in
        record {
          counted = r.counted;
          low = r.low o;
          unaccepted = r.unaccepted o;
          unlisted = t.unlisted;
          read = λ row e.
              let same : s ≡ row = same_value s row (sym found ∙ e) in
              record {
                attempts = ap (λ (x : Delivery). x.attempts) (sym same);
                rule = ap (λ (x : Delivery). x.rule_id) (sym same);
                revision = ap (λ (x : Delivery). x.rule_revision) (sym same);
                current = rw g u;
              };
        }

    sends-IsOrdered :
        (rule : Rule)
        → lookup s.rule_id d.rules ≡ some rule
        → (rule.revision == s.rule_revision) ≡ true
        → IsOrdered (record d { sending = some (id, s) }) log
    sends-IsOrdered rule g u = record {
      keyed = v.keyed;
      rows = v.rows;
      queue = v.queue;
      sending = λ i x e.
          let pair : (id, s) ≡ (i, x) = same_request (id, s) (i, x) e in
          let sent = begins-IsSending rule g u in
          subst (λ (y : ℕ × Delivery). IsSending (record d { sending = some (id, s) }) log y.0 y.1)
            pair sent;
      alone = λ e. ground (arith, t.drains, e);
      orderly = v.orderly;
    }

    deliver_by-IsOrdered :
        (fault : Fault) (opens : Bool) (rule : Rule)
        → lookup s.rule_id d.rules ≡ some rule
        → (rule.revision == s.rule_revision) ≡ true
        → IsOrdered (deliver_by fault now opens id s rule d) log
    unfolding deliver_by
    deliver_by-IsOrdered fault opens rule g u =
        if-intro (λ (x : Dispatcher). IsOrdered x log) (is_suspended now rule)
          (λ e. updated-IsOrdered s.rule_revision _ d.rules (λ row f.
            let r = v.rows id row f in
            let o = t.opened row f in
            record { counted = r.counted; low = λ h. r.low o; unaccepted = λ h. r.unaccepted o }))
          (λ e.
            if-intro (λ (x : Dispatcher). IsOrdered x log) (rule.has_target && opens)
              (λ f. sends-IsOrdered rule g u) (λ f. failed fault))

    deliver_row-IsOrdered :
        (fault : Fault) (opens : Bool)
        → IsOrdered (deliver_row fault now opens id s (lookup s.rule_id d.rules) d) log
    unfolding deliver_row
    deliver_row-IsOrdered fault opens = elim (Option-cases (lookup s.rule_id d.rules)) [
      | inl n ↦ rw (deliver_row, n) (give_up-IsOrdered s)
      | inr (rule, g) ↦
          rw (deliver_row, g)
            (if-intro (λ (x : Dispatcher). IsOrdered x log) (is_usable s.rule_revision rule)
              (λ e. deliver_by-IsOrdered fault opens rule g (ground (arith, e)))
              (λ e. give_up-IsOrdered s))
    ]

  pub deliver-IsOrdered :
      (fault : Fault) (now : ℕ) (opens : Bool) → IsOrdered (deliver fault now opens id d) log
  unfolding deliver
  deliver-IsOrdered fault now opens = elim (Option-cases (lookup id d.deliveries)) [
    | inl n ↦ rw (deliver, n) v
    | inr (s, f) ↦ rw (deliver, f) (deliver_row-IsOrdered now s f fault opens)
  ]
