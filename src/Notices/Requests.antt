-- ===== src/Notices/Requests.antt =====
-- apps/server/src/notifications/dispatcher.ts: a drain, cut at the request of a webhook and at the writes
-- after it.
use steam_bee.Common.{◌∷◌, suc, false, true, Bool, zero, ℕ, [], List, none, some, if◌then◌else◌}
use steam_bee.Common.Maps.{retain}
use steam_bee.Notices.{
  delivered, Delivery, Dispatcher, update_delivery, update_rule, Fault, none_throws,
  delivery_throws, rule_throws, fail, is_due, deliver,
}
use steam_bee.Notices.Log.{Entry, lost, noted, succeeded, threw}

pub data Answer : Type 0 where
  accepted refused aborted : Answer

abbrev pub keys {ℓ} : {V : Type ℓ} → List (ℕ × V) → List ℕ
keys [] = []
keys ((id, v) ∷ entries) = id ∷ keys entries

abbrev pub take : ℕ → List ℕ → List ℕ
take zero ids = []
take (suc n) [] = []
take (suc n) (id ∷ ids) = id ∷ take n ids

-- The query of `drainNow`, where no drain is in flight.
unfoldable pub begin_drain : ℕ → Dispatcher → Dispatcher
begin_drain now d = elim d.draining [
  | some ids ↦ d
  | none ↦ record d { draining = some (take 20 (keys (retain (is_due now) d.deliveries))) }
]

-- The loop of `drainNow`: it ends, or comes to the next delivery.
unfoldable pub continue_drain : Fault → ℕ → Bool → List ℕ → Dispatcher → Dispatcher
continue_drain fault now opens [] d = record d { draining = none }
continue_drain fault now opens (id ∷ ids) d =
    if d.running
    then deliver fault now opens id (record d { draining = some ids })
    else record d { draining = none }

-- It waits for the request in flight.
unfoldable pub drain_on : Fault → ℕ → Bool → Dispatcher → Dispatcher
drain_on fault now opens d = elim d.draining [
  | none ↦ d
  | some ids ↦ elim d.sending [ some sent ↦ d | none ↦ continue_drain fault now opens ids d ]
]

-- An error of a read or a write before the request, with nothing written, ends the drain.
unfoldable pub fail_drain : Dispatcher → Dispatcher
fail_drain d = elim d.sending [ some sent ↦ d | none ↦ record d { draining = none } ]

-- No request is in flight.
abbrev pub settled : Dispatcher → Dispatcher
settled d = record d { sending = none; arrived = none }

-- What `webhookSender` returns or throws; `deliver` returns at once from an abort of a dispatcher that was
-- stopped.
unfoldable pub answer : Answer → Dispatcher → Dispatcher × List Entry
answer a d = elim d.sending [
  | none ↦ (d, [])
  | some (id, s) ↦ elim d.arrived [
    | some known ↦ (d, [])
    | none ↦ elim a [
      | accepted ↦ (record d { arrived = some true }, [])
      | refused ↦ (record d { arrived = some false }, [])
      | aborted ↦
          if d.running
          then (record d { arrived = some false }, [])
          else (settled d, (id, lost) ∷ [])
    ]
  ]
]

-- The write of a delivery that was accepted.
unfoldable pub write_delivered : ℕ → Delivery → Dispatcher → Dispatcher
write_delivered id s d = record d {
  deliveries =
      update_delivery id s.rule_revision
        (λ row. record row {
          status = delivered;
          attempts = suc s.attempts;
          next_attempt_at = none;
        })
        d.deliveries;
}

-- The write of its rule.
unfoldable pub reset_rule : Delivery → Dispatcher → Dispatcher
reset_rule s d = record d {
  rules =
      update_rule s.rule_id s.rule_revision
        (λ rule. record rule { failure_count = 0; disabled_until = none }) d.rules;
}

-- The rest of `deliver`, after the request succeeded: `fault` is of its two writes, `again` of those of
-- `fail`, which the `catch` calls.
unfoldable pub succeed : Fault → Fault → ℕ → ℕ → Delivery → Dispatcher → Dispatcher × List Entry
succeed none_throws again now id s d = (reset_rule s (write_delivered id s d), (id, succeeded) ∷ [])
succeed delivery_throws again now id s d =
    (fail again now id s d, (id, lost) ∷ (id, succeeded) ∷ [])
succeed rule_throws again now id s d =
    (fail again now id s (write_delivered id s d), (id, lost) ∷ (id, succeeded) ∷ [])

-- The `catch` of `deliver`, where nothing is written if the first write of `fail` throws.
unfoldable pub refuse : Fault → ℕ → ℕ → Delivery → Dispatcher → Dispatcher × List Entry
refuse delivery_throws now id s d = (fail delivery_throws now id s d, (id, lost) ∷ (id, threw) ∷ [])
refuse rule_throws now id s d = (fail rule_throws now id s d, (id, threw) ∷ [])
refuse none_throws now id s d = (fail none_throws now id s d, (id, threw) ∷ [])

unfoldable pub write : Fault → Fault → ℕ → Dispatcher → Dispatcher × List Entry
write fault again now d = elim d.sending [
  | none ↦ (d, [])
  | some (id, s) ↦ elim d.arrived [
    | none ↦ (d, [])
    | some ok ↦
        if ok then succeed fault again now id s (settled d) else refuse again now id s (settled d)
  ]
]

-- After a restart only the rows are there, and a request in flight is lost, or what it returned.
unfoldable pub restart : Dispatcher → Dispatcher × List Entry
restart d = (
  record d { running = false; draining = none; sending = none; arrived = none },
  elim d.sending [ none ↦ [] | some (id, s) ↦ (id, lost) ∷ noted (some (id, s)) d.arrived ],
)
