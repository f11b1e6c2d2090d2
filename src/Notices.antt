-- ===== src/Notices.antt =====
-- apps/server/src/notifications/dispatcher.ts: `NotificationDispatcher`, with the routes that edit the
-- rules (apps/server/src/http/routes/operations.ts). A step runs to the request of a webhook, or to its
-- answer, or from that on. When a drain begins, and what decryption and the webhook answer, comes from outside, as do
-- the identifiers. Texts that are only compared are numbers.
pub mod Log
pub mod Requests
pub mod Steps
pub mod Rows
pub mod Orderly
pub mod Answers
pub mod Deliver
pub mod Drain
pub mod Routes
pub mod Reached
mod Tests
use steam_bee.Common.{
  ℕ, suc, ◌+◌, ◌-◌, ◌*◌, ◌^◌, Bool, true, false, not, ◌&&◌, ◌||◌, Option, none, some, List, [], ◌∷◌,
  leb, ltb, ◌==◌, if◌then◌else◌, any, map,
}
use steam_bee.Common.Maps.{lookup, insert, retain}

pub data Status : Type 0 where
  pending retry delivered failed : Status

-- A row of `notificationDelivery`, under its identifier.
pub record Delivery : Type 0 where
  pub rule_id : ℕ
  pub rule_revision : ℕ
  pub event_id : ℕ
  pub status : Status
  pub attempts : ℕ
  pub next_attempt_at : Option ℕ

-- A row of `notificationRule`, under its identifier.
pub record Rule : Type 0 where
  pub revision : ℕ
  pub enabled : Bool
  pub is_webhook : Bool
  pub event_types : List ℕ
  pub has_target : Bool
  pub failure_count : ℕ
  pub disabled_until : Option ℕ

-- The keys are the type of the event and, with a status, both joined.
pub record Event : Type 0 where
  pub id : ℕ
  pub keys : List ℕ

-- `draining` is what the drain in flight still has to deliver, `sending` the delivery whose request is in
-- flight, as it was read, and `arrived` whether the request succeeded, until this is written.
pub record Dispatcher : Type 0 where
  pub running : Bool
  pub rules : List (ℕ × Rule)
  pub deliveries : List (ℕ × Delivery)
  pub draining : Option (List ℕ)
  pub sending : Option (ℕ × Delivery)
  pub arrived : Option Bool

-- The text "*".
abbrev pub every_type : ℕ
every_type = 0

abbrev pub includes : ℕ → List ℕ → Bool
includes key = any (λ k. k == key)

unfoldable pub matches_rule : List ℕ → Event → Bool
matches_rule types e = includes every_type types || any (λ key. includes key types) e.keys

abbrev pub is_open : Status → Bool
is_open status = elim status [ pending ↦ true | retry ↦ true | _ ↦ false ]

-- The unique index on the rule and the event.
unfoldable pub has_delivery : ℕ → ℕ → List (ℕ × Delivery) → Bool
has_delivery rule event [] = false
has_delivery rule event ((id, row) ∷ rows) =
    ((row.rule_id == rule) && (row.event_id == event)) || has_delivery rule event rows

-- The body of the loops of `enqueueForRules`, with the rule as it was read.
unfoldable pub enqueue_for_rule : ℕ → ℕ → ℕ → Rule → Event → Dispatcher → Dispatcher
enqueue_for_rule now id rule_id rule event d =
    if not (matches_rule rule.event_types event) || has_delivery rule_id event.id d.deliveries
    then d
    else record d {
      deliveries =
          insert id
            (record {
              rule_id = rule_id;
              rule_revision = rule.revision;
              event_id = event.id;
              status = pending;
              attempts = 0;
              next_attempt_at = some now;
            })
            d.deliveries;
    }

-- `UPDATE … WHERE` the identifier and the revision.
unfoldable pub update_delivery :
    ℕ → ℕ → (Delivery → Delivery) → List (ℕ × Delivery) → List (ℕ × Delivery)
update_delivery id revision f rows = elim (lookup id rows) [
  | none ↦ rows
  | some row ↦ if row.rule_revision == revision then insert id (f row) rows else rows
]

unfoldable pub update_rule : ℕ → ℕ → (Rule → Rule) → List (ℕ × Rule) → List (ℕ × Rule)
update_rule id revision f rules = elim (lookup id rules) [
  | none ↦ rules
  | some rule ↦ if rule.revision == revision then insert id (f rule) rules else rules
]

abbrev pub has_revision : ℕ → Option Rule → Bool
has_revision revision none = false
has_revision revision (some rule) = rule.revision == revision

abbrev pub max_attempts : ℕ
max_attempts = 3

-- What a failure leaves of the delivery, which was read with these attempts.
abbrev pub fail_delivery : ℕ → ℕ → Delivery → Delivery
fail_delivery now attempts row =
    let ends = leb max_attempts (suc attempts) in
    record row {
      status = if ends then failed else retry;
      attempts = suc attempts;
      next_attempt_at = if ends then none else some (now + 30_000 * 2 ^ attempts);
    }

abbrev pub fail_rule : ℕ → Rule → Rule
fail_rule now rule = record rule {
  failure_count = suc rule.failure_count;
  disabled_until = if leb 5 (suc rule.failure_count) then some (now + 60 * 60_000) else none;
}

-- Which of the two writes that follow one another throws: of the delivery, which stands for a read before
-- it as well, or of the rule.
pub data Fault : Type 0 where
  none_throws delivery_throws rule_throws : Fault

-- `fail`; an error in it ends the drain.
unfoldable pub fail : Fault → ℕ → ℕ → Delivery → Dispatcher → Dispatcher
fail delivery_throws now id s d = record d { draining = none }
fail rule_throws now id s d =
    if has_revision s.rule_revision (lookup s.rule_id d.rules)
    then record d {
      deliveries = update_delivery id s.rule_revision (fail_delivery now s.attempts) d.deliveries;
      draining = none;
    }
    else d
fail none_throws now id s d =
    if has_revision s.rule_revision (lookup s.rule_id d.rules)
    then record d {
      deliveries = update_delivery id s.rule_revision (fail_delivery now s.attempts) d.deliveries;
      rules = update_rule s.rule_id s.rule_revision (fail_rule now) d.rules;
    }
    else d

abbrev pub is_due : ℕ → Delivery → Bool
is_due now row = is_open row.status && is_past row.next_attempt_at
  where
    is_past : Option ℕ → Bool
    is_past none = true
    is_past (some t) = leb t now

abbrev pub is_suspended : ℕ → Rule → Bool
is_suspended now rule = is_later rule.disabled_until
  where
    is_later : Option ℕ → Bool
    is_later none = false
    is_later (some t) = ltb now t

abbrev pub is_usable : ℕ → Rule → Bool
is_usable revision rule = (rule.revision == revision) && (rule.enabled && rule.is_webhook)

-- The rest of `deliver` for a delivery whose rule was found, up to the request; `opens` says whether the
-- target is decrypted and the event is found, and `fault` what throws in `fail`.
unfoldable pub deliver_by : Fault → ℕ → Bool → ℕ → Delivery → Rule → Dispatcher → Dispatcher
deliver_by fault now opens id s rule d =
    if is_suspended now rule
    then record d {
      deliveries =
          update_delivery id s.rule_revision
            (λ row. record row { status = retry; next_attempt_at = rule.disabled_until })
            d.deliveries;
    }
    else if rule.has_target && opens
    then record d { sending = some (id, s) }
    else fail fault now id s d

unfoldable pub give_up : ℕ → Delivery → Dispatcher → Dispatcher
give_up id s d = record d {
  deliveries =
      update_delivery id s.rule_revision
        (λ row. record row { status = failed; next_attempt_at = none }) d.deliveries;
}

unfoldable pub deliver_row : Fault → ℕ → Bool → ℕ → Delivery → Option Rule → Dispatcher → Dispatcher
deliver_row fault now opens id s none d = give_up id s d
deliver_row fault now opens id s (some rule) d =
    if is_usable s.rule_revision rule
    then deliver_by fault now opens id s rule d
    else give_up id s d

-- `deliver`, up to the request.
unfoldable pub deliver : Fault → ℕ → Bool → ℕ → Dispatcher → Dispatcher
deliver fault now opens id d = elim (lookup id d.deliveries) [
  | none ↦ d
  | some s ↦ deliver_row fault now opens id s (lookup s.rule_id d.rules) d
]
