-- ===== src/Notices/Steps.antt =====
-- apps/server/src/notifications/dispatcher.ts: the steps of the dispatcher in any order, with those of the
-- routes, and what the webhooks have answered.
use steam_bee.Common.{
  suc, false, Option, true, not, Bool, ◌==◌, ◌&&◌, ℕ, [], List, none, ◌≡◌, some, ◌++◌,
}
use steam_bee.Common.Maps.{lookup, insert, retain, delete}
use steam_bee.Notices.{Delivery, Rule, Event, Dispatcher, includes, enqueue_for_rule, Fault}
use steam_bee.Notices.Log.{Entry, tries}
use steam_bee.Notices.Requests.{Answer, answer, begin_drain, drain_on, fail_drain, restart, write}

abbrev pub keeps_rule : ℕ → Delivery → Bool
keeps_rule rule_id row = not (row.rule_id == rule_id)

-- `ruleValues`, of what the request has.
abbrev pub rule_values : ℕ → Rule → Rule
rule_values revision values = record values {
  revision = revision;
  failure_count = 0;
  disabled_until = none;
}

-- The route that edits a rule.
unfoldable pub replace_rule : ℕ → Rule → Dispatcher → Dispatcher
replace_rule rule_id values d = elim (lookup rule_id d.rules) [
  | none ↦ d
  | some rule ↦ record d {
    deliveries = retain (keeps_rule rule_id) d.deliveries;
    rules = insert rule_id (rule_values (suc rule.revision) values) d.rules;
  }
]

-- A new rule has a new identifier.
unfoldable pub create_rule : ℕ → Rule → Dispatcher → Dispatcher
create_rule rule_id values d = elim (lookup rule_id d.rules) [
  | some rule ↦ d
  | none ↦ record d { rules = insert rule_id (rule_values 1 values) d.rules }
]

-- The deliveries go with the rule (`onDelete: "cascade"`).
unfoldable pub delete_rule : ℕ → Dispatcher → Dispatcher
delete_rule rule_id d = record d {
  deliveries = retain (keeps_rule rule_id) d.deliveries;
  rules = delete rule_id d.rules;
}

pub data Step : Type 0 where
  starts stops restarts : Step
  enqueues : ℕ → ℕ → ℕ → Rule → Event → Step
  drain_begins : ℕ → Step
  drain_goes_on : Fault → ℕ → Bool → Step
  drain_fails : Step
  answers : Answer → Step
  writes : Fault → Fault → ℕ → Step
  replaces creates : ℕ → Rule → Step
  deletes : ℕ → Step

-- A step, and what is noted in it. A process that ends between two writes is like a second write that
-- throws before a restart.
unfoldable pub perform : Step → Dispatcher → Dispatcher × List Entry
perform starts d = (record d { running = true }, [])
perform stops d = (record d { running = false }, [])
perform restarts d = restart d
perform (enqueues now id rule_id rule event) d = (enqueue_for_rule now id rule_id rule event d, [])
perform (drain_begins now) d = (begin_drain now d, [])
perform (drain_goes_on fault now opens) d = (drain_on fault now opens d, [])
perform drain_fails d = (fail_drain d, [])
perform (answers a) d = answer a d
perform (writes fault again now) d = write fault again now d
perform (replaces rule_id values) d = (replace_rule rule_id values d, [])
perform (creates rule_id values) d = (create_rule rule_id values d, [])
perform (deletes rule_id) d = (delete_rule rule_id d, [])

abbrev pub has_row : ℕ → Option Delivery → Bool
has_row id none = false
has_row id (some row) = true

abbrev pub is_sent : ℕ → Option (ℕ × Delivery) → Bool
is_sent id none = false
is_sent id (some (j, s)) = j == id

abbrev pub is_listed : ℕ → Option (List ℕ) → Bool
is_listed id none = false
is_listed id (some ids) = includes id ids

-- `randomUUID` gives an identifier that no delivery has or has had.
abbrev pub is_new : ℕ → Dispatcher → List Entry → Bool
is_new id d log =
    not (has_row id (lookup id d.deliveries))
    && (not (is_sent id d.sending) && (not (is_listed id d.draining) && (tries id log == 0)))

abbrev pub is_allowed : Step → Dispatcher → List Entry → Bool
is_allowed (enqueues now id rule_id rule event) d log = is_new id d log
is_allowed starts d log = true
is_allowed stops d log = true
is_allowed restarts d log = true
is_allowed (drain_begins now) d log = true
is_allowed (drain_goes_on fault now opens) d log = true
is_allowed drain_fails d log = true
is_allowed (answers a) d log = true
is_allowed (writes fault again now) d log = true
is_allowed (replaces rule_id values) d log = true
is_allowed (creates rule_id values) d log = true
is_allowed (deletes rule_id) d log = true

abbrev pub new_dispatcher : Dispatcher
new_dispatcher = record {
  running = false;
  rules = [];
  deliveries = [];
  draining = none;
  sending = none;
  arrived = none;
}

-- A dispatcher that steps lead to, and what was noted so far, the last first.
pub data IsReached : Dispatcher → List Entry → Type 0 where
  at_first : IsReached new_dispatcher []
  after :
      (step : Step) (d : Dispatcher) (log : List Entry)
      → IsReached d log
      → is_allowed step d log ≡ true
      → IsReached (perform step d).0 ((perform step d).1 ++ log)
