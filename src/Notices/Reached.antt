-- ===== src/Notices/Reached.antt =====
-- apps/server/src/notifications/dispatcher.ts: every step keeps the order, so every dispatcher that steps
-- lead to has it.
use steam_bee.Common.{
  ℕ, suc, ◌≡◌, refl, if-intro, if◌then◌else◌, Option, some, [], ◌∷◌, Bool, true, false, none, List,
  ◌++◌, Option-cases, inl, inr,
}
use steam_bee.Common.Maps.{lookup}
use steam_bee.Notices.{Delivery, Fault, Dispatcher}
use steam_bee.Notices.Log.{Entry, lost, mark_of, noted}
use steam_bee.Notices.Requests.{Answer, answer, accepted, refused, aborted, settled, restart, write}
use steam_bee.Notices.Steps.{
  Step, starts, stops, restarts, enqueues, drain_begins, drain_goes_on, drain_fails, answers,
  writes, replaces, creates, deletes, perform, is_allowed, IsReached, at_first, after,
}
use steam_bee.Notices.Orderly.{IsOrderly, IsNoted, IsSending, IsOrdered}
use steam_bee.Notices.Answers.{
  succeeded-IsNoted, threw-IsNoted, lost-IsNoted, then_lost-IsNoted, settled-IsOrdered,
  refuse-IsOrdered, succeed-IsOrdered,
}
use steam_bee.Notices.Drain.{drain_on-IsOrdered, fail_drain-IsOrdered, begin_drain-IsOrdered}
use steam_bee.Notices.Routes.{
  enqueue_for_rule-IsOrdered, create_rule-IsOrdered, replace_rule-IsOrdered, delete_rule-IsOrdered,
}

module _ (d : Dispatcher) (log : List Entry) (v : IsOrdered d log) where
  mark_of-IsNoted :
      (id : ℕ) (s : Delivery) (ok : Bool)
      → IsSending d log id s
      → IsNoted log ((id, mark_of ok) ∷ log) id (suc s.attempts) ok
  mark_of-IsNoted id s true w = succeeded-IsNoted 0 d log id s v w
  mark_of-IsNoted id s false w = threw-IsNoted 0 d log id s v w

  -- The request and the drain end with the process.
  stopped-IsOrdered :
      (more : List Entry)
      → IsOrdered (settled d) more
      → IsOrdered
          (record d { running = false; draining = none; sending = none; arrived = none })
          more
  stopped-IsOrdered more u = record {
    keyed = u.keyed;
    rows = u.rows;
    queue = λ ids e. cc;
    sending = λ i s e. cc;
    alone = λ e. refl;
    orderly = u.orderly;
  }

  unsent-IsOrdered : IsOrdered (settled d) log
  unsent-IsOrdered = record {
    keyed = v.keyed;
    rows = v.rows;
    queue = v.queue;
    sending = λ i s e. cc;
    alone = λ e. refl;
    orderly = v.orderly;
  }

  restart-IsOrdered : IsOrdered (restart d).0 ((restart d).1 ++ log)
  unfolding restart
  restart-IsOrdered = elim (Option-cases d.sending) [
    | inl n ↦ rw (restart, n) (stopped-IsOrdered log unsent-IsOrdered)
    | inr ((id, s), f) ↦
        let w = v.sending id s f in
        elim (Option-cases d.arrived) [
          | inl n ↦
              rw (restart, f, n)
                (stopped-IsOrdered _
                  (settled-IsOrdered 0 d log id s v w _ (lost-IsNoted 0 d log id s v w)))
          | inr (ok, g) ↦
              rw (restart, f, g)
                (stopped-IsOrdered _ (
                  settled-IsOrdered 0 d log id s v w _
                    (then_lost-IsNoted 0 d log id s v w ok _ (mark_of-IsNoted id s ok w))))
        ]
  ]

  switched-IsOrdered :
      (running : Bool) (arrived : Option Bool)
      → IsOrdered (record d { running = running; arrived = arrived }) log
  switched-IsOrdered running arrived = record {
    keyed = v.keyed;
    rows = v.rows;
    queue = v.queue;
    sending = λ i s e.
        let w = v.sending i s e in
        record {
          counted = w.counted;
          low = w.low;
          unaccepted = w.unaccepted;
          unlisted = w.unlisted;
          read = w.read;
        };
    alone = v.alone;
    orderly = v.orderly;
  }

  arrive-IsOrdered : (ok : Bool) → IsOrdered (record d { arrived = some ok }) log
  arrive-IsOrdered ok = switched-IsOrdered d.running (some ok)

  answered-IsOrdered :
      (a : Answer) (id : ℕ) (s : Delivery)
      → d.sending ≡ some (id, s)
      → let r : Dispatcher × List Entry = elim a [
        | accepted ↦ (record d { arrived = some true }, [])
        | refused ↦ (record d { arrived = some false }, [])
        | aborted ↦
            if d.running
            then (record d { arrived = some false }, [])
            else (settled d, (id, lost) ∷ [])
      ] in
        IsOrdered r.0 (r.1 ++ log)
  answered-IsOrdered accepted id s f = arrive-IsOrdered true
  answered-IsOrdered refused id s f = arrive-IsOrdered false
  answered-IsOrdered aborted id s f =
      let w = v.sending id s f in
      if-intro (λ (r : Dispatcher × List Entry). IsOrdered r.0 (r.1 ++ log)) d.running
        (λ e. arrive-IsOrdered false)
        (λ e. settled-IsOrdered 0 d log id s v w _ (lost-IsNoted 0 d log id s v w))

  answer-IsOrdered : (a : Answer) → IsOrdered (answer a d).0 ((answer a d).1 ++ log)
  unfolding answer
  answer-IsOrdered a = elim (Option-cases d.sending) [
    | inl n ↦ rw (answer, n) v
    | inr ((id, s), f) ↦ elim (Option-cases d.arrived) [
      | inr (known, g) ↦ rw (answer, f, g) v
      | inl n ↦ rw (answer, f, n) (answered-IsOrdered a id s f)
    ]
  ]

  write-IsOrdered :
      (fault again : Fault) (now : ℕ)
      → IsOrdered (write fault again now d).0 ((write fault again now d).1 ++ log)
  unfolding write
  write-IsOrdered fault again now = elim (Option-cases d.sending) [
    | inl n ↦ rw (write, n) v
    | inr ((id, s), f) ↦ elim (Option-cases d.arrived) [
      | inl n ↦ rw (write, f, n) v
      | inr (ok, g) ↦
          let w = v.sending id s f in
          rw (write, f, g)
            (if-intro (λ (r : Dispatcher × List Entry). IsOrdered r.0 (r.1 ++ log)) ok
              (λ e. succeed-IsOrdered now d log id s v w fault again)
              (λ e. refuse-IsOrdered now d log id s v w again))
    ]
  ]

  perform-IsOrdered :
      (step : Step)
      → is_allowed step d log ≡ true
      → IsOrdered (perform step d).0 ((perform step d).1 ++ log)
  unfolding perform
  perform-IsOrdered starts h = switched-IsOrdered true d.arrived
  perform-IsOrdered stops h = switched-IsOrdered false d.arrived
  perform-IsOrdered restarts h = restart-IsOrdered
  perform-IsOrdered (enqueues now id rule_id rule event) h =
      enqueue_for_rule-IsOrdered d log v now id rule_id rule event h
  perform-IsOrdered (drain_begins now) h = begin_drain-IsOrdered now d log v
  perform-IsOrdered (drain_goes_on fault now opens) h = drain_on-IsOrdered d log v fault now opens
  perform-IsOrdered drain_fails h = fail_drain-IsOrdered d log v
  perform-IsOrdered (answers a) h = answer-IsOrdered a
  perform-IsOrdered (writes fault again now) h = write-IsOrdered fault again now
  perform-IsOrdered (replaces rule_id values) h = replace_rule-IsOrdered d log v rule_id values
  perform-IsOrdered (creates rule_id values) h = create_rule-IsOrdered d log v rule_id values
  perform-IsOrdered (deletes rule_id) h = delete_rule-IsOrdered d log v rule_id

reached-IsOrdered : (d : Dispatcher) (log : List Entry) → IsReached d log → IsOrdered d log
unfolding lookup
reached-IsOrdered _ _ at_first = record {
  keyed = tt;
  rows = λ id row e. cc;
  queue = λ ids e. cc;
  sending = λ i s e. cc;
  alone = λ e. refl;
  orderly = tt;
}
reached-IsOrdered _ _ (after step d log r h) =
    perform-IsOrdered d log (reached-IsOrdered d log r) step h

-- With the request in flight, if it has returned or thrown.
noted-IsOrderly :
    (d : Dispatcher) (log : List Entry) (sending : Option (ℕ × Delivery)) (arrived : Option Bool)
    → d.sending ≡ sending
    → IsOrdered d log
    → IsOrderly (noted sending arrived ++ log)
noted-IsOrderly d log none arrived f v = v.orderly
noted-IsOrderly d log (some (id, s)) none f v = v.orderly
noted-IsOrderly d log (some (id, s)) (some ok) f v =
    (mark_of-IsNoted d log v id s ok (v.sending id s f)).orderly

-- Whatever steps the dispatcher, the webhooks, the routes and restarts take, where identifiers of
-- deliveries are new and any write of a delivery or its rule may throw: the request for a delivery returns
-- or throws only after at most two others and one more for each loss of it, and only if none has
-- succeeded since its last loss. A loss is a request that a restart, or the abort of a stop, cuts off; one
-- whose outcome was not yet written at a restart; one that succeeded where a write after it throws; and
-- one that threw where `fail` throws before it writes. So without losses there are at most three requests,
-- and none after one that succeeded.
pub reached-IsOrderly :
    (d : Dispatcher) (log : List Entry)
    → IsReached d log
    → IsOrderly (noted d.sending d.arrived ++ log)
reached-IsOrderly d log r =
    noted-IsOrderly d log d.sending d.arrived refl (reached-IsOrdered d log r)
