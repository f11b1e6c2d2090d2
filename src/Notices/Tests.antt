-- ===== src/Notices/Tests.antt =====
-- apps/server/src/notifications/dispatcher.ts: a delivery that is refused and then accepted.
use steam_bee.Common.{◌≡◌, refl, true, none, List, [], ◌∷◌, ◌++◌}
use steam_bee.Common.Maps.{lookup, insert, retain}
use steam_bee.Notices.{
  Rule, Event, Dispatcher, every_type, matches_rule, has_delivery, enqueue_for_rule,
  update_delivery, update_rule, none_throws, fail, deliver_by, deliver_row, deliver,
}
use steam_bee.Notices.Log.{Entry, succeeded, threw, lost, noted}
use steam_bee.Notices.Requests.{
  refused, accepted, begin_drain, continue_drain, drain_on, answer, write, succeed, refuse,
  write_delivered, reset_rule, restart,
}
use steam_bee.Notices.Steps.{
  writes, restarts, create_rule, Step, starts, enqueues, drain_begins, drain_goes_on, answers,
  creates, perform, is_allowed, new_dispatcher, IsReached, at_first, after,
}
use steam_bee.Notices.Orderly.{IsOrderly}
use steam_bee.Notices.Reached.{reached-IsOrderly}

abbrev rule : Rule
rule = record {
  revision = 1;
  enabled = true;
  is_webhook = true;
  event_types = every_type ∷ [];
  has_target = true;
  failure_count = 0;
  disabled_until = none;
}

abbrev event : Event
event = record { id = 5; keys = 44 ∷ [] }

-- The last step comes first.
abbrev steps : List Step
steps =
    writes none_throws none_throws 40_000
    ∷ answers accepted
    ∷ drain_goes_on none_throws 32_000 true
    ∷ drain_begins 31_000
    ∷ drain_goes_on none_throws 1_000 true
    ∷ writes none_throws none_throws 1_000
    ∷ answers refused
    ∷ drain_goes_on none_throws 200 true
    ∷ drain_begins 100
    ∷ enqueues 100 7 1 rule event
    ∷ creates 1 rule
    ∷ starts
    ∷ []

abbrev run : List Step → Dispatcher × List Entry
run [] = (new_dispatcher, [])
run (step ∷ before) = let r = run before in let next = perform step r.0 in (next.0, next.1 ++ r.1)

abbrev IsRun : List Step → Type 0
IsRun [] = Unit
IsRun (step ∷ before) = (is_allowed step (run before).0 (run before).1 ≡ true) × IsRun before

run-IsReached : (steps : List Step) → IsRun steps → IsReached (run steps).0 (run steps).1
run-IsReached [] h = at_first
run-IsReached (step ∷ before) h =
    after step (run before).0 (run before).1 (run-IsReached before h.1) h.0

answered_twice : (run steps).1 ≡ (7, succeeded) ∷ (7, threw) ∷ []
unfolding perform answer write succeed refuse write_delivered reset_rule drain_on continue_drain
    begin_drain create_rule enqueue_for_rule matches_rule has_delivery update_delivery update_rule
    fail deliver_by deliver_row deliver lookup insert retain
answered_twice = refl

-- The server is killed before it writes that the webhook has accepted, and sends the delivery again.
abbrev killed : List Step
killed =
    answers accepted
    ∷ drain_goes_on none_throws 600 true
    ∷ drain_begins 500
    ∷ starts
    ∷ restarts
    ∷ answers accepted
    ∷ drain_goes_on none_throws 200 true
    ∷ drain_begins 100
    ∷ enqueues 100 7 1 rule event
    ∷ creates 1 rule
    ∷ starts
    ∷ []

sent_again :
    noted (run killed).0.sending (run killed).0.arrived ++ (run killed).1
    ≡ (7, succeeded) ∷ (7, lost) ∷ (7, succeeded) ∷ []
unfolding perform answer restart drain_on continue_drain begin_drain create_rule enqueue_for_rule
    matches_rule has_delivery deliver_by deliver_row deliver lookup insert retain
sent_again = refl

reached-IsOrderly_example :
    IsOrderly (noted (run steps).0.sending (run steps).0.arrived ++ (run steps).1)
unfolding perform answer write succeed refuse write_delivered reset_rule drain_on continue_drain
    begin_drain create_rule enqueue_for_rule matches_rule has_delivery update_delivery update_rule
    fail deliver_by deliver_row deliver lookup insert retain
reached-IsOrderly_example = reached-IsOrderly (run steps).0 (run steps).1 (
    run-IsReached steps (
      refl,
      (refl, (refl, (refl, (refl, (refl, (refl, (refl, (refl, (refl, (refl, (refl, tt))))))))))),
    ))
