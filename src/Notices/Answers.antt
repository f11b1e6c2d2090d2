-- ===== src/Notices/Answers.antt =====
-- apps/server/src/notifications/dispatcher.ts: what becomes of a request keeps the order.
use steam_bee.Common.{
  ℕ, suc, ◌+◌, ◌≤◌, ◌≡◌, refl, subst, Bool, true, false, none, some, Option, List, ◌∷◌, ◌++◌, arith,
  if-intro,
}
use steam_bee.Common.Maps.{lookup}
use steam_bee.Notices.{
  Delivery, Dispatcher, Rule, Fault, none_throws, delivery_throws, rule_throws, includes,
  has_revision, update_delivery, fail_delivery, fail, is_open,
}
use steam_bee.Notices.Log.{Entry, succeeded, threw, lost, tries, losses, was_accepted}
use steam_bee.Notices.Requests.{settled, write_delivered, reset_rule, succeed, refuse}
use steam_bee.Notices.Steps.{is_listed}
use steam_bee.Notices.Rows.{update_delivery-IsKeyed}
use steam_bee.Notices.Orderly.{
  IsRow, IsNoted, IsSending, IsOrdered, updated_rows, updated-IsQueue, answered_rows, gone_rows,
  lost_rows,
}

-- An error ends the drain, where no request is in flight.
pub ended-IsOrdered :
    (d : Dispatcher) (log : List Entry)
    → IsOrdered d log
    → d.sending ≡ none
    → IsOrdered (record d { draining = none }) log
ended-IsOrdered d log v n = record {
  keyed = v.keyed;
  rows = v.rows;
  queue = λ ids e. cc;
  sending = λ i s e. ground (arith, n, e);
  alone = λ e. n;
  orderly = v.orderly;
}

-- `fail`, where the order holds before.
module _ (d : Dispatcher) (log : List Entry) (id : ℕ) (s : Delivery) (v : IsOrdered d log)
    (quiet : d.sending ≡ none) (unlisted : is_listed id d.draining ≡ false)
    (counted : tries id log ≤ suc s.attempts + losses id log)
    (unaccepted : was_accepted id log ≡ false) (now : ℕ) where
  failed_rows :
      (j : ℕ) (row : Delivery)
      → lookup j (update_delivery id s.rule_revision (fail_delivery now s.attempts) d.deliveries)
        ≡ some row
      → IsRow log j row
  failed_rows =
      updated_rows log id s.rule_revision _ d.deliveries (λ j row e n. v.rows j row e)
        (λ row e g. record {
          counted = omega (arith, counted);
          low = λ h. ground (arith, h);
          unaccepted = λ h. unaccepted;
        })

  failed-IsOrdered :
      (draining : Option (List ℕ)) (rules : List (ℕ × Rule))
      → ((ids : List ℕ) → draining ≡ some ids → d.draining ≡ some ids)
      → IsOrdered
          (record d {
            deliveries =
                update_delivery id s.rule_revision (fail_delivery now s.attempts) d.deliveries;
            draining = draining;
            rules = rules;
          })
          log
  failed-IsOrdered draining rules same = record {
    keyed = update_delivery-IsKeyed id s.rule_revision _ d.deliveries v.keyed;
    rows = failed_rows;
    queue = λ ids e.
        updated-IsQueue log id s.rule_revision _ d.deliveries ids
          (subst (λ o. is_listed id o ≡ false) (same ids e) unlisted) (v.queue ids (same ids e));
    sending = λ i x e. ground (arith, quiet, e);
    alone = λ e. quiet;
    orderly = v.orderly;
  }

  pub fail-IsOrdered : (fault : Fault) → IsOrdered (fail fault now id s d) log
  unfolding fail
  fail-IsOrdered delivery_throws = ended-IsOrdered d log v quiet
  fail-IsOrdered rule_throws =
      if-intro (λ (x : Dispatcher). IsOrdered x log)
        (has_revision s.rule_revision (lookup s.rule_id d.rules))
        (λ e. failed-IsOrdered none d.rules (λ ids f. cc)) (λ e. v)
  fail-IsOrdered none_throws =
      if-intro (λ (x : Dispatcher). IsOrdered x log)
        (has_revision s.rule_revision (lookup s.rule_id d.rules))
        (λ e. failed-IsOrdered d.draining _ (λ ids f. f)) (λ e. v)

module _ (now : ℕ) (d : Dispatcher) (log : List Entry) (id : ℕ) (s : Delivery) (v : IsOrdered d log)
    (w : IsSending d log id s) where
  unlisted : (ids : List ℕ) → d.draining ≡ some ids → includes id ids ≡ false
  unlisted ids e = subst (λ o. is_listed id o ≡ false) e w.unlisted

  pub succeeded-IsNoted : IsNoted log ((id, succeeded) ∷ log) id (suc s.attempts) true
  succeeded-IsNoted = record {
    others = λ j n. ground (arith, n);
    counted = ground (arith, w.counted);
    accepted = ground arith;
    orderly = (λ h. (omega (arith, w.counted, w.low), w.unaccepted), v.orderly);
  }

  pub threw-IsNoted : IsNoted log ((id, threw) ∷ log) id (suc s.attempts) false
  threw-IsNoted = record {
    others = λ j n. ground (arith, n);
    counted = ground (arith, w.counted);
    accepted = ground (arith, w.unaccepted);
    orderly = (λ h. (omega (arith, w.counted, w.low), w.unaccepted), v.orderly);
  }

  -- A loss without a request that returned.
  pub lost-IsNoted : IsNoted log ((id, lost) ∷ log) id s.attempts false
  lost-IsNoted = record {
    others = λ j n. ground (arith, n);
    counted = ground (arith, w.counted);
    accepted = ground arith;
    orderly = (λ h. cc, v.orderly);
  }

  -- A loss of what a request returned.
  pub then_lost-IsNoted :
      (ok : Bool) (more : List Entry)
      → IsNoted log more id (suc s.attempts) ok
      → IsNoted log ((id, lost) ∷ more) id s.attempts false
  then_lost-IsNoted ok more t = record {
    others = λ j n.
        let same = t.others j n in
        (ground (arith, n, same.0), ground (arith, n, same.1), ground (arith, n, same.2));
    counted = ground (arith, t.counted);
    accepted = ground arith;
    orderly = (λ h. cc, t.orderly);
  }

  -- A loss leaves the rows.
  pub settled-IsOrdered :
      (more : List Entry) → IsNoted log more id s.attempts false → IsOrdered (settled d) more
  settled-IsOrdered more t = record {
    keyed = v.keyed;
    rows = lost_rows d log more id s v w t;
    queue = v.queue;
    sending = λ i x e. cc;
    alone = λ e. refl;
    orderly = t.orderly;
  }

  written-IsOrdered :
      (more : List Entry) (ok : Bool) (f : Delivery → Delivery) (draining : Option (List ℕ))
      (rules : List (ℕ × Rule))
      → IsNoted log more id (suc s.attempts) ok
      → ((ids : List ℕ) → draining ≡ some ids → d.draining ≡ some ids)
      → ((row : Delivery) → suc s.attempts ≤ (f row).attempts)
      → ((row : Delivery) → is_open (f row).status ≡ true → ((f row).attempts ≤ 2) × (ok ≡ false))
      → IsOrdered
          (record d {
            deliveries = update_delivery id s.rule_revision f d.deliveries;
            draining = draining;
            rules = rules;
            sending = none;
            arrived = none;
          })
          more
  written-IsOrdered more ok f draining rules t same k o = record {
    keyed = update_delivery-IsKeyed id s.rule_revision _ d.deliveries v.keyed;
    rows = answered_rows d log more id s v w ok f t k o;
    queue = λ ids e.
        updated-IsQueue log id s.rule_revision _ d.deliveries ids (unlisted ids (same ids e))
          (v.queue ids (same ids e));
    sending = λ i x e. cc;
    alone = λ e. refl;
    orderly = t.orderly;
  }

  gone-IsOrdered :
      has_revision s.rule_revision (lookup s.rule_id d.rules) ≡ false
      → IsOrdered (settled d) ((id, threw) ∷ log)
  gone-IsOrdered e = record {
    keyed = v.keyed;
    rows = gone_rows d log _ id s v w false threw-IsNoted e;
    queue = v.queue;
    sending = λ i x f. cc;
    alone = λ f. refl;
    orderly = threw-IsNoted.orderly;
  }

  pub refuse-IsOrdered :
      (again : Fault)
      → IsOrdered
          (refuse again now id s (settled d)).0
          ((refuse again now id s (settled d)).1 ++ log)
  unfolding refuse fail
  refuse-IsOrdered delivery_throws =
      ended-IsOrdered (settled d) _ (settled-IsOrdered _ (then_lost-IsNoted false _ threw-IsNoted))
        refl
  refuse-IsOrdered rule_throws =
      if-intro (λ (x : Dispatcher). IsOrdered x ((id, threw) ∷ log))
        (has_revision s.rule_revision (lookup s.rule_id d.rules))
        (λ e.
          written-IsOrdered _ false (fail_delivery now s.attempts) none d.rules threw-IsNoted
            (λ ids f. cc) (λ row. omega arith) (λ row h. (ground (arith, h), refl)))
        (λ e. gone-IsOrdered e)
  refuse-IsOrdered none_throws =
      if-intro (λ (x : Dispatcher). IsOrdered x ((id, threw) ∷ log))
        (has_revision s.rule_revision (lookup s.rule_id d.rules))
        (λ e.
          written-IsOrdered _ false (fail_delivery now s.attempts) d.draining _ threw-IsNoted
            (λ ids f. f) (λ row. omega arith) (λ row h. (ground (arith, h), refl)))
        (λ e. gone-IsOrdered e)

  pub succeed-IsOrdered :
      (fault again : Fault)
      → IsOrdered
          (succeed fault again now id s (settled d)).0
          ((succeed fault again now id s (settled d)).1 ++ log)
  unfolding succeed write_delivered reset_rule
  succeed-IsOrdered none_throws again =
      written-IsOrdered _ true _ d.draining _ succeeded-IsNoted (λ ids f. f) (λ row. omega arith)
        (λ row h. cc)
  succeed-IsOrdered delivery_throws again =
      let t = then_lost-IsNoted true _ succeeded-IsNoted in
      fail-IsOrdered (settled d) _ id s (settled-IsOrdered _ t) refl w.unlisted
        (omega (arith, t.counted)) t.accepted now again
  succeed-IsOrdered rule_throws again =
      let t = then_lost-IsNoted true _ succeeded-IsNoted in
      let late : IsNoted log ((id, lost) ∷ (id, succeeded) ∷ log) id (suc s.attempts) false =
        record {
          others = t.others;
          counted = omega (arith, t.counted);
          accepted = t.accepted;
          orderly = t.orderly;
        } in
      fail-IsOrdered _ _ id s
        (written-IsOrdered _ false _ d.draining d.rules late (λ ids f. f) (λ row. omega arith)
          (λ row h. cc))
        refl w.unlisted (omega (arith, t.counted)) t.accepted now again
