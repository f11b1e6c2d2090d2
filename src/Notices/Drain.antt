-- ===== src/Notices/Drain.antt =====
-- apps/server/src/notifications/dispatcher.ts: a drain keeps the order.
use steam_bee.Common.{
  ℕ, zero, suc, ◌≡◌, refl, subst, Bool, true, false, none, some, List, [], ◌∷◌, arith, if-intro,
  Option-cases, inl, inr,
}
use steam_bee.Common.Maps.{lookup, retain}
use steam_bee.Notices.{Fault, Delivery, Dispatcher, includes, is_due}
use steam_bee.Notices.Log.{Entry}
use steam_bee.Notices.Requests.{keys, take, begin_drain, continue_drain, drain_on, fail_drain}
use steam_bee.Notices.Rows.{IsKeyed, retain-IsKeyed, lookup-key}
use steam_bee.Notices.Orderly.{IsDistinct, IsQueue, IsOrdered}
use steam_bee.Notices.Answers.{ended-IsOrdered}
use steam_bee.Notices.Deliver.{same_list, IsTurn, deliver-IsOrdered}

module _ (d : Dispatcher) (log : List Entry) (v : IsOrdered d log) where
  rest-IsOrdered :
      (id : ℕ) (ids : List ℕ)
      → d.sending ≡ none
      → d.draining ≡ some (id ∷ ids)
      → IsOrdered (record d { draining = some ids }) log
        × IsTurn (record d { draining = some ids }) id
  rest-IsOrdered id ids n e =
      let q = v.queue (id ∷ ids) e in
      (
        record {
          keyed = v.keyed;
          rows = v.rows;
          queue = λ js g.
              subst (λ x. IsQueue d.deliveries x) (same_list ids js g)
                (record {
                  distinct = q.distinct.1;
                  opened = λ j row i f. q.opened j row (ground (arith, i)) f;
                });
          sending = λ i s f. ground (arith, n, f);
          alone = λ f. n;
          orderly = v.orderly;
        },
        record {
          quiet = n;
          rest = ids;
          drains = refl;
          unlisted = q.distinct.0;
          opened = λ row f. q.opened id row (ground arith) f;
        },
      )

  continue_drain-IsOrdered :
      (fault : Fault) (now : ℕ) (opens : Bool) (ids : List ℕ)
      → d.sending ≡ none
      → d.draining ≡ some ids
      → IsOrdered (continue_drain fault now opens ids d) log
  unfolding continue_drain
  continue_drain-IsOrdered fault now opens [] n e = ended-IsOrdered d log v n
  continue_drain-IsOrdered fault now opens (id ∷ ids) n e =
      let rest = rest-IsOrdered id ids n e in
      if-intro (λ (x : Dispatcher). IsOrdered x log) d.running
        (λ f.
          deliver-IsOrdered (record d { draining = some ids }) log id rest.0 rest.1 fault now opens)
        (λ f. ended-IsOrdered d log v n)

  pub drain_on-IsOrdered :
      (fault : Fault) (now : ℕ) (opens : Bool) → IsOrdered (drain_on fault now opens d) log
  unfolding drain_on
  drain_on-IsOrdered fault now opens = elim (Option-cases d.draining) [
    | inl n ↦ rw (drain_on, n) v
    | inr (ids, f) ↦ elim (Option-cases d.sending) [
      | inl n ↦ rw (drain_on, f, n) (continue_drain-IsOrdered fault now opens ids n f)
      | inr (sent, g) ↦ rw (drain_on, f, g) v
    ]
  ]

pub fail_drain-IsOrdered :
    (d : Dispatcher) (log : List Entry) → IsOrdered d log → IsOrdered (fail_drain d) log
unfolding fail_drain
fail_drain-IsOrdered d log v = elim (Option-cases d.sending) [
  | inl n ↦ rw (fail_drain, n) (ended-IsOrdered d log v n)
  | inr (sent, f) ↦ rw (fail_drain, f) v
]

unkeyed_absent : (k : ℕ) (m : List (ℕ × Delivery)) → lookup k m ≡ none → includes k (keys m) ≡ false
unfolding lookup
unkeyed_absent k [] h = refl
unkeyed_absent k ((i, u) ∷ m) h = ground (arith, h, unkeyed_absent k m)

keys_distinct : (m : List (ℕ × Delivery)) → IsKeyed m → IsDistinct (keys m)
keys_distinct [] h = tt
keys_distinct ((j, u) ∷ m) h = (unkeyed_absent j m h.0, keys_distinct m h.1)

taken_included : (n k : ℕ) (ids : List ℕ) → includes k (take n ids) ≡ true → includes k ids ≡ true
taken_included zero k ids h = cc
taken_included (suc n) k [] h = cc
taken_included (suc n) k (id ∷ ids) h = ground (arith, h, taken_included n k ids)

taken_distinct : (n : ℕ) (ids : List ℕ) → IsDistinct ids → IsDistinct (take n ids)
taken_distinct zero ids d = tt
taken_distinct (suc n) [] d = tt
taken_distinct (suc n) (id ∷ ids) d =
    (ground (arith, d.0, taken_included n id ids), taken_distinct n ids d.1)

pub begin_drain-IsOrdered :
    (now : ℕ) (d : Dispatcher) (log : List Entry)
    → IsOrdered d log
    → IsOrdered (begin_drain now d) log
unfolding begin_drain
begin_drain-IsOrdered now d log v = elim (Option-cases d.draining) [
  | inr (ids, f) ↦ rw (begin_drain, f) v
  | inl n ↦
      let due = keys (retain (is_due now) d.deliveries) in
      rw (begin_drain, n)
        (record {
          keyed = v.keyed;
          rows = v.rows;
          queue = λ ids e.
              subst (λ x. IsQueue d.deliveries x) (same_list (take 20 due) ids e)
                (record {
                  distinct =
                      taken_distinct 20 due
                        (keys_distinct _ (retain-IsKeyed (is_due now) d.deliveries v.keyed));
                  opened = λ id row i f.
                      let found =
                        lookup-key (is_due now) id d.deliveries row v.keyed
                          (taken_included 20 id due i) f in
                      ground (arith, found);
                });
          sending = λ i s e. ground (arith, v.alone n, e);
          alone = λ e. v.alone n;
          orderly = v.orderly;
        })
]
