-- ===== src/Notices/Routes.antt =====
-- apps/server/src/notifications/dispatcher.ts: new deliveries and changed rules keep the order.
use steam_bee.Common.{
  ℕ, suc, ◌≡◌, refl, sym, ap, subst, ◌∙◌, Bool, true, false, not, ◌||◌, Option, none, some, List,
  [], ◌∷◌, arith, ◌==◌, if◌then◌else◌, if-intro, Option-cases, Bool-cases, ◌⊎◌, inl, inr,
}
use steam_bee.Common.Maps.{lookup, insert, retain, lookup-insert, lookup-delete}
use steam_bee.Notices.{
  Delivery, Rule, Event, Dispatcher, includes, enqueue_for_rule, has_revision, matches_rule,
  has_delivery,
}
use steam_bee.Notices.Log.{Entry, succeeded, threw, lost, tries, was_accepted}
use steam_bee.Notices.Steps.{
  keeps_rule, rule_values, replace_rule, create_rule, delete_rule, is_sent, is_listed, is_new,
}
use steam_bee.Notices.Rows.{insert-IsKeyed, retain-IsKeyed, lookup-retained, same_value}
use steam_bee.Notices.Orderly.{IsRow, IsOrdered}

untried : (id : ℕ) (log : List Entry) → tries id log ≡ 0 → was_accepted id log ≡ false
untried id [] e = refl
untried id ((j, succeeded) ∷ log) e = ground (arith, e, untried id log)
untried id ((j, threw) ∷ log) e = ground (arith, e, untried id log)
untried id ((j, lost) ∷ log) e = ground (arith, e, untried id log)

module _ (d : Dispatcher) (log : List Entry) (v : IsOrdered d log) where
  new_row :
      (id : ℕ) (row : Delivery) (j : ℕ) (found : Delivery)
      → lookup j (insert id row d.deliveries) ≡ some found
      → (((id == j) ≡ true) × (row ≡ found))
        ⊎ (((id == j) ≡ false) × (lookup j d.deliveries ≡ some found))
  new_row id row j found e =
      let split = sym (lookup-insert id j row d.deliveries) ∙ e in
      let At : Bool → Type 0 = λ b. (if b then some row else lookup j d.deliveries) ≡ some found in
      elim (Bool-cases (id == j)) [
        | inl t ↦ inl (t, same_value row found (subst At t split))
        | inr t ↦ inr (t, subst At t split)
      ]

  inserted-IsOrdered :
      (id : ℕ) (row : Delivery)
      → is_new id d log ≡ true
      → row.attempts ≡ 0
      → IsOrdered (record d { deliveries = insert id row d.deliveries }) log
  inserted-IsOrdered id row new a =
      let none_tried : tries id log ≡ 0 = ground (arith, new) in
      record {
        keyed = insert-IsKeyed id row d.deliveries v.keyed;
        rows = λ j found e. elim (new_row id row j found e) [
          | inl (t, same) ↦
              let same_key : id ≡ j = ground (arith, t) in
              subst (λ x. IsRow log j x) same
                (subst (λ i. IsRow log i row) same_key
                  (record {
                    counted = omega (arith, none_tried);
                    low = λ h. omega (arith, a);
                    unaccepted = λ h. untried id log none_tried;
                  }))
          | inr (t, found_before) ↦ v.rows j found found_before
        ];
        queue = λ ids e.
            let q = v.queue ids e in
            let unlisted : is_listed id d.draining ≡ false = ground (arith, new) in
            record {
              distinct = q.distinct;
              opened = λ j found i f. elim (new_row id row j found f) [
                | inl (t, same) ↦
                    let same_key : id ≡ j = ground (arith, t) in
                    ground (
                      arith,
                      i,
                      subst (λ o. is_listed id o ≡ false) e unlisted,
                      ap (λ k. includes k ids) same_key,
                    )
                | inr (t, found_before) ↦ q.opened j found i found_before
              ];
            };
        sending = λ i s e.
            let w = v.sending i s e in
            let unsent : is_sent id d.sending ≡ false = ground (arith, new) in
            record {
              counted = w.counted;
              low = w.low;
              unaccepted = w.unaccepted;
              unlisted = w.unlisted;
              read = λ found f. elim (new_row id row i found f) [
                | inl (t, same) ↦
                    let other = subst (λ o. is_sent id o ≡ false) e unsent in
                    ground (arith, t, other)
                | inr (t, found_before) ↦ w.read found found_before
              ];
            };
        alone = v.alone;
        orderly = v.orderly;
      }

  pub enqueue_for_rule-IsOrdered :
      (now id rule_id : ℕ) (rule : Rule) (event : Event)
      → is_new id d log ≡ true
      → IsOrdered (enqueue_for_rule now id rule_id rule event d) log
  unfolding enqueue_for_rule
  enqueue_for_rule-IsOrdered now id rule_id rule event new =
      if-intro (λ (x : Dispatcher). IsOrdered x log)
        (not (matches_rule rule.event_types event) || has_delivery rule_id event.id d.deliveries)
        (λ e. v) (λ e. inserted-IsOrdered id _ new refl)

  -- A change of the rules that keeps those of the deliveries that stay.
  routed-IsOrdered :
      (p : Delivery → Bool) (rules : List (ℕ × Rule))
      → ((row : Delivery)
          → p row ≡ true
          → has_revision row.rule_revision (lookup row.rule_id d.rules) ≡ true
          → has_revision row.rule_revision (lookup row.rule_id rules) ≡ true)
      → IsOrdered (record d { deliveries = retain p d.deliveries; rules = rules }) log
  routed-IsOrdered p rules k = record {
    keyed = retain-IsKeyed p d.deliveries v.keyed;
    rows = λ id row e. v.rows id row (lookup-retained p id d.deliveries row v.keyed e).0;
    queue = λ ids e.
        let q = v.queue ids e in
        record {
          distinct = q.distinct;
          opened =
              λ id row i f. q.opened id row i (lookup-retained p id d.deliveries row v.keyed f).0;
        };
    sending = λ i s e.
        let w = v.sending i s e in
        record {
          counted = w.counted;
          low = w.low;
          unaccepted = w.unaccepted;
          unlisted = w.unlisted;
          read = λ row f.
              let kept = lookup-retained p i d.deliveries row v.keyed f in
              let r = w.read row kept.0 in
              let Has : List (ℕ × Rule) → ℕ → ℕ → Type 0 =
                λ m rule revision. has_revision revision (lookup rule m) ≡ true in
              let before =
                subst (λ n. Has d.rules n row.rule_revision) (sym r.rule)
                  (subst (λ n. Has d.rules s.rule_id n) (sym r.revision) r.current) in
              record {
                attempts = r.attempts;
                rule = r.rule;
                revision = r.revision;
                current =
                    subst (λ n. Has rules n s.rule_revision) r.rule
                      (subst (λ n. Has rules row.rule_id n) r.revision (k row kept.1 before));
              };
        };
    alone = v.alone;
    orderly = v.orderly;
  }

  ruled-IsOrdered :
      (rules : List (ℕ × Rule))
      → ((r n : ℕ)
          → has_revision n (lookup r d.rules) ≡ true
          → has_revision n (lookup r rules) ≡ true)
      → IsOrdered (record d { rules = rules }) log
  ruled-IsOrdered rules k = record {
    keyed = v.keyed;
    rows = v.rows;
    queue = v.queue;
    sending = λ i s e.
        let w = v.sending i s e in
        record {
          counted = w.counted;
          low = w.low;
          unaccepted = w.unaccepted;
          unlisted = w.unlisted;
          read = λ row f.
              let r = w.read row f in
              record {
                attempts = r.attempts;
                rule = r.rule;
                revision = r.revision;
                current = k s.rule_id s.rule_revision r.current;
              };
        };
    alone = v.alone;
    orderly = v.orderly;
  }

  pub create_rule-IsOrdered :
      (rule_id : ℕ) (values : Rule) → IsOrdered (create_rule rule_id values d) log
  unfolding create_rule
  create_rule-IsOrdered rule_id values = elim (Option-cases (lookup rule_id d.rules)) [
    | inr (rule, f) ↦ rw (create_rule, f) v
    | inl n ↦
        rw (create_rule, n)
          (ruled-IsOrdered _ (λ r revision h.
            rw (lookup-insert rule_id r (rule_values 1 values) d.rules) (
              if-intro (λ (o : Option Rule). has_revision revision o ≡ true) (rule_id == r)
                (λ t.
                  let same_key : rule_id ≡ r = ground (arith, t) in
                  let missing = subst (λ i. lookup i d.rules ≡ none) same_key n in
                  ground (arith, missing, h))
                (λ t. h))))
  ]

  pub replace_rule-IsOrdered :
      (rule_id : ℕ) (values : Rule) → IsOrdered (replace_rule rule_id values d) log
  unfolding replace_rule
  replace_rule-IsOrdered rule_id values = elim (Option-cases (lookup rule_id d.rules)) [
    | inl n ↦ rw (replace_rule, n) v
    | inr (rule, f) ↦
        rw (replace_rule, f)
          (routed-IsOrdered (keeps_rule rule_id) _ (λ row p h.
            rw (lookup-insert rule_id row.rule_id (rule_values (suc rule.revision) values) d.rules)
              (ground (arith, p, h))))
  ]

  pub delete_rule-IsOrdered : (rule_id : ℕ) → IsOrdered (delete_rule rule_id d) log
  unfolding delete_rule
  delete_rule-IsOrdered rule_id =
      routed-IsOrdered (keeps_rule rule_id) _
        (λ row p h. rw (lookup-delete rule_id row.rule_id d.rules) (ground (arith, p, h)))
