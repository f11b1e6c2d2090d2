-- ===== src/Prices/Queue.antt =====
-- apps/server/src/inventory/price-reader.ts: the reads that are active and those that wait.
use steam_bee.Common.{
  ℕ, suc, ◌+◌, ◌-◌, ◌≤◌, ◌<◌, ◌≡◌, refl, ap, Bool, true, false, not, List, [], ◌∷◌, ◌++◌, ltb, ◌==◌,
  if◌then◌else◌, length, length-append, arith, if-intro,
}
use steam_bee.Prices.{
  Reader, Turn, Operation, scheduled, timed_out, finished, observed, cools_down, rate_limited,
  pump_from, pump, schedule, includes, remove_first, time_out, finish, settle, operate, operate_all,
  new_reader,
}

-- What holds of a reader after something happened at this time.
pub record IsBounded (now : ℕ) (r : Reader) : Type 0 where
  pub few_active : r.active ≤ 2
  pub few_waiting : length r.waiting ≤ 40
  pub no_idle : r.active < 2 → length r.waiting ≡ 0
  pub short : r.cooldown_until ≤ now + 300_000
  pub few_steps : r.cooldown_step ≤ 4

-- What the pump makes of the reads that wait.
-- How often a read stands in a list.
abbrev pub count : ℕ → List ℕ → ℕ
count id [] = 0
count id (x ∷ xs) = (if x == id then 1 else 0) + count id xs

count-append : (id : ℕ) (xs ys : List ℕ) → count id (xs ++ ys) ≡ count id xs + count id ys
count-append id [] ys = omega arith
count-append id (x ∷ xs) ys = omega (arith, count-append id xs ys)

record IsPumped (now : ℕ) (r : Reader) (reads : List ℕ) (t : Turn) : Type 0 where
  few_active : t.reader.active ≤ 2
  no_idle : t.reader.active < 2 → length t.reader.waiting ≡ 0
  kept :
      (id : ℕ) → count id reads ≡ count id t.begun + count id t.rejected + count id t.reader.waiting
  fewer : length t.reader.waiting ≤ length reads
  same_until : t.reader.cooldown_until ≡ r.cooldown_until
  same_step : t.reader.cooldown_step ≡ r.cooldown_step
  quiet : cools_down now r ≡ true → length t.begun ≡ 0

pump_from-IsPumped :
    (now : ℕ) (r : Reader) (reads : List ℕ)
    → r.active ≤ 2
    → IsPumped now r reads (pump_from now r reads)
unfolding pump_from
pump_from-IsPumped now r [] l = record {
  few_active = l;
  no_idle = λ h. refl;
  kept = λ id. refl;
  fewer = omega arith;
  same_until = refl;
  same_step = refl;
  quiet = λ h. refl;
}
pump_from-IsPumped now r (read ∷ reads) l =
    let next : Reader = record r { active = if cools_down now r then r.active else suc r.active } in
    if-intro (IsPumped now r (read ∷ reads)) (not (ltb r.active 2)) (λ e. ground (arith, e, l))
      (λ e.
        let rest = pump_from-IsPumped now next reads (ground (arith, e, l)) in
        if-intro (IsPumped now r (read ∷ reads)) (cools_down now r)
          (λ h. record {
            few_active = rest.few_active;
            no_idle = rest.no_idle;
            kept = λ id. omega (arith, rest.kept id);
            fewer = omega (arith, rest.fewer);
            same_until = rest.same_until;
            same_step = rest.same_step;
            quiet = λ g. rest.quiet g;
          })
          (λ h. record {
            few_active = rest.few_active;
            no_idle = rest.no_idle;
            kept = λ id. omega (arith, rest.kept id);
            fewer = omega (arith, rest.fewer);
            same_until = rest.same_until;
            same_step = rest.same_step;
            quiet = λ g. ground (arith, g, h);
          }))

-- The reads that an operation asks for.
abbrev pub asked : Operation → List ℕ
asked op = elim op [ scheduled read ↦ read ∷ [] | _ ↦ [] ]

-- What an operation does: it keeps the bounds, starts nothing during a cooldown, and starts or rejects
-- each read that no longer waits, as often as it waited.
pub record IsTurn (now : ℕ) (op : Operation) (r : Reader) (t : Turn) : Type 0 where
  pub bounded : IsBounded now t.reader
  pub quiet : cools_down now t.reader ≡ true → length t.begun ≡ 0
  pub kept :
      (id : ℕ)
      → count id r.waiting + count id (asked op)
        ≡ count id t.begun + count id t.rejected + count id t.reader.waiting

module _ (last now : ℕ) (r : Reader) (l : last ≤ now) (v : IsBounded last r) where
  schedule-IsTurn : (read : ℕ) → IsTurn now (scheduled read) r (schedule now read r)
  unfolding schedule
  schedule-IsTurn read = ground (
    arith,
    l,
    v.few_active,
    v.few_waiting,
    v.no_idle,
    v.short,
    v.few_steps,
    length-append r.waiting (read ∷ []),
    (λ (id : ℕ). count-append id r.waiting (read ∷ [])),
  )

  remove_first-length :
      (read : ℕ) (xs : List ℕ)
      → includes read xs ≡ true
      → length xs ≡ 1 + length (remove_first read xs)
  remove_first-length read [] e = cc
  remove_first-length read (x ∷ xs) e = ground (arith, e, remove_first-length read xs)

  remove_first-count :
      (read : ℕ) (xs : List ℕ)
      → includes read xs ≡ true
      → (id : ℕ) → count id xs ≡ (if read == id then 1 else 0) + count id (remove_first read xs)
  remove_first-count read [] e id = cc
  remove_first-count read (x ∷ xs) e id =
      ground (arith, e, λ (f : includes read xs ≡ true). remove_first-count read xs f id)

  time_out-IsTurn : (read : ℕ) → IsTurn now (timed_out read) r (time_out read r)
  unfolding time_out
  time_out-IsTurn read = ground (
    arith,
    l,
    v.few_active,
    v.few_waiting,
    v.no_idle,
    v.short,
    v.few_steps,
    remove_first-length read r.waiting,
    remove_first-count read r.waiting,
  )

  abbrev told : Bool → Reader
  told limited = if limited then rate_limited now r else r

  -- A limit of the rate leaves the reads as they are, and the bounds of the cooldown.
  rate_limited-short :
      (limited : Bool)
      → ((told limited).active ≡ r.active)
        × ((told limited).waiting ≡ r.waiting)
        × ((told limited).cooldown_until ≤ now + 300_000)
        × ((told limited).cooldown_step ≤ 4)
  unfolding rate_limited
  rate_limited-short true = (refl, refl, omega (arith, l, v.short), omega arith)
  rate_limited-short false = (refl, refl, omega (arith, l, v.short), v.few_steps)

  finish-IsTurn :
      (limited : Bool) → 0 < r.active → IsTurn now (finished limited) r (finish now limited r)
  unfolding finish pump
  finish-IsTurn limited p =
      let known = rate_limited-short limited in
      let next : Reader = record (told limited) { active = (told limited).active - 1 } in
      let pumped =
        pump_from-IsPumped now next (told limited).waiting (omega (arith, known.0, v.few_active)) in
      let same : length (told limited).waiting ≡ length r.waiting = ap length known.1 in
      record {
        bounded = record {
          few_active = pumped.few_active;
          few_waiting = omega (arith, pumped.fewer, same, v.few_waiting);
          no_idle = pumped.no_idle;
          short = omega (arith, pumped.same_until, known.2);
          few_steps = omega (arith, pumped.same_step, known.3);
        };
        quiet = λ h. pumped.quiet (ground (arith, h, pumped.same_until));
        kept = λ id. omega (arith, pumped.kept id, ap (count id) known.1);
      }

  settle-IsTurn :
      IsTurn now observed r (record { reader = settle now r; begun = []; rejected = [] })
  unfolding settle
  settle-IsTurn = ground (arith, l, v.few_active, v.few_waiting, v.no_idle, v.short, v.few_steps)

  still-IsTurn :
      (limited : Bool)
      → IsTurn now (finished limited) r (record { reader = r; begun = []; rejected = [] })
  still-IsTurn limited =
      ground (arith, l, v.few_active, v.few_waiting, v.no_idle, v.short, v.few_steps)

  operate-IsTurn : (op : Operation) → IsTurn now op r (operate now op r)
  unfolding operate
  operate-IsTurn (scheduled read) = schedule-IsTurn read
  operate-IsTurn (timed_out read) = time_out-IsTurn read
  operate-IsTurn (finished limited) =
      if-intro (IsTurn now (finished limited) r) (r.active == 0) (λ e. still-IsTurn limited)
        (λ e. finish-IsTurn limited (ground (arith, e)))
  operate-IsTurn observed = settle-IsTurn

-- The clock does not go back from one operation to the next.
abbrev pub IsClocked : ℕ → List (ℕ × Operation) → Type 0
IsClocked last [] = Unit
IsClocked last ((now, op) ∷ ops) = (last ≤ now) × IsClocked now ops

abbrev pub time_of : ℕ → List (ℕ × Operation) → ℕ
time_of last [] = last
time_of last ((now, op) ∷ ops) = time_of now ops

operate_from-IsBounded :
    (ops : List (ℕ × Operation)) (last : ℕ) (r : Reader)
    → IsClocked last ops
    → IsBounded last r
    → IsBounded (time_of last ops) (operate_all ops r)
unfolding operate_all
operate_from-IsBounded [] last r c v = v
operate_from-IsBounded ((now, op) ∷ ops) last r c v =
    operate_from-IsBounded ops now _ c.1 (operate-IsTurn last now r c.0 v op).bounded

-- After any operations on a new reader whose clock does not go back, and one more operation: at most two
-- reads are active and at most 40 wait, none waits while fewer than two are active, and a cooldown ends at
-- most five minutes later; the operation has started no read if the reader cools down then; and each read
-- that waited or was asked for has started, was rejected or waits, counted as often as it stood there.
pub operate_all-IsTurn :
    (ops : List (ℕ × Operation)) (now : ℕ) (op : Operation)
    → IsClocked 0 ops
    → time_of 0 ops ≤ now
    → IsTurn now op (operate_all ops new_reader) (operate now op (operate_all ops new_reader))
operate_all-IsTurn ops now op c l =
    operate-IsTurn (time_of 0 ops) now _ l (operate_from-IsBounded ops 0 new_reader c start) op
  where
    start : IsBounded 0 new_reader
    start = ground arith
