-- ===== src/Coordinator/Ticks.antt =====
-- apps/server/src/steam/schedule-coordinator.ts: `tick`, which starts a tick or has the one in flight
-- followed by another, `runTickLoop`, and the `finally` that runs after it.
use steam_bee.Common.{
  ℕ, ◌≤◌, ◌≡◌, Bool, true, false, ◌||◌, ◌&&◌, not, Option, none, some, List, [], ◌∷◌, arith, ltb,
  leb, if◌then◌else◌, any, All, ◌++◌, if-intro,
}
use steam_bee.Coordinator.{is_none}

-- `running` is the time of the tick in flight, the last one where the loop is `closing`: it has returned
-- or thrown, and the `finally` of `tick` has not run yet.
pub record Ticker : Type 0 where
  pub running : Option ℕ
  pub closing : Bool
  pub trailing : Option ℕ
  pub latest : Option ℕ

-- A call of `tick`; an end of `tickNow`, which returns or throws; and the `finally`, which is a later
-- microtask than the end of the loop.
pub data TickEvent : Type 0 where
  requested : ℕ → TickEvent
  ticked : TickEvent
  threw : TickEvent
  closed : TickEvent

abbrev pub no_tick : Ticker
no_tick = record { running = none; closing = false; trailing = none; latest = none }

abbrev pub is_later : ℕ → Option ℕ → Bool
is_later now none = true
is_later now (some t) = ltb t now

-- The result is the ticker and the ticks that begin.
unfoldable pub tick : ℕ → Ticker → Ticker × List ℕ
tick now k = elim k.running [
  | none ↦ (
    record { running = some now; closing = false; trailing = k.trailing; latest = some now },
    now ∷ [],
  )
  | some r ↦
      if is_later now k.latest
      then (record k { trailing = some now; latest = some now }, [])
      else (k, [])
]

-- What the loop does after a tick that ended without an error.
unfoldable pub run_tick_loop : Ticker → Ticker × List ℕ
run_tick_loop k = elim k.running [
  | none ↦ (k, [])
  | some r ↦ if k.closing then (k, []) else elim k.trailing [
    | none ↦ (record k { closing = true }, [])
    | some t ↦ (record k { running = some t; trailing = none }, t ∷ [])
  ]
]

-- An error of a tick ends the loop, which leaves the fields as they are.
unfoldable pub throw_tick : Ticker → Ticker
throw_tick k = elim k.running [ none ↦ k | some r ↦ record k { closing = true } ]

-- The `finally`.
unfoldable pub close : Ticker → Ticker
close k = if k.closing then no_tick else k

unfoldable pub handle : TickEvent → Ticker → Ticker × List ℕ
handle (requested now) k = tick now k
handle ticked k = run_tick_loop k
handle threw k = (throw_tick k, [])
handle closed k = (close k, [])

-- The ticker after some events, and the ticks that began, the last one first.
unfoldable pub handle_all : List TickEvent → Ticker → List ℕ → Ticker × List ℕ
handle_all [] k begun = (k, begun)
handle_all (e ∷ es) k begun = let next = handle e k in handle_all es next.0 (next.1 ++ begun)

-- Whether a tick for this time or a later one has begun.
abbrev pub is_served : List ℕ → ℕ → Bool
is_served begun now = any (λ t. leb now t) begun

-- A request waits for the tick that follows.
abbrev pub is_awaited : Option ℕ → ℕ → Bool
is_awaited none now = false
is_awaited (some t) now = leb now t

abbrev pub requests : List TickEvent → List ℕ
requests [] = []
requests (requested now ∷ es) = now ∷ requests es
requests (ticked ∷ es) = requests es
requests (threw ∷ es) = requests es
requests (closed ∷ es) = requests es

-- A request that the `finally` drops: it comes after the loop has ended and before the `finally`, or it
-- waits for the next tick while the one in flight throws.
abbrev pub drops : TickEvent → Ticker → Bool
drops (requested now) k = k.closing && is_later now k.latest
drops threw k = not (is_none k.trailing)
drops ticked k = false
drops closed k = false

-- None of the events drops a request.
abbrev pub none_dropped : List TickEvent → Ticker → Bool
none_dropped [] k = true
none_dropped (e ∷ es) k = not (drops e k) && none_dropped es (handle e k).0

-- No tick is in flight; or one is or has just ended, without another request, and the latest request is
-- served; or the tick that follows is for the latest request.
data IsLed (begun : List ℕ) : Ticker → Type 0 where
  idle : IsLed begun (record { running = none; closing = false; trailing = none; latest = none })
  alone :
      (r l : ℕ) (ends : Bool)
      → is_served begun l ≡ true
      → IsLed begun (record { running = some r; closing = ends; trailing = none; latest = some l })
  followed :
      (r l : ℕ)
      → IsLed begun
          (record { running = some r; closing = false; trailing = some l; latest = some l })

abbrev IsCovered : Ticker → List ℕ → ℕ → Type 0
IsCovered k begun now = (is_served begun now || is_awaited k.trailing now) ≡ true

served-cons :
    (t now : ℕ) (begun : List ℕ) → is_served begun now ≡ true → is_served (t ∷ begun) now ≡ true
served-cons t now begun e = ground (arith, e)

served-le : (begun : List ℕ) (a b : ℕ) → a ≤ b → is_served begun b ≡ true → is_served begun a ≡ true
served-le [] a b l e = cc
served-le (t ∷ ts) a b l e = ground (arith, l, e, served-le ts a b l)

-- A tick keeps the order of the requests, covers its own, and leaves the others covered.
record IsKept (begun : List ℕ) (k : Ticker) (next : Ticker × List ℕ) : Type 0 where
  led : IsLed (next.1 ++ begun) next.0
  covered : (t : ℕ) → IsCovered k begun t → IsCovered next.0 (next.1 ++ begun) t

abbrev IsAnswered : ℕ → List ℕ → Ticker → Ticker × List ℕ → Type 0
IsAnswered now begun k next = IsKept begun k next × IsCovered next.0 (next.1 ++ begun) now

tick-IsAnswered :
    (now : ℕ) (k : Ticker) (begun : List ℕ)
    → IsLed begun k
    → drops (requested now) k ≡ false
    → IsAnswered now begun k (tick now k)
unfolding tick
tick-IsAnswered now _ begun idle h = (
  record { led = alone now now false (ground arith); covered = λ t c. ground (arith, c) },
  ground arith,
)
tick-IsAnswered now _ begun (alone r l true s) h = rw h (
  record { led = alone r l true s; covered = λ t c. c },
  ground (arith, served-le begun now l (ground (arith, h)) s),
)
tick-IsAnswered now _ begun (alone r l false s) h =
    if-intro
      (IsAnswered now begun
        (record { running = some r; closing = false; trailing = none; latest = some l }))
      (ltb l now)
      (λ e. (record { led = followed r now; covered = λ t c. ground (arith, c) }, ground arith))
      (λ e. (
        record { led = alone r l false s; covered = λ t c. c },
        ground (arith, served-le begun now l (ground (arith, e)) s),
      ))
tick-IsAnswered now _ begun (followed r l) h =
    if-intro
      (IsAnswered now begun
        (record { running = some r; closing = false; trailing = some l; latest = some l }))
      (ltb l now)
      (λ e. (record { led = followed r now; covered = λ t c. ground (arith, c, e) }, ground arith))
      (λ e. (record { led = followed r l; covered = λ t c. c }, ground (arith, e)))

run_tick_loop-IsKept :
    (k : Ticker) (begun : List ℕ) → IsLed begun k → IsKept begun k (run_tick_loop k)
unfolding run_tick_loop
run_tick_loop-IsKept _ begun idle = record { led = idle; covered = λ t c. c }
run_tick_loop-IsKept _ begun (alone r l true s) = record {
  led = alone r l true s;
  covered = λ t c. c;
}
run_tick_loop-IsKept _ begun (alone r l false s) = record {
  led = alone r l true s;
  covered = λ t c. c;
}
run_tick_loop-IsKept _ begun (followed r l) = record {
  led = alone l l false (ground arith);
  covered = λ t c. ground (arith, c);
}

throw_tick-IsKept :
    (k : Ticker) (begun : List ℕ)
    → IsLed begun k
    → drops threw k ≡ false
    → IsKept begun k (throw_tick k, [])
unfolding throw_tick
throw_tick-IsKept _ begun idle h = record { led = idle; covered = λ t c. c }
throw_tick-IsKept _ begun (alone r l ends s) h = record {
  led = alone r l true s;
  covered = λ t c. c;
}
throw_tick-IsKept _ begun (followed r l) h = cc

close-IsKept : (k : Ticker) (begun : List ℕ) → IsLed begun k → IsKept begun k (close k, [])
unfolding close
close-IsKept _ begun idle = record { led = idle; covered = λ t c. c }
close-IsKept _ begun (alone r l true s) = record { led = idle; covered = λ t c. c }
close-IsKept _ begun (alone r l false s) = record { led = alone r l false s; covered = λ t c. c }
close-IsKept _ begun (followed r l) = record { led = followed r l; covered = λ t c. c }

All-IsCovered :
    (begun : List ℕ) (k : Ticker) (next : Ticker × List ℕ) (asked : List ℕ)
    → IsKept begun k next
    → All (IsCovered k begun) asked
    → All (IsCovered next.0 (next.1 ++ begun)) asked
All-IsCovered begun k next [] v a = tt
All-IsCovered begun k next (t ∷ ts) v a = (v.covered t a.0, All-IsCovered begun k next ts v a.1)

-- Every request is covered in the end, those that came before as well.
handle_all-IsCovered :
    (es : List TickEvent) (k : Ticker) (begun asked : List ℕ)
    → IsLed begun k
    → none_dropped es k ≡ true
    → All (IsCovered k begun) asked
    → All (IsCovered (handle_all es k begun).0 (handle_all es k begun).1) asked
      × All (IsCovered (handle_all es k begun).0 (handle_all es k begun).1) (requests es)
      × IsLed (handle_all es k begun).1 (handle_all es k begun).0
unfolding handle_all handle
handle_all-IsCovered [] k begun asked v h a = (a, tt, v)
handle_all-IsCovered (ticked ∷ es) k begun asked v h a =
    let kept = run_tick_loop-IsKept k begun v in
    handle_all-IsCovered es _ _ asked kept.led h (All-IsCovered begun k _ asked kept a)
handle_all-IsCovered (closed ∷ es) k begun asked v h a =
    let kept = close-IsKept k begun v in
    handle_all-IsCovered es _ _ asked kept.led h (All-IsCovered begun k _ asked kept a)
handle_all-IsCovered (threw ∷ es) k begun asked v h a =
    let kept = throw_tick-IsKept k begun v (ground (arith, h)) in
    handle_all-IsCovered es _ _ asked kept.led (ground (arith, h))
      (All-IsCovered begun k _ asked kept a)
handle_all-IsCovered (requested now ∷ es) k begun asked v h a =
    let answered = tick-IsAnswered now k begun v (ground (arith, h)) in
    let rest =
      handle_all-IsCovered es _ _ (now ∷ asked) answered.0.led (ground (arith, h))
        (answered.1, All-IsCovered begun k _ asked answered.0 a) in
    (rest.0.1, (rest.0.0, rest.1), rest.2)

idle-IsServed :
    (k : Ticker) (begun asked : List ℕ)
    → IsLed begun k
    → k.running ≡ none
    → All (IsCovered k begun) asked
    → All (λ t. is_served begun t ≡ true) asked
idle-IsServed k begun [] v n a = tt
idle-IsServed _ begun (t ∷ ts) idle n a = (ground (arith, a.0), idle-IsServed _ begun ts idle n a.1)
idle-IsServed _ begun (t ∷ ts) (alone r l ends s) n a = cc
idle-IsServed _ begun (t ∷ ts) (followed r l) n a = cc

-- After any calls of `tick`, ends of ticks and runs of the `finally` of which none drops a request: once
-- no tick is in flight, a tick for the time of each request or for a later one has begun. A request is
-- dropped if it is later than the others and comes between the end of the loop and the `finally`, or if
-- it waits for the next tick and the tick in flight throws.
pub handle_all-IsServed :
    (es : List TickEvent)
    → none_dropped es no_tick ≡ true
    → (handle_all es no_tick []).0.running ≡ none
    → All (λ t. is_served (handle_all es no_tick []).1 t ≡ true) (requests es)
handle_all-IsServed es h n =
    let all = handle_all-IsCovered es no_tick [] [] idle h tt in
    idle-IsServed _ _ (requests es) all.2 n all.1
