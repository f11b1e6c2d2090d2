-- ===== src/Farming/Session/Steps.antt =====
-- apps/server/src/farming/controller.ts: the public operations of `FarmingController` on one account,
-- and the steps of the account: a call, the timer, or an answer to a task that waits. Each step has
-- one time. What an operation returns beside its effects is a copy of the session.
use Prim.Native.Nat.{Ordering}
use steam_bee.Common.{
  ℕ, suc, Bool, true, false, not, ◌||◌, Option, none, some, List, [], ◌∷◌, ◌++◌, String, ◌==◌,
  if◌then◌else◌, map,
}
use steam_bee.Common.Maps.{lookup, insert}
use steam_bee.Farming.{scanning, Reason, shutdown, Config, Game, is_active}
use steam_bee.Farming.Session.{
  Session, PriceEntry, halt, new_session, set_config, filter_games, order_games, value_of,
}
use steam_bee.Farming.Session.Calls.{
  Task, Stage, asks, scans, Origin, ticked, started, Answer, Moved, resume, is_current,
}

pub record Farm : Type 0 where
  pub shutting_down : Bool
  pub session : Session
  pub tasks : List Task

pub data Call : Type 0 where
  scan_asked : Config → Option ℕ → Call
  start_asked : Config → Option ℕ → Bool → Call
  reconfigured : Config → Call
  halted : Reason → Call
  timer_fired : Call
  prices_arrived : List (ℕ × Option ℕ) → Call
  prices_failed : Call
  shutdown_begun : Call
  initialized : Call

abbrev pub task : ℕ → Origin → Stage → Task
task generation origin stage = record { generation = generation; origin = origin; stage = stage }

-- `expectedGeneration !== undefined && expectedGeneration !== session.generation`
abbrev pub is_outdated : Option ℕ → Session → Bool
is_outdated none s = false
is_outdated (some expected) s = not (expected == s.generation)

-- `reconfigure` takes the timer's place when it is set.
unfoldable pub select_again : Option ℕ → Session → Moved
select_again none s = (s, none)
select_again (some set) s =
    (record s { timer = none }, some (task s.generation ticked (asks false)))

-- The callback of the timer.
unfoldable pub fire_timer : Bool → Option ℕ → Session → Moved
fire_timer shutting_down none s = (s, none)
fire_timer shutting_down (some set) s =
    let next = task set ticked (asks false) in
    if is_current shutting_down s next
    then (record s { timer = none }, some next)
    else (record s { timer = none }, none)

module _ (compare_names : String → String → Ordering) (now : ℕ) (shutting_down : Bool) where
  unfoldable pub scan : Config → Option ℕ → Session → Moved
  scan config expected s =
      let shown = set_config compare_names now shutting_down config s in
      if shutting_down
      then (s, none)
      else if is_outdated expected shown || is_active shown.phase
      then (shown, none)
      else (
        record shown { generation = suc shown.generation; phase = scanning; reason = none },
        some (task (suc shown.generation) ticked scans),
      )

  unfoldable pub start : Config → Option ℕ → Bool → Session → Moved
  start config expected is_resumed s =
      let shown = set_config compare_names now shutting_down config s in
      if shutting_down
      then (s, none)
      else if is_outdated expected shown || is_active shown.phase
      then (shown, none)
      else (
        record shown {
          generation = suc shown.generation;
          config = config;
          phase = scanning;
          started_at = some now;
          reason = none;
          applied = false;
        },
        some (task (suc shown.generation) (started is_resumed) (asks true)),
      )

  unfoldable pub reconfigure : Config → Session → Moved
  reconfigure config s =
      if is_active s.phase
      then (let shown =
            filter_games compare_names now shutting_down (record s { config = config }) in
          select_again shown.timer shown)
      else (set_config compare_names now shutting_down config s, none)

  unfoldable pub fire : Session → Moved
  fire s = fire_timer shutting_down s.timer s

  -- The answer of `cardValues`.
  unfoldable pub arrive : List (ℕ × Option ℕ) → Session → Session
  arrive values s =
      let known = put_values values s.card_values in
      record (order_games compare_names now shutting_down (record s {
        card_values = known;
        games =
            map (λ (game : Game). record game { card_value = value_of (lookup game.app_id known) })
              s.games;
      })) { pricing = false }
    where
      put_values : List (ℕ × Option ℕ) → List (ℕ × PriceEntry) → List (ℕ × PriceEntry)
      put_values [] known = known
      put_values ((app_id, value) ∷ values) known =
          put_values values (insert app_id (record { value = value; at = now }) known)

  unfoldable pub call : Call → Session → Moved
  call (scan_asked config expected) s = scan config expected s
  call (start_asked config expected is_resumed) s = start config expected is_resumed s
  call (reconfigured config) s = reconfigure config s
  call (halted reason) s = (halt reason s, none)
  call timer_fired s = fire s
  call (prices_arrived values) s = (arrive values s, none)
  call prices_failed s = (record s { pricing = false }, none)
  call shutdown_begun s = (halt shutdown s, none)
  call initialized s = (s, none)

abbrev pub shutting_down_after : Call → Bool → Bool
shutting_down_after c shutting_down = elim c [
  | shutdown_begun ↦ true
  | initialized ↦ false
  | _ ↦ shutting_down
]

abbrev pub pending : Option Task → List Task
pending none = []
pending (some t) = t ∷ []

unfoldable pub do_call : (String → String → Ordering) → ℕ → Call → Farm → Farm
do_call compare_names now c f =
    let moved = call compare_names now f.shutting_down c f.session in
    record {
      shutting_down = shutting_down_after c f.shutting_down;
      session = moved.0;
      tasks = pending moved.1 ++ f.tasks;
    }

abbrev pub farm : Bool → Session → List Task → Farm
farm shutting_down session tasks = record {
  shutting_down = shutting_down;
  session = session;
  tasks = tasks;
}

-- The tasks that wait are resumed in any order.
pub data Step (compare_names : String → String → Ordering) : Farm → Farm → Type 0 where
  calls : (now : ℕ) (c : Call) (f : Farm) → Step compare_names f (do_call compare_names now c f)
  answers :
      (now : ℕ) (answer : Option Answer) (shutting_down : Bool) (s : Session) (t : Task)
      (before after : List Task)
      → Step compare_names (farm shutting_down s (before ++ t ∷ after)) (
          let moved = resume compare_names now shutting_down answer t s in
          farm shutting_down moved.0 (before ++ (pending moved.1 ++ after)))

-- The states of an account from the one in which its session is made.
pub data Reachable (compare_names : String → String → Ordering) : Farm → Type 0 where
  begun :
      (shutting_down : Bool) (config : Config)
      → Reachable compare_names (farm shutting_down (new_session config) [])
  follows :
      {f g : Farm} → Reachable compare_names f → Step compare_names f g → Reachable compare_names g
