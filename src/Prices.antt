-- ===== src/Prices.antt =====
-- apps/server/src/inventory/price-reader.ts: the queue of `MarketPriceReader`, which reads at most two
-- pages at a time and pauses after Steam limits its rate, and `remember`, which keeps a cache small. A
-- read is a number; what a call starts and rejects is returned beside the reader.
pub mod Queue
pub mod Cache
mod Tests
use steam_bee.Common.{
  ℕ, suc, ◌+◌, ◌-◌, ◌*◌, ◌^◌, min, max, Bool, true, false, not, ◌&&◌, ◌||◌, List, [], ◌∷◌, ◌++◌,
  ltb, leb, ◌==◌, if◌then◌else◌, length, keep_if,
}
use steam_bee.Common.Maps.{insert, delete}

pub record Reader : Type 0 where
  pub active : ℕ
  pub waiting : List ℕ
  pub cooldown_until : ℕ
  pub cooldown_step : ℕ

-- The reader, the reads that a call starts and those that it rejects.
pub record Turn : Type 0 where
  pub reader : Reader
  pub begun : List ℕ
  pub rejected : List ℕ

-- `cooldown`
abbrev pub cools_down : ℕ → Reader → Bool
cools_down now r = ltb now r.cooldown_until

-- `rateLimited`
unfoldable pub rate_limited : ℕ → Reader → Reader
rate_limited now r =
    let step = min (r.cooldown_step + 1) 4 in
    record r {
      cooldown_step = step;
      cooldown_until = max r.cooldown_until (now + min (60_000 * 2 ^ (step - 1)) 300_000);
    }

abbrev pub begins : ℕ → Turn → Turn
begins read t = record t { begun = read ∷ t.begun }

abbrev pub rejects : ℕ → Turn → Turn
rejects read t = record t { rejected = read ∷ t.rejected }

-- `pump`, with the `start` of what waits: a reader that cools down rejects it and goes on.
unfoldable pub pump_from : ℕ → Reader → List ℕ → Turn
pump_from now r [] = record { reader = record r { waiting = [] }; begun = []; rejected = [] }
pump_from now r (read ∷ reads) =
    let cold = cools_down now r in
    let rest =
      pump_from now (record r { active = if cold then r.active else suc r.active }) reads in
    if not (ltb r.active 2)
    then record { reader = record r { waiting = read ∷ reads }; begun = []; rejected = [] }
    else if cold
    then rejects read rest
    else begins read rest

unfoldable pub pump : ℕ → Reader → Turn
pump now r = pump_from now r r.waiting

-- `schedule`
unfoldable pub schedule : ℕ → ℕ → Reader → Turn
schedule now read r =
    if cools_down now r || (leb 2 r.active && leb 40 (length r.waiting))
    then record { reader = r; begun = []; rejected = read ∷ [] }
    else if ltb r.active 2
    then record { reader = record r { active = suc r.active }; begun = read ∷ []; rejected = [] }
    else record {
      reader = record r { waiting = r.waiting ++ (read ∷ []) };
      begun = [];
      rejected = [];
    }

abbrev pub includes : ℕ → List ℕ → Bool
includes read [] = false
includes read (x ∷ xs) = (x == read) || includes read xs

-- `splice` at the first index.
abbrev pub remove_first : ℕ → List ℕ → List ℕ
remove_first read [] = []
remove_first read (x ∷ xs) = let rest = remove_first read xs in if x == read then xs else x ∷ rest

-- The timer of a read that waits.
unfoldable pub time_out : ℕ → Reader → Turn
time_out read r =
    if includes read r.waiting
    then record {
      reader = record r { waiting = remove_first read r.waiting };
      begun = [];
      rejected = read ∷ [];
    }
    else record { reader = r; begun = []; rejected = [] }

-- The end of a read, which Steam may have limited.
unfoldable pub finish : ℕ → Bool → Reader → Turn
finish now limited r =
    let told = if limited then rate_limited now r else r in
    pump now (record told { active = told.active - 1 })

-- A price that was observed ends the steps of the cooldown.
unfoldable pub settle : ℕ → Reader → Reader
settle now r =
    if leb r.cooldown_until now then record r { cooldown_step = 0; cooldown_until = 0 } else r

pub data Operation : Type 0 where
  scheduled : ℕ → Operation
  timed_out : ℕ → Operation
  finished : Bool → Operation
  observed : Operation

-- A read ends only while one is active.
unfoldable pub operate : ℕ → Operation → Reader → Turn
operate now (scheduled read) r = schedule now read r
operate now (timed_out read) r = time_out read r
operate now (finished limited) r =
    if r.active == 0 then record { reader = r; begun = []; rejected = [] } else finish now limited r
operate now observed r = record { reader = settle now r; begun = []; rejected = [] }

unfoldable pub operate_all : List (ℕ × Operation) → Reader → Reader
operate_all [] r = r
operate_all ((now, op) ∷ ops) r = operate_all ops (operate now op r).reader

abbrev pub new_reader : Reader
new_reader = record { active = 0; waiting = []; cooldown_until = 0; cooldown_step = 0 }

-- The oldest entries go until the limit is kept.
unfoldable pub drop_oldest {ℓ} : {V : Type ℓ} → ℕ → List (ℕ × V) → List (ℕ × V)
drop_oldest limit [] = []
drop_oldest limit (e ∷ es) =
    let rest = drop_oldest limit es in if ltb limit (length (e ∷ es)) then rest else e ∷ es

unfoldable pub remember {ℓ} : {V : Type ℓ} → ℕ → V → ℕ → List (ℕ × V) → List (ℕ × V)
remember key value limit cache = drop_oldest limit (insert key value (delete key cache))
