-- ===== src/Prices/Tests.antt =====
-- apps/server/src/inventory/price-reader.ts: reads that fill the queue, and a limit of the rate.
use steam_bee.Common.{ℕ, ◌≡◌, refl, true, false, List, [], ◌∷◌, arith}
use steam_bee.Prices.{
  Operation, scheduled, timed_out, finished, operate, operate_all, new_reader, pump, pump_from,
  schedule, finish, rate_limited, time_out, remember,
}
use steam_bee.Prices.Queue.{IsTurn, operate_all-IsTurn}
use steam_bee.Prices.Cache.{IsRemembered, remember-IsRemembered}

abbrev reads : List (ℕ × Operation)
reads =
    (10, scheduled 1)
    ∷ (11, scheduled 2)
    ∷ (12, scheduled 3)
    ∷ (13, scheduled 4)
    ∷ (14, timed_out 3)
    ∷ []

next_begins : (operate 20 (finished false) (operate_all reads new_reader)).begun ≡ 4 ∷ []
unfolding operate_all operate schedule time_out finish pump pump_from
next_begins = refl

limit_rejects : (operate 20 (finished true) (operate_all reads new_reader)).rejected ≡ 4 ∷ []
unfolding operate_all operate schedule time_out finish pump pump_from rate_limited
limit_rejects = refl

operate_all-IsTurn_example :
    IsTurn 20
      (finished true)
      (operate_all reads new_reader)
      (operate 20 (finished true) (operate_all reads new_reader))
operate_all-IsTurn_example =
    operate_all-IsTurn reads 20 (finished true)
      (omega arith, (omega arith, (omega arith, (omega arith, (omega arith, tt))))) (omega arith)

abbrev cache : List (ℕ × ℕ)
cache = (1, 10) ∷ (2, 20) ∷ []

remember-IsRemembered_example : IsRemembered 3 30 2 cache (remember 3 30 2 cache)
remember-IsRemembered_example =
    remember-IsRemembered 3 30 2 cache (omega arith) (((λ e. omega (arith, e)), tt), (tt, tt))
