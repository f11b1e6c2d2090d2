-- ===== src/Lib.antt =====
-- Verification library of the SteamBee repository, a self-hosted server that plays, farms and
-- trades for Steam accounts. Each account has a Steam session, which a worker of card farming,
-- schedules and safety limits drive, and an inventory, from which items are sold on the Steam
-- market. Fourteen parts of apps/server/src are modelled: the money of the market, the queue in
-- which its prices are read, the queue of market batches, which sells and cancels items at the
-- prices that the first part checks, the controller of card farming, the worker of a Steam
-- session, the retry policy that it follows, the windows of schedules with their coordinator,
-- which starts and pauses accounts, and their preview, the sessions that are kept of what is
-- played, the safety limits, which pause an account that has played for too long, the manager,
-- which composes worker, schedules, limits and farming for an account, the queue in which it
-- runs the operations of an account, and the notifications of webhooks.
--
-- Files
-- - Common: Boolean tests on the native numbers, results with errors, lists, JavaScript's `Map` in
--   insertion order, and numbers that are integers or not.
-- - Money: apps/server/src/inventory/money.ts. Money/Parse is `parseWallet`, `parseRate` and
--   `integer` on the values that JSON may hold; Money/Units is `toMinorUnits` and
--   `fromMinorUnits`; Money/Fees is `fee`, `calculate` and `quoteFromBuyerCap` with its binary
--   search; Money/Rules is `validatePriceSettings` and `quoteWithRules`. Error codes are
--   constructors, error texts are left out.
-- - Prices: apps/server/src/inventory/price-reader.ts. The queue of reads with its cooldown, one
--   step for each call, timer and end of a read, and `remember`, the insertion into a cache.
-- - Batch: apps/server/src/inventory/batch.ts. Batch/Run is one job: `run` waits for two promises
--   in turn (the delay and the command's `execute`), so `step` takes the job from the event that
--   settles one to the next promise; `stop_job` and `finish` are those of the source. Batch/Queue
--   is `MarketBatchQueue`, one function per method on its three maps; `apply` and `history` run
--   sequences of calls.
-- - Farming: apps/server/src/farming/controller.ts. Farming/Games is `filterGames`, `orderGames`
--   and the selection of `advance`; Farming/Session is the session with `halt`, `updateGames`,
--   `creditPlaytime` and `priceGames`; Farming/Session/Calls cuts the asynchronous `advance` and
--   `scan` at their awaits into tasks, and `resume` takes a task from the adapter's answer, or its
--   failure, to the next await; Farming/Session/Steps has the public methods, the timer's
--   callback, and the step relation in which calls, the timer and answers come in any order.
--   Farming/Worker has its invariants. One account is modelled, since accounts share only the flag
--   of the shutdown; `stop` is the call of `halt` that it makes.
-- - Safety: apps/server/src/steam/safety-coordinator.ts. The limits of `exceededCap` and what a
--   tick does for an account (`enforce`), on the rows that the database returns; Safety/Chain has
--   the theorems on rotations.
-- - Schedule: apps/server/src/steam/scheduler.ts. Which schedule is on, with what `Intl` shows of
--   an instant as a parameter, on calendar days and times that are numbers.
-- - Coordinator: apps/server/src/steam/schedule-coordinator.ts, with the transactions of
--   apps/server/src/steam/schedule-repository.ts on the rows of an account. `transition_account`
--   evaluates the schedules by Schedule and starts, keeps or stops a window; which ports succeed,
--   and how the rows are edited while the coordinator waits, comes from outside.
--   Coordinator/Backoff is about the waits after failures, Coordinator/Windows, Commit, Settled
--   and Transition about the windows that stay open, Coordinator/Hold is the owner of a hold, and
--   Coordinator/Ticks the requests for ticks while one is in flight; there the end of the loop and
--   the `finally` that clears the fields are two steps.
-- - Boosting: apps/server/src/steam/boost-session-tracker.ts. The rows of all accounts, with the
--   tracking of a status, the stamp of open sessions and the closing of those that a restart of
--   the server cut off. Boosting/Tracked is what holds after any of them, Boosting/Recorded what a
--   status leaves.
-- - Preview: apps/server/src/steam/schedule-preview.ts. The windows of the next days with their
--   conflicts and winners; the clocks of the time zones are a parameter, as in Schedule.
-- - Retry: apps/server/src/steam/retry-policy.ts. What a failure of Steam leads to.
-- - Worker: apps/server/src/steam/worker.ts. `SteamWorker` with the row of its account and its
--   recovery health. `runSerial` makes operations follow one another, so each is one step:
--   Worker/Commands has the commands, Worker/Events the events of the Steam client and the
--   retries, and Worker/Operations runs any sequence of them. A timer is the intent that it
--   captured; the steps in which it fires and in which its retry runs are apart. Worker/Sound has
--   the invariant, Worker/Rest what holds of an account that is not to run, Worker/Kept what keeps
--   its hold, and Worker/Delays the reconnects. A write of the database is taken to succeed.
-- - Manager: apps/server/src/steam/manager.ts, with the holds of
--   apps/server/src/steam/operations-repository.ts. An account is its Worker, Coordinator and
--   farming Session with the hold, its timer and its rows. `runAccountOperation` makes operations
--   follow one another; Manager has the pauses, Manager/Running what users and farming call,
--   Manager/Automatic the safety limits, the restart and the shutdown, and Manager/Operations the
--   ticks of schedules, the timer and any sequence of operations. `shouldPause` may answer
--   anything each time. Manager/Calm, Kept and Reached are about what an account with a hold is to
--   do, Manager/Held, Resting and Lasting about how long a hold lasts.
-- - Serial: apps/server/src/steam/account-operation-state.ts. The promises that `run` chains for an
--   account, with every queued callback as a step that may come at any time, and the contexts.
--   That one operation runs after the other is what Worker and Manager build on.
-- - Notices: apps/server/src/notifications/dispatcher.ts, with the routes of
--   apps/server/src/http/routes/operations.ts that edit rules. The rows are maps by identifier; a
--   step runs to the request of a webhook, to its answer, or through the writes after it, of which
--   each may throw, in any order with the routes.
--   Notices/Requests has the drain, Notices/Log what is noted of the requests, Notices/Steps the
--   steps, and Notices/Orderly the invariant that the other files are about.
--
-- Where the source keeps mutable objects, each operation takes the state and returns it.
-- JavaScript numbers that the code keeps integral are natural numbers or integers; where a value
-- comes from outside, it may also be no integer. Times are milliseconds. A clock is read once per
-- step.
--
-- Bounds and fuel: the search of Money/Fees takes two rounds more than the highest step as its
-- fuel, each round leaves an interval that is shorter, and the theorem on its result holds with
-- that fuel. A batch's run is a sequence of events; it waits for two promises for each command at most. The controller's
-- tasks run one step for each answer. The days of the preview are passed in as many steps of half
-- a day as fit between its ends, and the search of an instant makes the three attempts of the
-- source. The queue of the price reader is pumped by recursion on the reads that wait.
--
-- What comes from outside: what `execute`, the Steam adapter and the price lookup answer, and
-- when; the events of the Steam client, and which ports of the coordinator succeed; random
-- identifiers; the locale's comparison of names, a parameter without hypotheses; and the time
-- zones, of which one theorem takes that a zone is a fixed number of minutes ahead of UTC or behind
-- it.
--
-- Not modelled: the other HTTP routes, the database and its other repositories, the Steam login,
-- the web application, backup, the requests to webhooks, and the scripts, since they are calls of
-- libraries outside the repository or presentation; and, of apps/server/src, the rest of the
-- inventory, which these files do not reach. Of the manager, forgetting an account and the import
-- of the library are left out.
pub mod Common
pub mod Money
pub mod Batch
pub mod Farming
pub mod Safety
pub mod Schedule
pub mod Retry
pub mod Worker
pub mod Coordinator
pub mod Boosting
pub mod Prices
pub mod Preview
pub mod Manager
pub mod Serial
pub mod Notices
