-- ===== src/Tests/Pooling.antt =====
-- The theorems on the connection pool at concrete inputs.
use vsqlite.Base.{◌+◌, ◌≡◌, inl, refl, [], arith, length, count, ◌≤◌}
use vsqlite.Pool
use vsqlite.Pool.{Pool, System, Step, Reach}
use vsqlite.Pool.Slots
use vsqlite.Pool.Wakeups
use vsqlite.Pool.Semaphore

abbrev pair : Pool
pair = record { capacity = 2; created = 0; idle = [] }

-- One thread has entered and runs the factory.
one_entered : Reach (Pool.started pair) (Pool.take_turn (Pool.started pair))
one_entered = Reach.next Reach.here Step.enters

abbrev entered : System
entered = Pool.take_turn (Pool.started pair)

pool_bounded_example :
    (Pool.idle_count entered.pool + length entered.leased + entered.creating
      ≤ Pool.created_count entered.pool)
    × (Pool.created_count entered.pool ≤ 2)
    × (count 9 entered.pool.idle + count 9 (Pool.conns entered.leased) ≤ 1)
unfolding Pool.create
pool_bounded_example = Slots.pool_bounded 2 pair entered 9 refl one_entered

pool-refines_example : Semaphore.permits entered ≡ Semaphore.permits (Pool.take_turn entered) + 1
unfolding Pool.create Pool.turn Pool.started Pool.take_turn
pool-refines_example =
    Semaphore.pool-refines 2 pair entered (Pool.take_turn entered) Step.enters refl one_entered

abbrev single : Pool
single = record { capacity = 1; created = 0; idle = [] }

-- A second thread finds the only slot taken, and sleeps.
abbrev crowded : System
crowded = Pool.take_turn (Pool.take_turn (Pool.started single))

crowded_reached : Reach (Pool.started single) crowded
crowded_reached = Reach.next (Reach.next Reach.here Step.enters) Step.enters

no_lost_wakeup_example : Wakeups.available crowded ≤ crowded.woken
unfolding Pool.started Pool.take_turn
no_lost_wakeup_example = Wakeups.no_lost_wakeup single crowded crowded_reached (omega arith)

-- The factory returns a null pointer.
abbrev spent : System
spent = Pool.factory_returns 0 (Pool.take_turn (Pool.started single))

spent_reached : Reach (Pool.started single) spent
unfolding Pool.started Pool.take_turn
spent_reached =
    Reach.next (Reach.next Reach.here Step.enters) (Step.returns 0 (omega arith) (inl refl))

lost_slots_example : Pool.turn spent.pool ≡ (Pool.waits, spent.pool)
unfolding Pool.started Pool.take_turn Pool.factory_returns
lost_slots_example =
    Wakeups.lost_slots single spent spent refl refl spent_reached (omega arith) Reach.here
