-- ===== src/Pool/Wakeups.antt =====
-- The condition variable of the pool, and what a null pointer from the factory costs.
use vsqlite.Base.{ℕ, ◌+◌, ◌-◌, ◌≤◌, ◌<◌, ◌≡◌, ◌⊎◌, refl, ◌∙◌, [], length, arith, inl}
use vsqlite.Pool.{
  Pool, System, waits, turn, take_turn, factory_returns, factory_throws, drop, Step, enters, wakes,
  stirs, returns, throws, shares, drops, Reach, here, next, started,
}
use vsqlite.Pool.Slots.{Reach-IsBalanced, Reach-capacity, started-IsBalanced}

-- What a thread that looks could take at once: an idle connection, or a slot for a new one.
abbrev pub available : System → ℕ
available s = length s.pool.idle + (s.pool.capacity - s.pool.created)

-- If a thread sleeps, as many are awake as there is something to take.
abbrev pub IsAwake : System → Type 0
IsAwake s = (s.waiting ≡ 0) ⊎ (available s ≤ s.woken)

take_turn_wakes :
    (s : System) → 0 < s.woken → IsAwake s → IsAwake (take_turn (record s { woken = s.woken - 1 }))
unfolding take_turn
take_turn_wakes s h a = ground arith

take_turn_enters : (s : System) → IsAwake s → IsAwake (take_turn s)
unfolding take_turn
take_turn_enters s a = ground arith

take_turn_stirs :
    (s : System)
    → 0 < s.waiting
    → IsAwake s
    → IsAwake (take_turn (record s { waiting = s.waiting - 1 }))
unfolding take_turn
take_turn_stirs s h a = ground arith

Step-IsAwake : {s t : System} → Step s t → IsAwake s → IsAwake t
unfolding factory_returns factory_throws drop
Step-IsAwake {s} enters a = take_turn_enters s a
Step-IsAwake {s} (wakes h) a = take_turn_wakes s h a
Step-IsAwake {s} (stirs h) a = take_turn_stirs s h a
Step-IsAwake (returns conn h fresh) a = ground arith
Step-IsAwake (throws h) a = ground arith
Step-IsAwake (shares conn) a = a
Step-IsAwake (drops conn h) a = ground arith

Reach-IsAwake : {s t : System} → IsAwake s → Reach s t → IsAwake t
Reach-IsAwake a here = a
Reach-IsAwake a (next r st) = Step-IsAwake st (Reach-IsAwake a r)

-- No wakeup is lost: in every state that the threads of a new pool can reach, if a thread sleeps in
-- `acquire`, then for each idle connection and each free slot another thread is on its way to look.
pub no_lost_wakeup :
    (p : Pool) (s : System) → Reach (started p) s → 0 < s.waiting → available s ≤ s.woken
unfolding started
no_lost_wakeup p s r h = ground (arith, Reach-IsAwake {s = started p} (inl refl) r)

Step-lost : {s t : System} → Step s t → s.lost ≤ t.lost
unfolding take_turn factory_returns factory_throws drop
Step-lost enters = ground arith
Step-lost (wakes h) = ground arith
Step-lost (stirs h) = ground arith
Step-lost (returns conn h fresh) = ground arith
Step-lost (throws h) = ground arith
Step-lost (shares conn) = omega arith
Step-lost (drops conn h) = ground arith

Reach-lost : {s t : System} → Reach s t → s.lost ≤ t.lost
Reach-lost here = omega arith
Reach-lost (next r st) = omega (arith, Reach-lost r, Step-lost st)

-- A null pointer from the factory uses up a slot for good: once there have been as many as the
-- capacity, every later turn of `acquire` waits.
pub lost_slots :
    (p : Pool) (s t : System)
    → p.created ≡ 0
    → p.idle ≡ []
    → Reach (started p) s
    → p.capacity ≤ s.lost
    → Reach s t
    → turn t.pool ≡ (waits, t.pool)
unfolding turn
lost_slots p s t z e r full later =
    let b = Reach-IsBalanced (Reach-IsBalanced (started-IsBalanced p z e) r) later in
    let same : t.pool.capacity ≡ p.capacity = Reach-capacity later ∙ (Reach-capacity r ∙ kept) in
    ground (arith, b.slots, b.within, Reach-lost later)
  where
    kept : (started p).pool.capacity ≡ p.capacity
    kept = unfold started in refl
