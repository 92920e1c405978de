-- ===== src/Pool/Semaphore.antt =====
-- A semaphore, by the number of its permits, as the reference of the pool.
use vsqlite.Base.{
  ℕ, ◌+◌, ◌-◌, ◌≤◌, ◌<◌, ◌≡◌, inl, inr, refl, ◌∙◌, subst, sym, List, [], ◌∷◌, true, length, ok,
  arith, ltb, Bool-cases, count, if◌then◌else◌,
}
use vsqlite.Pool.{
  Pool, System, Turn, turn, take_turn, after_turn, factory_returns, factory_throws, drop, owners_of,
  conns, create, Step, Reach, started,
}
use vsqlite.Pool.Slots.{
  IsBalanced, Reach-IsBalanced, Reach-capacity, started-IsBalanced, length-add_owner,
  length-drop_owner, length-unlease,
}

-- What a step means to those who use the pool.
pub data Label : Type 0 where
  acquires : Label
  blocks : Label
  releases : Label
  silent : Label

-- The semaphore: so many permits before a step and after it.
abbrev pub Moves : ℕ → Label → ℕ → ℕ → Type 0
Moves capacity Label.acquires n m = n ≡ m + 1
Moves capacity Label.blocks n m = (n ≡ 0) × (m ≡ 0)
Moves capacity Label.releases n m = (m ≡ n + 1) × (m ≤ capacity)
Moves capacity Label.silent n m = m ≡ n

-- A turn of `acquire` that finds a connection, or a slot for one, acquires a permit.
abbrev pub label_of : Turn → Label
label_of (Turn.takes conn) = Label.acquires
label_of Turn.creates = Label.acquires
label_of Turn.waits = Label.blocks

abbrev pub label : {s t : System} → Step s t → Label
label {s} Step.enters = label_of (turn s.pool).0
label {s} (Step.wakes h) = label_of (turn s.pool).0
label {s} (Step.stirs h) = label_of (turn s.pool).0
label (Step.returns conn h fresh) = Label.silent
label (Step.throws h) = Label.releases
label (Step.shares conn) = Label.silent
label {s} (Step.drops conn h) =
    if ltb 1 (owners_of conn s.leased) then Label.silent else Label.releases

-- The permits that are left: a connection that is leased, arising or lost takes one.
abbrev pub permits : System → ℕ
permits s = s.pool.capacity - (length s.leased + s.creating + s.lost)

by_turn :
    (s : System) (t : Turn × Pool)
    → turn s.pool ≡ t
    → Moves s.pool.capacity (label_of t.0) (permits s) (permits (after_turn t s))
    → Moves s.pool.capacity (label_of (turn s.pool).0) (permits s) (permits (take_turn s))
unfolding take_turn
by_turn s t e =
    subst (λ x. Moves s.pool.capacity (label_of x.0) (permits s) (permits (after_turn x s))) (sym e)

turn-Moves :
    (s : System) (idle : List ℕ)
    → s.pool.idle ≡ idle
    → IsBalanced s
    → Moves s.pool.capacity (label_of (turn s.pool).0) (permits s) (permits (take_turn s))
unfolding turn after_turn
turn-Moves s (conn ∷ rest) e b =
    by_turn s (Turn.takes conn, record (s.pool) { idle = rest }) (ground arith) (ground (arith, b))
turn-Moves s [] e b = elim (Bool-cases (ltb s.pool.created s.pool.capacity)) [
  | inl more ↦
      by_turn s (Turn.creates, record (s.pool) { created = s.pool.created + 1 }) (ground arith)
        (ground (arith, b))
  | inr full ↦ by_turn s (Turn.waits, s.pool) (ground arith) (ground (arith, b))
]

drop-Moves :
    (conn : ℕ) (s : System)
    → 0 < count conn (conns s.leased)
    → IsBalanced s
    → Moves s.pool.capacity
        (if ltb 1 (owners_of conn s.leased) then Label.silent else Label.releases)
        (permits s)
        (permits (drop conn s))
unfolding drop
drop-Moves conn s h b = elim (Bool-cases (ltb 1 (owners_of conn s.leased))) [
  | inl more ↦ rw more (omega (arith, length-drop_owner conn s.leased))
  | inr last ↦ rw last (ground (arith, length-unlease conn s.leased h, b))
]

Step-Moves :
    {s t : System} (st : Step s t)
    → IsBalanced s
    → Moves s.pool.capacity (label st) (permits s) (permits t)
unfolding factory_returns factory_throws
Step-Moves {s} Step.enters b = turn-Moves s s.pool.idle refl b
Step-Moves {s} (Step.wakes h) b =
    turn-Moves (record s { woken = s.woken - 1 }) s.pool.idle refl
      (record { slots = b.slots; within = b.within; apart = b.apart })
Step-Moves {s} (Step.stirs h) b =
    turn-Moves (record s { waiting = s.waiting - 1 }) s.pool.idle refl
      (record { slots = b.slots; within = b.within; apart = b.apart })
Step-Moves {s} (Step.returns conn h fresh) b = ground (arith, b)
Step-Moves {s} (Step.throws h) b = ground (arith, b)
Step-Moves {s} (Step.shares conn) b = omega (arith, length-add_owner conn s.leased)
Step-Moves {s} (Step.drops conn h) b = drop-Moves conn s h b

-- However the threads were scheduled, each of their steps is one of a semaphore with as many permits
-- as the capacity less the connections that are leased, arising or lost: a turn of `acquire` takes a
-- permit, and it blocks exactly where none is left; the end of the last owner of a lease, and an
-- exception of the factory, give one back, up to the capacity; and all other steps leave them alone.
pub pool-refines :
    (capacity : ℕ) (p : Pool) (s t : System) (st : Step s t)
    → create capacity true ≡ ok p
    → Reach (started p) s
    → Moves capacity (label st) (permits s) (permits t)
unfolding create started
pool-refines capacity p s t st e r =
    let b = Reach-IsBalanced (started-IsBalanced p (ground arith) (ground arith)) r in
    let same : s.pool.capacity ≡ capacity = Reach-capacity r ∙ ground arith in
    subst (λ c. Moves c (label st) (permits s) (permits t)) same (Step-Moves st b)
