-- ===== src/Pool/Slots.antt =====
-- The slots of the pool, and the places of its connections.
use vsqlite.Base.{
  ℕ, ◌+◌, ◌≤◌, ◌<◌, ◌≡◌, refl, ◌∙◌, true, List, [], ◌∷◌, count, length, ok, arith, ltb, Bool-cases,
  inl, inr,
}
use vsqlite.Pool.{
  Pool, System, Shared, idle_count, created_count, create, take_turn, factory_returns,
  factory_throws, add_owner, drop_owner, unlease, drop, owners_of, conns, Step, enters, wakes,
  stirs, returns, throws, shares, drops, Reach, here, next, started,
}

-- Every slot that counts as created is idle, leased, about to be filled, or lost to a null pointer.
pub record IsBalanced (s : System) : Type 0 where
  pub slots : s.pool.created ≡ length s.pool.idle + length s.leased + s.creating + s.lost
  pub within : s.pool.created ≤ s.pool.capacity
  pub apart : (conn : ℕ) → count conn s.pool.idle + count conn (conns s.leased) ≤ 1

pub conns-add_owner : (conn : ℕ) (ls : List Shared) → conns (add_owner conn ls) ≡ conns ls
unfolding add_owner
conns-add_owner conn [] = refl
conns-add_owner conn (l ∷ ls) = ground (arith, conns-add_owner conn ls)

pub conns-drop_owner : (conn : ℕ) (ls : List Shared) → conns (drop_owner conn ls) ≡ conns ls
unfolding drop_owner
conns-drop_owner conn [] = refl
conns-drop_owner conn (l ∷ ls) = ground (arith, conns-drop_owner conn ls)

pub length-add_owner : (conn : ℕ) (ls : List Shared) → length (add_owner conn ls) ≡ length ls
unfolding add_owner
length-add_owner conn [] = refl
length-add_owner conn (l ∷ ls) = ground (arith, length-add_owner conn ls)

pub length-drop_owner : (conn : ℕ) (ls : List Shared) → length (drop_owner conn ls) ≡ length ls
unfolding drop_owner
length-drop_owner conn [] = refl
length-drop_owner conn (l ∷ ls) = ground (arith, length-drop_owner conn ls)

pub length-unlease :
    (conn : ℕ) (ls : List Shared)
    → 0 < count conn (conns ls)
    → length (unlease conn ls) + 1 ≡ length ls
unfolding unlease
length-unlease conn [] h = absurd (omega arith)
length-unlease conn (l ∷ ls) h = ground (arith, length-unlease conn ls)

pub count-unlease :
    (c conn : ℕ) (ls : List Shared)
    → 0 < count conn (conns ls)
    → count c (conns ls) ≡ count c (conn ∷ conns (unlease conn ls))
unfolding unlease
count-unlease c conn [] h = absurd (omega arith)
count-unlease c conn (l ∷ ls) h = ground (arith, count-unlease c conn ls)

take_turn-IsBalanced : (s : System) → IsBalanced s → IsBalanced (take_turn s)
unfolding take_turn
take_turn-IsBalanced s b = record {
  slots = ground arith;
  within = ground arith;
  apart = λ c. ground (arith, b.apart c);
}

factory_throws-IsBalanced :
    (s : System) → 0 < s.creating → IsBalanced s → IsBalanced (factory_throws s)
unfolding factory_throws
factory_throws-IsBalanced s h b = record {
  slots = ground arith;
  within = ground arith;
  apart = λ c. ground (arith, b.apart c);
}

drop-IsBalanced :
    (conn : ℕ) (s : System)
    → 0 < count conn (conns s.leased)
    → IsBalanced s
    → IsBalanced (drop conn s)
unfolding drop
drop-IsBalanced conn s h b = elim (Bool-cases (ltb 1 (owners_of conn s.leased))) [
  | inl more ↦ record {
    slots = rw more (omega (arith, length-drop_owner conn s.leased, b.slots));
    within = rw more b.within;
    apart = λ c. rw (more, conns-drop_owner conn s.leased) (b.apart c);
  }
  | inr last ↦ record {
    slots = ground (arith, length-unlease conn s.leased h);
    within = ground arith;
    apart = λ c. ground (arith, count-unlease c conn s.leased h, b.apart c);
  }
]

Step-IsBalanced : {s t : System} → Step s t → IsBalanced s → IsBalanced t
unfolding factory_returns
Step-IsBalanced {s} enters b = take_turn-IsBalanced s b
Step-IsBalanced {s} (wakes h) b =
    take_turn-IsBalanced _ (record { slots = b.slots; within = b.within; apart = b.apart })
Step-IsBalanced {s} (stirs h) b =
    take_turn-IsBalanced _ (record { slots = b.slots; within = b.within; apart = b.apart })
Step-IsBalanced {s} (returns conn h fresh) b = record {
  slots = ground arith;
  within = ground arith;
  apart = λ c. ground (arith, b.apart c);
}
Step-IsBalanced {s} (throws h) b = factory_throws-IsBalanced s h b
Step-IsBalanced {s} (shares conn) b = record {
  slots = omega (arith, length-add_owner conn s.leased, b.slots);
  within = b.within;
  apart = λ c. rw (conns-add_owner conn s.leased) (b.apart c);
}
Step-IsBalanced {s} (drops conn h) b = drop-IsBalanced conn s h b

pub Step-capacity : {s t : System} → Step s t → t.pool.capacity ≡ s.pool.capacity
unfolding take_turn factory_returns factory_throws drop
Step-capacity enters = ground arith
Step-capacity (wakes h) = ground arith
Step-capacity (stirs h) = ground arith
Step-capacity (returns conn h fresh) = ground arith
Step-capacity (throws h) = ground arith
Step-capacity (shares conn) = refl
Step-capacity (drops conn h) = ground arith

pub Reach-capacity : {s t : System} → Reach s t → t.pool.capacity ≡ s.pool.capacity
Reach-capacity here = refl
Reach-capacity (next r st) = Step-capacity st ∙ Reach-capacity r

pub Reach-IsBalanced : {s t : System} → IsBalanced s → Reach s t → IsBalanced t
Reach-IsBalanced b here = b
Reach-IsBalanced b (next r st) = Step-IsBalanced st (Reach-IsBalanced b r)

pub started-IsBalanced : (p : Pool) → p.created ≡ 0 → p.idle ≡ [] → IsBalanced (started p)
unfolding started
started-IsBalanced p z e = record {
  slots = ground arith;
  within = omega arith;
  apart = λ c. ground arith;
}

-- However the threads are scheduled, the connections that are idle, leased or being made never
-- exceed those that `created_count` reports, nor these the capacity given to the constructor, and no
-- connection is idle or leased twice, or both.
pub pool_bounded :
    (capacity : ℕ) (p : Pool) (s : System) (conn : ℕ)
    → create capacity true ≡ ok p
    → Reach (started p) s
    → (idle_count s.pool + length s.leased + s.creating ≤ created_count s.pool)
      × (created_count s.pool ≤ capacity)
      × (count conn s.pool.idle + count conn (conns s.leased) ≤ 1)
unfolding create started idle_count created_count
pool_bounded capacity p s conn e r =
    let b = Reach-IsBalanced (started-IsBalanced p (ground arith) (ground arith)) r in
    let same : s.pool.capacity ≡ capacity = Reach-capacity r ∙ ground arith in
    (omega (arith, b.slots), omega (arith, b.within), b.apart conn)
