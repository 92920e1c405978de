-- ===== src/Pool.antt =====
-- connection_pool.hpp and connection_pool.cpp. A connection goes by a number, 0 for a null pointer.
-- Each critical section of the mutex is one function, and any number of threads run them in any
-- order: `Step` is the relation that says so.
pub mod Factory
pub mod Slots
pub mod Semaphore
pub mod Wakeups
use vsqlite.Base.{
  ℕ, zero, suc, ◌+◌, ◌-◌, ◌<◌, ◌≡◌, ◌⊎◌, Bool, true, false, not, List, [], ◌∷◌, map, count, Text,
  codes, Option, none, some, Outcome, ok, raise, database_exception, Exception, ltb, ◌==◌,
  if◌then◌else◌, length,
}

-- The head of `idle` is the back of the vector.
pub record Pool : Type 0 where
  pub capacity : ℕ
  pub created : ℕ
  pub idle : List ℕ

pub no_capacity : Text
no_capacity = codes "connection_pool capacity must be greater than zero"

pub no_factory : Text
no_factory = codes "connection_pool requires a valid factory"

-- The constructor; the flag says whether the factory can be called.
unfoldable pub create : ℕ → Bool → Outcome Pool
create capacity has_factory =
    if capacity == 0
    then raise (database_exception no_capacity)
    else if not has_factory
    then raise (database_exception no_factory)
    else ok (record { capacity = capacity; created = 0; idle = [] })

-- How a turn of the loop in `acquire` ends.
pub data Turn : Type 0 where
  takes : ℕ → Turn
  creates : Turn
  waits : Turn

unfoldable pub turn : Pool → Turn × Pool
turn p = elim p.idle [
  | conn ∷ rest ↦ (takes conn, record p { idle = rest })
  | [] ↦
      if ltb p.created p.capacity
      then (creates, record p { created = p.created + 1 })
      else (waits, p)
]

-- The handler of an exception of the factory.
unfoldable pub undo_creation : Pool → Pool
undo_creation p = record p { created = p.created - 1 }

unfoldable pub release : ℕ → Pool → Pool
release conn p = record p { idle = conn ∷ p.idle }

unfoldable pub idle_count : Pool → ℕ
idle_count p = length p.idle

unfoldable pub created_count : Pool → ℕ
created_count p = p.created

-- A `shared_state`: a leased connection, and how many leases and pointers from `shared` own it.
pub record Shared : Type 0 where
  pub conn : ℕ
  pub owners : ℕ

-- The pool among its threads. `creating` threads run the factory, `waiting` ones sleep on the
-- condition variable, and `woken` ones have been notified and are about to look again. `lost`
-- counts the factory's null pointers so far; the program keeps no such count.
pub record System : Type 0 where
  pub pool : Pool
  pub leased : List Shared
  pub creating : ℕ
  pub waiting : ℕ
  pub woken : ℕ
  pub lost : ℕ

-- `cv_.notify_one()`
unfoldable pub notify_one : System → System
notify_one s =
    if s.waiting == 0 then s else record s { waiting = s.waiting - 1; woken = s.woken + 1 }

-- A new lease of a connection that is no null pointer.
abbrev pub leasing : ℕ → System → System
leasing conn s = record s { leased = record { conn = conn; owners = 1 } ∷ s.leased }

-- What a thread does after its turn.
unfoldable pub after_turn : Turn × Pool → System → System
after_turn (takes conn, p) s = leasing conn (record s { pool = p })
after_turn (creates, p) s = record s { pool = p; creating = s.creating + 1 }
after_turn (waits, p) s = record s { pool = p; waiting = s.waiting + 1 }

unfoldable pub take_turn : System → System
unfolding turn after_turn
take_turn s = after_turn (turn s.pool) s

-- The factory returns. A null pointer makes an empty lease, which releases nothing.
unfoldable pub factory_returns : ℕ → System → System
factory_returns conn s =
    let s' = record s { creating = s.creating - 1 } in
    if conn == 0 then record s' { lost = s.lost + 1 } else leasing conn s'

unfoldable pub factory_throws : System → System
unfolding notify_one undo_creation
factory_throws s = notify_one (record s { pool = undo_creation s.pool; creating = s.creating - 1 })

-- `lease::shared()`: one more owner.
unfoldable pub add_owner : ℕ → List Shared → List Shared
add_owner conn [] = []
add_owner conn (l ∷ ls) =
    if l.conn == conn then record l { owners = l.owners + 1 } ∷ ls else l ∷ add_owner conn ls

unfoldable pub owners_of : ℕ → List Shared → ℕ
owners_of conn [] = 0
owners_of conn (l ∷ ls) = if l.conn == conn then l.owners else owners_of conn ls

unfoldable pub drop_owner : ℕ → List Shared → List Shared
drop_owner conn [] = []
drop_owner conn (l ∷ ls) =
    if l.conn == conn then record l { owners = l.owners - 1 } ∷ ls else l ∷ drop_owner conn ls

unfoldable pub unlease : ℕ → List Shared → List Shared
unlease conn [] = []
unlease conn (l ∷ ls) = if l.conn == conn then ls else l ∷ unlease conn ls

-- `lease::release`, `~lease` and the end of a shared pointer: the last owner runs `~shared_state`,
-- which gives the connection back.
unfoldable pub drop : ℕ → System → System
unfolding notify_one release owners_of drop_owner unlease
drop conn s =
    if ltb 1 (owners_of conn s.leased)
    then record s { leased = drop_owner conn s.leased }
    else notify_one (record s { pool = release conn s.pool; leased = unlease conn s.leased })

-- What a lease object holds: nothing, or a connection of which it is an owner.
abbrev pub Lease : Type 0
Lease = Option ℕ

unfoldable pub release_lease : Lease → System → System
release_lease none s = s
release_lease (some conn) s = drop conn s

-- `this = std::move(other)` for two different objects: the two leases and the system afterwards.
unfoldable pub move_assign :
    Lease → Lease → System → record { self : Lease; other : Lease; system : System }
unfolding release_lease
move_assign this other s = record { self = other; other = none; system = release_lease this s }

abbrev pub conns : List Shared → List ℕ
conns = map (λ l. l.conn)

-- The factory makes connections that are not in use; the threads that sleep may also wake without
-- being notified.
pub data Step (s : System) : System → Type 0 where
  enters : Step s (take_turn s)
  wakes : 0 < s.woken → Step s (take_turn (record s { woken = s.woken - 1 }))
  stirs : 0 < s.waiting → Step s (take_turn (record s { waiting = s.waiting - 1 }))
  returns :
      (conn : ℕ)
      → 0 < s.creating
      → (conn ≡ 0) ⊎ (count conn s.pool.idle + count conn (conns s.leased) ≡ 0)
      → Step s (factory_returns conn s)
  throws : 0 < s.creating → Step s (factory_throws s)
  shares : (conn : ℕ) → Step s (record s { leased = add_owner conn s.leased })
  drops : (conn : ℕ) → 0 < count conn (conns s.leased) → Step s (drop conn s)

pub data Reach (s : System) : System → Type 0 where
  here : Reach s s
  next : {t u : System} → Reach s t → Step t u → Reach s u

unfoldable pub started : Pool → System
started p = record { pool = p; leased = []; creating = 0; waiting = 0; woken = 0; lost = 0 }
