-- ===== src/Program/Pooled/Slots.antt =====
-- The slots of a pool whose connections come from `make_factory`, and the end of its connections.
use vsqlite.Base.{ℕ, ◌+◌, ◌≤◌, ◌<◌, ◌≡◌, inr, refl, ◌∙◌, true, [], ◌∷◌, count, length, ok, arith}
use vsqlite.Sqlite.{Log, Call, prepared, finalized}
use vsqlite.Connection.{Connection}
use vsqlite.Connection
use vsqlite.Execute.Conservation.{NoneOnError}
use vsqlite.Pool.{Pool, create, started, idle_count, created_count}
use vsqlite.Pool
use vsqlite.Pool.Slots.{Reach-IsBalanced, Reach-capacity, started-IsBalanced}
use vsqlite.Program.Lifetime.{destroy-IsKept}
use vsqlite.Program.Pooled.{Site, Setting, Step, Reach, opened}
use vsqlite.Program.Pooled.Sharing.{placed, IsSound, Reach-IsSound}

module _ (u : Setting) (null : (conn : ℕ) → NoneOnError (u.api conn)) where
  -- The steps of the pool among those of the threads.
  extended :
      {t r : Site} {s : Pool.System}
      → IsSound u null t
      → Step u t r
      → Pool.Reach s t.system
      → Pool.Reach s r.system
  extended b Step.enters p = Pool.Reach.next p Pool.Step.enters
  extended b (Step.wakes h) p = Pool.Reach.next p (Pool.Step.wakes h)
  extended b (Step.stirs h) p = Pool.Reach.next p (Pool.Step.stirs h)
  extended b (Step.makes conn h real new fine opened) p =
      Pool.Reach.next p (Pool.Step.returns conn h (inr (b.whole conn ∙ new)))
  extended b (Step.fails conn h failed) p = Pool.Reach.next p (Pool.Step.throws h)
  extended b (Step.shares conn) p = Pool.Reach.next p (Pool.Step.shares conn)
  extended b (Step.drops conn h) p = Pool.Reach.next p (Pool.Step.drops conn h)
  extended b (Step.works conn ops h) p = p

  reached : {t r : Site} → IsSound u null t → Reach u t r → Pool.Reach t.system r.system
  reached b Reach.here = Pool.Reach.here
  reached b (Reach.next p st) = extended (Reach-IsSound u null b p) st (reached b p)

opened-IsSound :
    (u : Setting) (null : (conn : ℕ) → NoneOnError (u.api conn)) (p : Pool) (state : ℕ → Connection)
    → p.idle ≡ []
    → IsSound u null (opened p state)
unfolding started
opened-IsSound u null p state e = record {
  whole = λ c. ground arith;
  once = λ c. omega arith;
  filled = refl;
  kept = λ c h. absurd (omega arith);
}

-- Any number of threads share a pool whose connections come from `make_factory`, and work on the
-- connections of their leases. However they are scheduled, each connection that was made is idle or
-- leased, once; the slots that count as created, at most the capacity, are those of the idle, the
-- leased and the arising connections, so that none is lost; and where a connection is destroyed while
-- nobody works on it, `sqlite3_close` comes last, after each statement was finalized as often as it
-- was prepared, if SQLite stores no statement where it fails to prepare one.
pub pooled-kept :
    (u : Setting) (capacity : ℕ) (p : Pool) (state : ℕ → Connection) (t : Site) (conn s : ℕ)
    → ((n : ℕ) → NoneOnError (u.api n))
    → create capacity true ≡ ok p
    → Reach u (opened p state) t
    → 0 < count conn t.made
    → (placed conn t.system ≡ 1)
      × (created_count t.system.pool
          ≡ idle_count t.system.pool + length t.system.leased + t.system.creating)
      × (created_count t.system.pool ≤ capacity)
      × (before : Log) × ((Connection.destroy (u.api conn) (t.state conn)).1.log
          ≡ Call.close (t.state conn).handle ∷ before)
      × (count s (finalized before) ≡ prepared (u.api conn) before s)
unfolding create started idle_count created_count
pooled-kept u capacity p state t conn s null e r m =
    let b = Reach-IsSound u null (opened-IsSound u null p state (ground arith)) r in
    let q = reached u null (opened-IsSound u null p state (ground arith)) r in
    let balanced = Reach-IsBalanced (started-IsBalanced p (ground arith) (ground arith)) q in
    let same : t.system.pool.capacity ≡ capacity = Reach-capacity q ∙ ground arith in
    let (before, closed, balance) = destroy-IsKept s (u.api conn) (t.state conn) (b.kept conn m) in
    (
      omega (arith, b.whole conn, b.once conn),
      omega (arith, balanced.slots, b.filled),
      omega (arith, balanced.within),
      before,
      closed,
      balance,
    )
