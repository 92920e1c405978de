-- ===== src/Program/Pooled/Sharing.antt =====
-- Where the connections of a pool are, and where their statements are while nobody works on them.
use vsqlite.Base.{
  ℕ, ◌+◌, ◌≤◌, ◌<◌, ◌≡◌, ◌≢◌, refl, sym, subst, ◌∙◌, List, [], ◌∷◌, count, inl, inr, arith, ltb,
  Bool-cases, none, some, ◌-◌, ℕ_discrete,
}
use vsqlite.Files.{default_adapter}
use vsqlite.Connection.{Connection}
use vsqlite.Execute.Conservation.{NoneOnError}
use vsqlite.Pool.{
  System, take_turn, factory_returns, factory_throws, drop, conns, owners_of, add_owner,
}
use vsqlite.Pool.Factory.{make_factory}
use vsqlite.Pool.Slots.{conns-add_owner, conns-drop_owner, count-unlease}
use vsqlite.Program.{Operation}
use vsqlite.Program.Lifetime.{IsKept, connect-IsKept, leave_objects-IsKept}
use vsqlite.Program.Pooled.{Site, Setting, update, factory, held_adapter, worked, Step, Reach}

-- How often a connection is idle or leased.
abbrev pub placed : ℕ → System → ℕ
placed conn s = count conn s.pool.idle + count conn (conns s.leased)

take_turn-placed : (conn : ℕ) (s : System) → placed conn (take_turn s) ≡ placed conn s
unfolding take_turn
take_turn-placed conn s = ground arith

drop-placed :
    (c conn : ℕ) (s : System)
    → 0 < count conn (conns s.leased)
    → placed c (drop conn s) ≡ placed c s
unfolding drop
drop-placed c conn s h = elim (Bool-cases (ltb 1 (owners_of conn s.leased))) [
  | inl more ↦ rw (more, conns-drop_owner conn s.leased) refl
  | inr last ↦ ground (arith, count-unlease c conn s.leased h)
]

factory_throws-placed : (conn : ℕ) (s : System) → placed conn (factory_throws s) ≡ placed conn s
unfolding factory_throws
factory_throws-placed conn s = ground arith

factory_returns-placed :
    (c conn : ℕ) (s : System)
    → conn ≢ 0
    → placed c (factory_returns conn s) ≡ count c (conn ∷ []) + placed c s
unfolding factory_returns
factory_returns-placed c conn s h = ground arith

-- No step but that of a factory that returns a null pointer loses a slot.
take_turn-lost : (s : System) → (take_turn s).lost ≡ s.lost
unfolding take_turn
take_turn-lost s = ground arith

drop-lost : (conn : ℕ) (s : System) → (drop conn s).lost ≡ s.lost
unfolding drop
drop-lost conn s = ground arith

factory_throws-lost : (s : System) → (factory_throws s).lost ≡ s.lost
unfolding factory_throws
factory_throws-lost s = ground arith

factory_returns-lost : (conn : ℕ) (s : System) → conn ≢ 0 → (factory_returns conn s).lost ≡ s.lost
unfolding factory_returns
factory_returns-lost conn s h = ground arith

module _ (u : Setting) (null : (conn : ℕ) → NoneOnError (u.api conn)) where
  factory-IsKept :
      (conn : ℕ) → (factory u conn).1.handle ≢ 0 → IsKept (u.api conn) (factory u conn).1
  unfolding make_factory
  factory-IsKept conn =
      elim u.adapter
        as (λ a.
          let c = (make_factory (u.api conn) u.os u.db u.mode a).1 in
          c.handle ≢ 0 → IsKept (u.api conn) c) [
            | none ↦ connect-IsKept (u.api conn) u.os (default_adapter u.os) u.db u.mode
            | some fs ↦ connect-IsKept (u.api conn) u.os fs u.db u.mode
          ]

  worked-IsKept :
      (conn : ℕ) (ops : List Operation) (c : Connection)
      → IsKept (u.api conn) c
      → IsKept (u.api conn) (worked u conn ops c)
  unfolding worked
  worked-IsKept conn ops c k =
      (leave_objects-IsKept (u.api conn) u.os (held_adapter u) ops c (null conn) k).0

  update_at : (n : ℕ) (c : Connection) (f : ℕ → Connection) → update n c f n ≡ c
  unfolding update
  update_at n c f = ground arith

  update_beside : (n m : ℕ) (c : Connection) (f : ℕ → Connection) → n ≢ m → update n c f m ≡ f m
  unfolding update
  update_beside n m c f h = ground arith

  update-IsKept :
      (n m : ℕ) (c : Connection) (f : ℕ → Connection)
      → IsKept (u.api n) c
      → (n ≢ m → IsKept (u.api m) (f m))
      → IsKept (u.api m) (update n c f m)
  update-IsKept n m c f k other = elim (ℕ_discrete n m) [
    | yes e ↦
        subst (λ x. IsKept (u.api x) (update n c f x)) e
          (subst (IsKept (u.api n)) (sym (update_at n c f)) k)
    | no d ↦ subst (IsKept (u.api m)) (sym (update_beside n m c f d)) (other d)
  ]

  -- Each connection that was made is idle or leased, once, and kept.
  pub record IsSound (t : Site) : Type 0 where
    pub whole : (conn : ℕ) → placed conn t.system ≡ count conn t.made
    pub once : (conn : ℕ) → count conn t.made ≤ 1
    pub filled : t.system.lost ≡ 0
    pub kept : (conn : ℕ) → 0 < count conn t.made → IsKept (u.api conn) (t.state conn)

  -- A step of the pool that moves connections only.
  moved-IsSound :
      (t : Site) (s : System)
      → ((conn : ℕ) → placed conn s ≡ placed conn t.system)
      → s.lost ≡ t.system.lost
      → IsSound t
      → IsSound (record t { system = s })
  moved-IsSound t s same lost b = record {
    whole = λ c. same c ∙ b.whole c;
    once = b.once;
    filled = lost ∙ b.filled;
    kept = b.kept;
  }

  pub Step-IsSound : {t r : Site} → Step u t r → IsSound t → IsSound r
  Step-IsSound {t} Step.enters b =
      moved-IsSound t (take_turn t.system) (λ c. take_turn-placed c t.system)
        (take_turn-lost t.system) b
  Step-IsSound {t} (Step.wakes h) b =
      let s : System = record (t.system) { woken = t.system.woken - 1 } in
      moved-IsSound t (take_turn s) (λ c. take_turn-placed c s) (take_turn-lost s) b
  Step-IsSound {t} (Step.stirs h) b =
      let s : System = record (t.system) { waiting = t.system.waiting - 1 } in
      moved-IsSound t (take_turn s) (λ c. take_turn-placed c s) (take_turn-lost s) b
  Step-IsSound {t} (Step.makes conn h real new fine opened) b = record {
    whole = λ c. ground (arith, factory_returns-placed c conn t.system real, b.whole c);
    once = λ c. ground (arith, b.once c);
    filled = factory_returns-lost conn t.system real ∙ b.filled;
    kept = λ c m.
        update-IsKept conn c (factory u conn).1 t.state (factory-IsKept conn opened)
          (λ d. b.kept c (ground arith));
  }
  Step-IsSound {t} (Step.fails conn h failed) b =
      moved-IsSound t (factory_throws t.system) (λ c. factory_throws-placed c t.system)
        (factory_throws-lost t.system) b
  Step-IsSound {t} (Step.shares conn) b =
      moved-IsSound t (record (t.system) { leased = add_owner conn t.system.leased })
        (λ c. rw (conns-add_owner conn t.system.leased) refl) refl b
  Step-IsSound {t} (Step.drops conn h) b =
      moved-IsSound t (drop conn t.system) (λ c. drop-placed c conn t.system h)
        (drop-lost conn t.system) b
  Step-IsSound {t} (Step.works conn ops h) b = record {
    whole = b.whole;
    once = b.once;
    filled = b.filled;
    kept = λ c m.
        update-IsKept conn c (worked u conn ops (t.state conn)) t.state
          (worked-IsKept conn ops (t.state conn) (b.kept conn (omega (arith, b.whole conn, h))))
          (λ d. b.kept c m);
  }

  pub Reach-IsSound : {t r : Site} → IsSound t → Reach u t r → IsSound r
  Reach-IsSound b Reach.here = b
  Reach-IsSound b (Reach.next r st) = Step-IsSound st (Reach-IsSound b r)
