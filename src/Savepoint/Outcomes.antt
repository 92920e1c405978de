-- ===== src/Savepoint/Outcomes.antt =====
-- How long a savepoint of savepoint.cpp counts as active, and what its destructor does.
use vsqlite.Base.{
  ◌≡◌, Bool, true, false, not, ◌&&◌, Text, List, [], ◌∷◌, M, ok, is_ok, arith, if◌then◌else◌,
}
use vsqlite.Sqlite.{Api}
use vsqlite.Connection.{Connection}
use vsqlite.Execute.{execute}
use vsqlite.Savepoint.{
  Savepoint, Ending, left_by, exec, create, release, rollback, destroy, release_sql, rollback_sql,
}

-- What the owner of a savepoint does with it.
pub data Act : Type 0 where
  releases rolls_back : Act

unfoldable pub act : Api → Act → M Savepoint (Unit {0})
unfolding release rollback
act api releases = release api
act api rolls_back = rollback api

abbrev pub act_sql : Text → Act → Text
act_sql name releases = release_sql name
act_sql name rolls_back = rollback_sql name

abbrev is_release : Act → Bool
is_release releases = true
is_release rolls_back = false

act_lem :
    (api : Api) (a : Act) (s : Savepoint)
    → let r = execute api (act_sql s.name a) true s.con in
      act api a s ≡ (
        r.0,
        record {
          con = r.1;
          name = s.name;
          is_active = if is_release a && is_ok r.0 then false else s.is_active;
        },
      )
unfolding act exec
act_lem api releases s = ground arith
act_lem api rolls_back s = ground arith

-- What was done, one after the other, by an owner who goes on after an exception; the flag says
-- whether a release succeeded.
unfoldable pub acts : Api → List Act → Savepoint → Bool × Savepoint
acts api [] s = (false, s)
acts api (a ∷ rest) s =
    let r = act api a s in
    let (later, s') = acts api rest r.1 in ((if is_release a && is_ok r.0 then true else later), s')

acts_lem :
    (api : Api) (tasks : List Act) (s : Savepoint)
    → ((acts api tasks s).1.name ≡ s.name)
      × ((acts api tasks s).1.is_active ≡ (s.is_active && not (acts api tasks s).0))
unfolding acts
acts_lem api [] s = ground arith
acts_lem api (a ∷ tasks) s = ground (arith, act_lem api a s, acts_lem api tasks (act api a s).1)

-- A savepoint that was created is active until a release of it succeeds, whatever fails or is rolled
-- back in between. Its destructor does nothing if one has succeeded. If none has, the destructor
-- executes one release, and where that throws, the program is terminated.
pub destroy-acts :
    (api : Api) (con : Connection) (name : Text) (tasks : List Act)
    → (create api con name).0 ≡ ok tt
    → let done = acts api tasks (create api con name).1 in
      (done.1.is_active ≡ not done.0)
      × (destroy api done.1 ≡ (
          if done.0
          then Ending.gone done.1.con
          else left_by (execute api (release_sql name) true done.1.con)))
unfolding create destroy release exec
destroy-acts api con name tasks h = ground (arith, acts_lem api tasks (create api con name).1)
