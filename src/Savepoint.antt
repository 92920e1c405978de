-- ===== src/Savepoint.antt =====
-- savepoint.hpp and savepoint.cpp, but for the two snapshot methods, which stand in Snapshot.
pub mod Outcomes
use vsqlite.Base.{
  ◌≡◌, refl, Bool, true, false, Text, ◌++◌, codes, M, ok, raise, undefined, ◌>>◌, zoom,
  if◌then◌else◌, Outcome,
}
use vsqlite.Sqlite.{Api}
use vsqlite.Connection.{Connection}
use vsqlite.Execute.{execute}

pub record Savepoint : Type 0 where
  pub con : Connection
  pub name : Text
  pub is_active : Bool

unfoldable pub exec : Api → Text → M Savepoint (Unit {0})
exec api cmd = zoom (λ s. s.con) (λ c s. record s { con = c }) (execute api cmd true)

abbrev set_active : Bool → M Savepoint (Unit {0})
set_active b s = (ok tt, record s { is_active = b })

unfoldable pub savepoint_sql : Text → Text
savepoint_sql name = codes "SAVEPOINT " ++ name

unfoldable pub release_sql : Text → Text
release_sql name = codes "RELEASE SAVEPOINT " ++ name

unfoldable pub rollback_sql : Text → Text
rollback_sql name = codes "ROLLBACK TRANSACTION TO SAVEPOINT " ++ name

-- The constructor; an exception leaves it before the flag is set, and there is no object.
unfoldable pub create : Api → Connection → Text → Outcome (Unit {0}) × Savepoint
unfolding exec
create api con name =
    (do exec api (savepoint_sql name); set_active true)
      (record { con = con; name = name; is_active = false })

unfoldable pub release : Api → M Savepoint (Unit {0})
unfolding exec
release api s = (do exec api (release_sql s.name); set_active false) s

unfoldable pub rollback : Api → M Savepoint (Unit {0})
unfolding exec
rollback api s = exec api (rollback_sql s.name) s

-- How a destructor ends, with the connection as it is then: the object is gone; or an exception was
-- about to leave the destructor, which is noexcept, and `std::terminate` has ended the program; or
-- there was undefined behaviour.
pub data Ending : Type 0 where
  gone : Connection → Ending
  terminated : Connection → Ending
  undefined_behaviour : Connection → Ending

abbrev pub left_by : Outcome (Unit {0}) × Connection → Ending
left_by (ok u, con) = Ending.gone con
left_by (raise e, con) = Ending.terminated con
left_by (undefined, con) = Ending.undefined_behaviour con

abbrev pub connection_of : Ending → Connection
connection_of (Ending.gone con) = con
connection_of (Ending.terminated con) = con
connection_of (Ending.undefined_behaviour con) = con

pub connection_of-left_by : (r : Outcome (Unit {0}) × Connection) → connection_of (left_by r) ≡ r.1
connection_of-left_by (ok u, con) = refl
connection_of-left_by (raise e, con) = refl
connection_of-left_by (undefined, con) = refl

-- `~savepoint`, which does not catch what `release` throws.
unfoldable pub destroy : Api → Savepoint → Ending
unfolding release
destroy api s =
    let (r, s') = release api s in if s.is_active then left_by (r, s'.con) else Ending.gone s.con
