-- ===== src/Pool/Factory.antt =====
-- `connection_pool::make_factory`, in connection_pool.cpp.
use vsqlite.Base.{Text, [], Option, none, some, Outcome}
use vsqlite.Sqlite.{Api}
use vsqlite.Files.{OsFiles, Adapter, default_adapter}
use vsqlite.Connection.{Connection, OpenMode, connect}

-- A call of the factory: a new connection, with the adapter if there is one.
unfoldable pub make_factory :
    Api → OsFiles → Text → OpenMode → Option Adapter → Outcome (Unit {0}) × Connection
make_factory api os db mode none = connect api os (default_adapter os) db mode []
make_factory api os db mode (some fs) = connect api os fs db mode []
