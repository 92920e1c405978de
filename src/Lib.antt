-- ===== src/Lib.antt =====
-- vsqlite++, a C++ wrapper of SQLite: its objects, and what their own logic guarantees.
--
-- The parts, from the bottom. A `connection` owns a database handle and a cache of prepared
-- statements, which is a list in order of use and an index into it. A `command` takes its statement
-- from that cache, prepares one if there is none, binds values, steps, and gives the statement back
-- when it is destroyed. A `query` is a command whose rows a `result` reads, and a `result_range`
-- walks through a result once. `execute` is a temporary command; transactions, savepoints and views
-- are sequences of such executions, and a transaction or savepoint takes and opens a `snapshot` while
-- it is active. The journal mode is set by a local query. A `connection_pool` shares connections among
-- threads. A `backup` copies one database to another, `serialize` and `deserialize` turn one into
-- bytes and back, a `session` records changes, and `configure_threading` sets a mode for the whole
-- process. `create_function` makes a callable a function of SQL, and the JSON and search helpers build
-- expressions and register two functions of their own.
--
-- Where the parts stand:
--
--   Base                    outcomes (a value, an exception, undefined behaviour), texts as bytes,
--                           integers, decimals; include/sqlite/database_exception.hpp
--   Sqlite                  the C interface of SQLite: a parameter, the record `Api`; the functions
--                           that only one part calls are a record beside that part
--   Files                   include/sqlite/filesystem_adapter.hpp; std::filesystem is a parameter
--   Cache                   src/sqlite/statement_cache.cpp
--   Cache.Index             the list with its nodes, and the map from a text to a node
--   Cache.Eviction          the reference: a bounded list of the statements that were last released
--   Connection              src/sqlite/connection.cpp; its Paths are the checks of a database's path
--   Attachment              the methods `attach` and `detach` of src/sqlite/connection.cpp
--   Command                 src/sqlite/command.cpp and include/sqlite/command.hpp; its Values are what
--                           can be bound, its Bindings describe the calls that this should come to,
--                           and its Keywords are the test for a change of the schema
--   Execute                 src/sqlite/execute.cpp, and the life of a local command
--   Transaction, Savepoint  src/sqlite/transaction.cpp, src/sqlite/savepoint.cpp
--   View                    src/sqlite/view.cpp
--   Result                  src/sqlite/result.cpp and include/sqlite/result.hpp; its Conversions are
--                           the targets of `get<T>`
--   Query                   src/sqlite/query.cpp and include/sqlite/query.hpp; its Iterators are those of a
--                           range, and its Each a loop over them
--   Pool                    src/sqlite/connection_pool.cpp; its Semaphore is the reference
--   Backup, Threading       src/sqlite/backup.cpp, src/sqlite/threading.cpp
--   Serialization           src/sqlite/serialization.cpp
--   Session                 src/sqlite/session.cpp; its Lifetime follows two variables with sessions
--   Snapshot                the class of src/sqlite/snapshot.cpp, and the snapshot methods of
--                           src/sqlite/transaction.cpp and savepoint.cpp
--   Wal                     the names of the journal modes in src/sqlite/snapshot.cpp; its Setting is
--                           what sets and reads the mode
--   Function                include/sqlite/function.hpp; its Entry is what SQLite calls, and its
--                           Registration is `create_function`
--   Json                    the paths and expressions of src/sqlite/json_fts.cpp
--   Extensions              the rest of src/sqlite/json_fts.cpp; its Rank is `simple_rank`
--   Program                 a program over one connection: its objects beside one another, used and
--                           destroyed in any order, from its opening to its end
--                           its Pooled is threads over one pool, each with connections of its own
--   Symbols                 src/sqlite/dynamic_symbols.hpp, and what src/sqlite/session.cpp, snapshot.cpp
--                           and serialization.cpp look up with it
--   Tests                   the theorems at concrete inputs, over a SQLite that accepts everything
--
-- How state is modelled. A method is a function from the state of its object to an outcome and the
-- state it leaves, also where it throws. A command carries the state of the connection that it
-- refers to, and a result that of its query; in Program the connection stands once, and each of the
-- objects beside one another is given it in turn. What SQLite and the disk are asked to do is written to
-- a log in the connection, the latest call first; the answers of SQLite are functions of that log,
-- of which nothing is assumed but what a theorem names. Pointers are numbers, and 0 is the null
-- pointer. The functions keep the names of the methods; the part of a method behind its access
-- check, or a branch with a state of its own, is a function beside it.
--
-- Nearly every loop of the code runs through a list, an argument pack or a number of columns, and its
-- recursion is structural. How long a walk through the rows goes on is up to SQLite; the theorems on it
-- take the number of rows to come. Fuel stands in four places: the digits of a number n take n + 1,
-- more than it has digits; a reader of JSON paths takes the length of the text, of which each segment
-- takes a byte; the rank of `simple_rank` takes any number above that of the hits, each of which takes
-- one turn; and a loop over a range takes one turn for each row, and one more to see the end.
--
-- Threads meet in the pool only. Each critical section of its mutex is one function, and
-- `Pool.Step` lets any number of threads run them in any order, wake without being notified, and
-- drop their leases. The mutexes of the statement cache and of the threading mode are left out, and
-- their methods are single steps. That of the cache is held from the first look at its lists to the
-- end; its configuration is read before, which matters only if another thread replaces it meanwhile.
--
-- A destructor of a savepoint that an exception would leave ends the program. A run in Program goes on
-- where the code would end there.
--
-- Not modelled: the traits that read the signature of a callable, which the compiler evaluates
-- (include/sqlite/function.hpp), and the macros of include/sqlite/deprecated.hpp; a range without a
-- result; how long a view into the memory of SQLite stays valid; the overflow of a duration's count
-- beyond 64 bits; and memory that runs out.
pub mod Attachment
pub mod Backup
pub mod Base
pub mod Cache
pub mod Command
pub mod Connection
pub mod Execute
pub mod Extensions
pub mod Files
pub mod Function
pub mod Json
pub mod Pool
pub mod Program
pub mod Query
pub mod Result
pub mod Savepoint
pub mod Serialization
pub mod Session
pub mod Snapshot
pub mod Sqlite
pub mod Symbols
pub mod Tests
pub mod Threading
pub mod Transaction
pub mod View
pub mod Wal
