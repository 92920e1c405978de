-- ===== src/Tests/Imaging.antt =====
-- The theorems on images of databases at concrete inputs.
use vsqlite.Base.{suc, true, false, refl, [], codes, length, arith}
use vsqlite.Serialization.{ImageApi, Database}
use vsqlite.Serialization
use vsqlite.Serialization.Buffers
use vsqlite.Serialization.Buffers.{given, freed, Ways}

-- A SQLite that gives each buffer a new address and refuses every image.
abbrev pub refusing : ImageApi
refusing = record {
  has_serialize = true;
  has_deserialize = true;
  serialize = λ log h schema flags. (suc (length log), codes "image");
  malloc64 = λ log n. suc (length log);
  deserialize = λ log h schema p image flags. 1;
  errmsg = λ log h. [];
}

abbrev database : Database
database = record { handle = 1; log = [] }

deserialize-freed_example :
    Ways refusing 1 database (Serialization.deserialize refusing (codes "image") [] false database)
deserialize-freed_example =
    Buffers.deserialize-freed refusing (codes "image") [] false database refl refl (omega arith)
