-- ===== src/Tests/Attaching.antt =====
-- The theorems on attached databases at a concrete input.
use vsqlite.Base.{
  ◌≡◌, ◌⊎◌, Text, [], ◌++◌, codes, ok, raise, some, database_exception, true, false, is_ok, arith,
}
use vsqlite.Files.{Adapter, default_adapter}
use vsqlite.Connection.Paths.{validate_db_path}
use vsqlite.Connection.Identifiers.{read_identifier}
use vsqlite.Execute.{execute, with_command}
use vsqlite.Attachment.{attach, detach, no_alias}
use vsqlite.Attachment
use vsqlite.Tests.Fixture.{demo_api, demo_files, open_connection}

abbrev fs : Adapter
fs = default_adapter demo_files

attach_names_example :
    ((codes "b" ≡ [])
      × (attach demo_api demo_files fs (codes "a.db") (codes "b") open_connection
          ≡ (raise (database_exception no_alias), open_connection))
      × (detach demo_api (codes "b") open_connection
          ≡ (raise (database_exception no_alias), open_connection)))
    ⊎ ((body : Text) × (read_identifier body ≡ some (codes "b", codes ";"))
        × (detach demo_api (codes "b") open_connection
            ≡ execute demo_api (codes "DETACH DATABASE " ++ body) true open_connection)
        × (((is_ok (validate_db_path demo_files fs [] (codes "a.db") false) ≡ false)
              × (attach demo_api demo_files fs (codes "a.db") (codes "b") open_connection
                  ≡ (validate_db_path demo_files fs [] (codes "a.db") false, open_connection)))
            ⊎ ((validate_db_path demo_files fs [] (codes "a.db") false ≡ ok tt)
                × (attach demo_api demo_files fs (codes "a.db") (codes "b") open_connection
                    ≡ with_command demo_api
                        (codes "ATTACH DATABASE ? AS " ++ body)
                        (Attachment.attach_once demo_api (codes "a.db"))
                        open_connection))))
attach_names_example =
    Attachment.attach_names demo_api demo_files fs (codes "a.db") (codes "b") open_connection
      (omega arith)
