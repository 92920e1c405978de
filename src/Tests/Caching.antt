-- ===== src/Tests/Caching.antt =====
-- The theorems on the statement cache at concrete inputs.
use vsqlite.Base.{◌≡◌, [], ◌∷◌}
use vsqlite.Sqlite.{Log}
use vsqlite.Cache.{Cache, Config, default_config}
use vsqlite.Cache
use vsqlite.Cache.Invariant.{IsValid, create-IsValid}
use vsqlite.Cache.Recency
use vsqlite.Cache.Recency.{Operation}
use vsqlite.Tests.Fixture.{demo_api, small, select}

new_cache : IsValid (Cache.create small)
new_cache = create-IsValid small

create_refines_example :
    IsValid
      (Recency.perform_all demo_api (Operation.releases select 5 ∷ []) (Cache.create small, [])).0
    × (Recency.view
          (Recency.perform_all demo_api
            (Operation.releases select 5 ∷ [])
            (Cache.create small, [])).0
        ≡ Recency.intend_all (Operation.releases select 5 ∷ []) (small, []))
create_refines_example = Recency.create_refines demo_api small (Operation.releases select 5 ∷ []) []

abbrev filled : Cache × Log
filled = (Cache.release select 5 (Cache.create small, [])).1
