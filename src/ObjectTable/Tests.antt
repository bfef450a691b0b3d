-- ===== src/ObjectTable/Tests.antt =====
-- A table that two endpoints were added to.
use vertex_os.Base.{◌≡◌, ◌⊎◌, refl, true, false, some, ok, err, arith}
use vertex_os.Base.Search.{Fails}
use vertex_os.Ids.{KernelObjectId}
use vertex_os.Transport.{new_endpoint}
use vertex_os.Object.{KernelObject}
use vertex_os.ObjectTable.Table.{ObjectTable, used, new_table, append_object, insert_object}
use vertex_os.ObjectTable.Add.{add_endpoint_owned}
use vertex_os.ObjectTable.Find.{get_endpoint}
use vertex_os.ObjectTable.Remove.{remove_first, is_owned_endpoint}
use vertex_os.ObjectTable.Valid.{IsTable}
use vertex_os.ObjectTable.Removed.{Taken, remove_first-Taken}
use vertex_os.ObjectTable.Steps.{
  Reach, here, next, adds, by_endpoint, Reach-IsTable, Step-IsTable, new_table-IsTable,
}
use vertex_os.ObjectTable.Lookups.{get_endpoint-add_endpoint_owned}

-- What `add_endpoint_owned` returns for a second endpoint.
added_to : ObjectTable → KernelObjectId × ObjectTable
unfolding add_endpoint_owned insert_object append_object new_endpoint
added_to t = elim (add_endpoint_owned "input" 7 t) [ ok r ↦ r | err e ↦ (0, t) ]

one_endpoint : ObjectTable
unfolding added_to new_table
one_endpoint = (added_to new_table).1

one_endpoint_added : add_endpoint_owned "input" 7 new_table ≡ ok (added_to new_table)
unfolding added_to new_table
one_endpoint_added = refl

one_endpoint_reached : Reach new_table one_endpoint
unfolding one_endpoint
one_endpoint_reached =
    next here (adds (added_to new_table) (by_endpoint "input" 7 one_endpoint_added))

one_endpoint-IsTable : IsTable one_endpoint
unfolding one_endpoint
one_endpoint-IsTable =
    Step-IsTable (adds (added_to new_table) (by_endpoint "input" 7 one_endpoint_added))
      new_table-IsTable

Reach-IsTable_example : IsTable one_endpoint
Reach-IsTable_example = Reach-IsTable one_endpoint_reached

one_more_added : add_endpoint_owned "input" 7 one_endpoint ≡ ok (added_to one_endpoint)
unfolding added_to one_endpoint
one_more_added = refl

get_endpoint-add_endpoint_owned_example :
    (get_endpoint (added_to one_endpoint).0 (added_to one_endpoint).1
      ≡ some (new_endpoint (added_to one_endpoint).0 "input" 7))
    × (get_endpoint 40 (added_to one_endpoint).1 ≡ get_endpoint 40 one_endpoint)
unfolding added_to one_endpoint
get_endpoint-add_endpoint_owned_example =
    get_endpoint-add_endpoint_owned "input" 7 one_endpoint (added_to one_endpoint) 40
      one_endpoint-IsTable one_more_added (ground arith)

remove_first-Taken_example :
    ((remove_first (is_owned_endpoint 1 7) one_endpoint ≡ (false, one_endpoint))
      × Fails (is_owned_endpoint 1 7) (used one_endpoint))
    ⊎ ((o : KernelObject) × ((remove_first (is_owned_endpoint 1 7) one_endpoint).0 ≡ true)
        × (is_owned_endpoint 1 7 (some o) ≡ true)
        × Taken one_endpoint o (remove_first (is_owned_endpoint 1 7) one_endpoint).1)
remove_first-Taken_example = remove_first-Taken (is_owned_endpoint 1 7) one_endpoint refl
