-- ===== src/Tests/Stores.antt =====
-- The theorems on the grant stores of grants.py at a concrete grant.
use hermes_plugin_dynamic_wo.Prelude.{
  String, ◌≡◌, ◌⊎◌, refl, true, false, Option, none, some, [], ◌∷◌, ◌==◌, if◌then◌else◌,
}
use hermes_plugin_dynamic_wo.Prelude.Dict.{put}
use hermes_plugin_dynamic_wo.Python.Value.{Value, Fields, obj, end, field, value_eq, get_field}
use hermes_plugin_dynamic_wo.Grants.Records.{SessionGrant}
use hermes_plugin_dynamic_wo.Grants.Codec.{to_dict}
use hermes_plugin_dynamic_wo.Grants.Resolve.{issued, resolve_grant}
use hermes_plugin_dynamic_wo.Grants.Stores.{
  GrantFiles, IsStored, save_grant, save_file, get_file, resolve-IsStored, get_file-save_file,
}
use hermes_plugin_dynamic_wo.Tests.Grants.{request, grant, broker}
use hermes_plugin_dynamic_wo.Tests.Samples.{platform}

resolve-IsStored_example :
    (((resolve_grant platform (some broker) request (some save_grant) []).0.is_granted ≡ false)
      × ((resolve_grant platform (some broker) request (some save_grant) []).1 ≡ []))
    ⊎ ((g : SessionGrant) × ((resolve_grant platform
            (some broker)
            request
            (some save_grant)
            []).0.grant
          ≡ issued g)
        × IsStored g [] (resolve_grant platform (some broker) request (some save_grant) []).1)
resolve-IsStored_example = resolve-IsStored platform (some broker) request []

-- The dict of the grant, its keys in another order: the last key first, as sorting would do.
abbrev turned : Fields → Fields → Fields
turned end d = d
turned (field k v c) d = turned c (field k v d)

abbrev read_back : Value
read_back = obj (turned (to_dict grant) end)

-- A writer and a reader that change the order of the keys.
abbrev dumps : Value → Option String
dumps v = if value_eq v (obj (to_dict grant)) then some "{grant-1}" else none

abbrev loads : String → Option Value
loads t = if t == "{grant-1}\n" then some read_back else none

abbrev saved : GrantFiles
saved = ("grant-1", "{grant-1}\n") ∷ []

dumps_grant : dumps (obj (to_dict grant)) ≡ some "{grant-1}"
unfolding value_eq to_dict get_field
dumps_grant = refl

same_dict : value_eq read_back (obj (to_dict grant)) ≡ true
unfolding value_eq to_dict get_field
same_dict = refl

saves_grant : save_file platform dumps loads grant [] ≡ (true, saved)
unfolding save_file put value_eq get_field
saves_grant = refl

get_file-save_file_example :
    ((w : Value) × (get_file platform dumps loads saved "grant-1" ≡ some (some w))
      × (value_eq w (obj (to_dict grant)) ≡ true))
    × ((j : String)
        → ("grant-1" == j) ≡ false
        → get_file platform dumps loads saved j ≡ get_file platform dumps loads [] j)
get_file-save_file_example =
    get_file-save_file platform dumps loads grant [] saved "{grant-1}" read_back dumps_grant refl
      same_dict saves_grant
