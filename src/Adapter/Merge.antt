-- ===== src/Adapter/Merge.antt =====
-- `mergeOpenAPIDefinitions` of pkg/cmd/builder.go; each source is the map that its function gives.
use storage_metrics_server.Base.{String, List, [], ◌∷◌, Map, insert, string_eq}

-- `definitions` maps each of the keys to a definition, from the last source that has it.
unfoldable pub copy_definitions : {D : Type 0} → Map String D → Map String D → Map String D
copy_definitions [] defs = defs
copy_definitions ((k, v) ∷ definitions) defs = copy_definitions definitions (insert k v defs)

unfoldable pub merge_from : {D : Type 0} → List (Map String D) → Map String D → Map String D
unfolding copy_definitions
merge_from [] defs = defs
merge_from (definitions ∷ rest) defs = merge_from rest (copy_definitions definitions defs)

unfoldable pub merge_open_api_definitions : {D : Type 0} → List (Map String D) → Map String D
unfolding merge_from
merge_open_api_definitions getters = merge_from getters []
