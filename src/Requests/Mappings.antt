-- ===== src/Requests/Mappings.antt =====
-- The mappings of user and group ids (pkg/client/client.go: `mappingsToSlice`).
use Prim.Native.String.{◌++◌ as ◌<>◌}
use conmon_rs.Base.{String, List, [], ◌∷◌}
use conmon_rs.Base.Decimal.{decimal}
use conmon_rs.Requests.Config.{IdMap}

unfoldable pub mapping_text : IdMap → String
mapping_text m = decimal m.container_id <> (" " <> (decimal m.host_id <> (" " <> decimal m.size)))

unfoldable pub mappings_to_slice : List IdMap → List String
mappings_to_slice [] = []
mappings_to_slice (m ∷ ms) = mapping_text m ∷ mappings_to_slice ms
