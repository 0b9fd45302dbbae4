-- ===== src/Requests/Metadata.antt =====
-- The tracing metadata of a request (pkg/client/client.go: `setMetadata`).
pub mod Effect
use conmon_rs.Base.{ℕ, String, Bool, Option, none, some, List, if◌then◌else◌}
use conmon_rs.Base.Results.{Result, ok, err, wrapped}
use conmon_rs.Base.Chain.{◌>>=◌}
use conmon_rs.Wire.{Capnp, root}
use conmon_rs.Proto.{MetadataSlots}
use conmon_rs.Wire.Lists.{string_string_map_to_map_entry_list}

-- What is injected comes from the span of the caller's context, and what it is in JSON from
-- `json.Marshal`. `entries` is the map in the order in which `range` goes over it.
pub record Injected : Type 0 where
  pub entries : List (String × String)
  pub marshalled : Result (List ℕ)

module _ (C : Capnp) where
  unfoldable pub set_metadata_old : Option ℕ → Result (List ℕ) → C.Message → Result C.Message
  set_metadata_old none marshalled m = ok m
  set_metadata_old (some k) marshalled m = do
    metadata_bytes ← wrapped "marshal metadata" marshalled
    wrapped "set metadata" (C.set_data root k metadata_bytes m)

  unfoldable pub set_metadata : Bool → MetadataSlots → Injected → C.Message → Result C.Message
  set_metadata tracing_enabled slots injected m =
      let filled = do
        m' ←
            wrapped "set metadata2"
              (string_string_map_to_map_entry_list C slots.metadata injected.entries m)
        set_metadata_old slots.old injected.marshalled m'
      in if tracing_enabled then filled else ok m
