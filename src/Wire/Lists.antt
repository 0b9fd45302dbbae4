-- ===== src/Wire/Lists.antt =====
-- The list conversions of pkg/client/capnp_util.go. A length goes through `int32`, whose bit
-- pattern is the length modulo 2 ^ 32.
use conmon_rs.Base.{ℕ, ◌+◌, ◌%◌, ◌^◌, String, ◌==◌, List, [], ◌∷◌, length, if◌then◌else◌}
use conmon_rs.Base.Results.{Result, ok, wrapped}
use conmon_rs.Base.Chain.{◌>>=◌}
use conmon_rs.Proto.TextTextMapEntry
use conmon_rs.Wire.{Capnp, at, text_list, word_list, struct_list}

abbrev pub int32 : ℕ → ℕ
int32 n = n % 2 ^ 32

module _ (C : Capnp) where
  unfoldable pub set_texts : ℕ → ℕ → List String → C.Message → Result C.Message
  set_texts k i [] m = ok m
  set_texts k i (v ∷ vs) m = do
    m' ← wrapped "set list element" (C.set_text_elem k i v m)
    set_texts k (i + 1) vs m'

  -- `newFunc` is the accessor that allocates the list of slot `k`.
  unfoldable pub string_slice_to_text_list : ℕ → List String → C.Message → Result C.Message
  string_slice_to_text_list k vs m = if int32 (length vs) == 0 then ok m else do
    m' ← wrapped "create list" (C.new_list text_list k (int32 (length vs)) m)
    set_texts k 0 vs m'

  unfoldable pub set_entries : ℕ → ℕ → List (String × String) → C.Message → Result C.Message
  set_entries k i [] m = ok m
  set_entries k i ((key, value) ∷ es) m = do
    m' ← wrapped "set map key" (TextTextMapEntry.set_key C (at k i) key m)
    m'' ← wrapped "set map value" (TextTextMapEntry.set_value C (at k i) value m')
    set_entries k (i + 1) es m''

  -- The list is the map in the order in which `range` goes over it.
  unfoldable pub string_string_map_to_map_entry_list :
      ℕ → List (String × String) → C.Message → Result C.Message
  string_string_map_to_map_entry_list k es m = if int32 (length es) == 0 then ok m else do
    m' ← wrapped "create map" (C.new_list struct_list k (int32 (length es)) m)
    set_entries k 0 es m'

  unfoldable pub set_words : ℕ → ℕ → List ℕ → C.Message → C.Message
  set_words k i [] m = m
  set_words k i (v ∷ vs) m = set_words k (i + 1) vs (C.set_word_elem k i v m)

  unfoldable pub remote_fd_slice_to_uint64_list : ℕ → List ℕ → C.Message → Result C.Message
  remote_fd_slice_to_uint64_list k vs m =
      if int32 (length vs) == 0
      then ok m
      else do m' ← C.new_list word_list k (int32 (length vs)) m; ok (set_words k 0 vs m')
