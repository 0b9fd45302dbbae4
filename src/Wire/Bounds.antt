-- ===== src/Wire/Bounds.antt =====
-- A library whose setters check the sizes with which structs are allocated
-- (internal/proto/conmon.capnp.go: `New…`). Outside the struct the real library panics; `out` stands for
-- what is left then.
use mathlib.Core.Path.{fun_ext}
use conmon_rs.Base.{
  ℕ, ◌+◌, ◌*◌, ◌≡◌, refl, ap, ◌∙◌, String, Bool, true, false, ltb, leb, ◌==◌, some, List, [], ◌∷◌,
  length, if◌then◌else◌,
}
use conmon_rs.Base.Results.{Result, ok, wrapped}
use conmon_rs.Base.Chain.{◌>>=◌}
use conmon_rs.Proto.{ObjectSize}
use conmon_rs.Wire.{Capnp, Place, root, at, text_list, struct_list, word_list}
use conmon_rs.Wire.Lists.{
  int32, set_texts, string_slice_to_text_list, set_entries, string_string_map_to_map_entry_list,
  set_words, remote_fd_slice_to_uint64_list,
}
use conmon_rs.Requests.Metadata.{Injected, set_metadata_old, set_metadata}

-- The size of a request, and that of the structs in the list at each of its slots.
pub record Layout : Type 0 where
  pub whole : ObjectSize
  pub elements : ℕ → ObjectSize

abbrev pub size_at : Layout → Place → ObjectSize
size_at l root = l.whole
size_at l (at k i) = l.elements k

abbrev pub has_pointer : Layout → Place → ℕ → Bool
has_pointer l p k = ltb k (size_at l p).pointer_count

abbrev pub has_data : Layout → Place → ℕ → ℕ → Bool
has_data l p o w = leb (o + w) ((size_at l p).data_size * 8)

abbrev pub bounded : (C : Capnp) → Layout → C.Message → Capnp
bounded C l out = record C {
  set_text = λ p k v m. if has_pointer l p k then C.set_text p k v m else ok out;
  set_data = λ p k v m. if has_pointer l p k then C.set_data p k v m else ok out;
  new_list = λ kind k n m. if has_pointer l root k then C.new_list kind k n m else ok out;
  set_list = λ k m. if has_pointer l root k then C.set_list k m else ok out;
  set_scalar = λ p o w v m. if has_data l p o w then C.set_scalar p o w v m else out;
}

pub then_same :
    {X Y : Type 0} {r r' : Result X} {f g : X → Result Y}
    → r ≡ r'
    → ((x : X) → f x ≡ g x)
    → (r >>= f) ≡ (r' >>= g)
then_same {X = X} {Y = Y} {r' = r'} {f = f} {g = g} e h =
    ap (λ r. r >>= f) e ∙ ap (λ (k : X → Result Y). r' >>= k) (fun_ext h)

module _ (C : Capnp) (l : Layout) (out : C.Message) where
  set_texts_same :
      (k i : ℕ) (vs : List String) (m : C.Message)
      → set_texts (bounded C l out) k i vs m ≡ set_texts C k i vs m
  unfolding set_texts
  set_texts_same k i [] m = refl
  set_texts_same k i (v ∷ vs) m = then_same refl (λ m'. set_texts_same k (i + 1) vs m')

  pub string_slice_same :
      (k : ℕ) (vs : List String) (m : C.Message)
      → has_pointer l root k ≡ true
      → string_slice_to_text_list (bounded C l out) k vs m ≡ string_slice_to_text_list C k vs m
  unfolding string_slice_to_text_list
  string_slice_same k vs m h =
      ap (λ r. if int32 (length vs) == 0 then ok m else r)
        (then_same
          (ap
            (λ b.
              wrapped "create list"
                (if b then C.new_list text_list k (int32 (length vs)) m else ok out))
            h)
          (λ m'. set_texts_same k 0 vs m'))

  set_entries_same :
      (k i : ℕ) (es : List (String × String)) (m : C.Message)
      → has_pointer l (at k i) 0 ≡ true
      → has_pointer l (at k i) 1 ≡ true
      → set_entries (bounded C l out) k i es m ≡ set_entries C k i es m
  unfolding set_entries
  set_entries_same k i [] m h0 h1 = refl
  set_entries_same k i ((key, value) ∷ es) m h0 h1 =
      then_same
        (ap (λ b. wrapped "set map key" (if b then C.set_text (at k i) 0 key m else ok out)) h0)
        (λ m'.
          then_same
            (ap
              (λ b. wrapped "set map value" (if b then C.set_text (at k i) 1 value m' else ok out))
              h1)
            (λ m''. set_entries_same k (i + 1) es m'' h0 h1))

  pub map_same :
      (k : ℕ) (es : List (String × String)) (m : C.Message)
      → has_pointer l root k ≡ true
      → has_pointer l (at k 0) 0 ≡ true
      → has_pointer l (at k 0) 1 ≡ true
      → string_string_map_to_map_entry_list (bounded C l out) k es m
        ≡ string_string_map_to_map_entry_list C k es m
  unfolding string_string_map_to_map_entry_list
  map_same k es m h h0 h1 =
      ap (λ r. if int32 (length es) == 0 then ok m else r)
        (then_same
          (ap
            (λ b.
              wrapped "create map"
                (if b then C.new_list struct_list k (int32 (length es)) m else ok out))
            h)
          (λ m'. set_entries_same k 0 es m' h0 h1))

  set_words_same :
      (k i : ℕ) (vs : List ℕ) (m : C.Message)
      → set_words (bounded C l out) k i vs m ≡ set_words C k i vs m
  unfolding set_words
  set_words_same k i [] m = refl
  set_words_same k i (v ∷ vs) m = set_words_same k (i + 1) vs (C.set_word_elem k i v m)

  pub fd_slice_same :
      (k : ℕ) (vs : List ℕ) (m : C.Message)
      → has_pointer l root k ≡ true
      → remote_fd_slice_to_uint64_list (bounded C l out) k vs m
        ≡ remote_fd_slice_to_uint64_list C k vs m
  unfolding remote_fd_slice_to_uint64_list
  fd_slice_same k vs m h =
      ap (λ r. if int32 (length vs) == 0 then ok m else r)
        (then_same (ap (λ b. if b then C.new_list word_list k (int32 (length vs)) m else ok out) h)
          (λ m'. ap (λ x. ok x) (set_words_same k 0 vs m')))

  old_same :
      (k : ℕ) (marshalled : Result (List ℕ)) (m : C.Message)
      → has_pointer l root k ≡ true
      → set_metadata_old (bounded C l out) (some k) marshalled m
        ≡ set_metadata_old C (some k) marshalled m
  unfolding set_metadata_old
  old_same k marshalled m h =
      then_same refl (λ b.
        ap (λ fits. wrapped "set metadata" (if fits then C.set_data root k b m else ok out)) h)

  -- The metadata of a request with both of its slots.
  pub metadata_same :
      (tracing : Bool) (k j : ℕ) (injected : Injected) (m : C.Message)
      → has_pointer l root k ≡ true
      → has_pointer l root j ≡ true
      → has_pointer l (at k 0) 0 ≡ true
      → has_pointer l (at k 0) 1 ≡ true
      → set_metadata (bounded C l out) tracing (record { metadata = k; old = some j }) injected m
        ≡ set_metadata C tracing (record { metadata = k; old = some j }) injected m
  unfolding set_metadata
  metadata_same false k j injected m h h' h0 h1 = refl
  metadata_same true k j injected m h h' h0 h1 =
      then_same (ap (wrapped "set metadata2") (map_same k injected.entries m h h0 h1))
        (λ m'. old_same j injected.marshalled m' h')
