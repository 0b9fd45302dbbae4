-- ===== src/Requests/Metadata/Effect.antt =====
-- What the metadata leaves alone, and what is read back of it (pkg/client/client.go).
use conmon_rs.Base.{
  ℕ, ◌≡◌, refl, ap, ◌∙◌, inl, Bool, true, false, ◌==◌, Option, none, some, String, List, [], ◌∷◌,
  length, arith, if◌then◌else◌,
}
use mathlib.Core.Path.{fun_ext}
use conmon_rs.Base.Results.{Result, ok, err, wrapped}
use conmon_rs.Base.Chain.{>>=-eq-ok}
use conmon_rs.Wire.{Capnp, root, at, Content, bytes, texts, words, structs, update, IsLawful}
use conmon_rs.Wire.Lists.{string_string_map_to_map_entry_list}
use conmon_rs.Wire.Frame.{
  wrapped-eq-ok, FitsInt32, text_slot, word_slot, struct_slot, map_lem, content_self,
}
use conmon_rs.Proto.{MetadataSlots}
use conmon_rs.Requests.Metadata.{Injected, set_metadata, set_metadata_old}

-- How a slot reads after one has been written.
pub update_lem :
    (k j : ℕ) (c : Content) (f : ℕ → Content) → update k c f j ≡ (if k == j then c else f j)
unfolding update
update_lem k j c f = refl

-- A list that is left out when it is empty, read back.
abbrev pub given_texts : List String → Content → Content
given_texts [] old = old
given_texts (v ∷ vs) old = texts (v ∷ vs)

abbrev pub given_words : List ℕ → Content → Content
given_words [] old = old
given_words (v ∷ vs) old = words (v ∷ vs)

abbrev pub given_structs {ℓ} : {A : Type ℓ} → List A → Content → Content
given_structs [] old = old
given_structs (v ∷ vs) old = structs (length (v ∷ vs))

pub text_slot_lem :
    (k j : ℕ) (vs : List String) (f : ℕ → Content)
    → text_slot k vs f j ≡ (if k == j then given_texts vs (f j) else f j)
text_slot_lem k j [] f = ground arith
text_slot_lem k j (v ∷ vs) f = update_lem k j _ f

pub word_slot_lem :
    (k j : ℕ) (vs : List ℕ) (f : ℕ → Content)
    → word_slot k vs f j ≡ (if k == j then given_words vs (f j) else f j)
word_slot_lem k j [] f = ground arith
word_slot_lem k j (v ∷ vs) f = update_lem k j _ f

pub struct_slot_lem {ℓ} :
    {A : Type ℓ} (k j : ℕ) (vs : List A) (f : ℕ → Content)
    → struct_slot k vs f j ≡ (if k == j then given_structs vs (f j) else f j)
struct_slot_lem k j [] f = ground arith
struct_slot_lem k j (v ∷ vs) f = update_lem k j _ f

abbrev pub is_slot : Option ℕ → ℕ → Bool
is_slot none j = false
is_slot (some k) j = k == j

module _ (C : Capnp) (L : IsLawful C) where
  old_frame :
      (old : Option ℕ) (marshalled : Result (List ℕ)) (m m' : C.Message) (j : ℕ)
      → set_metadata_old C old marshalled m ≡ ok m'
      → is_slot old j ≡ false
      → (C.content m' root j ≡ C.content m root j) × (C.scalar m' root ≡ C.scalar m root)
  unfolding set_metadata_old
  old_frame none marshalled m m' j h other = ground arith
  old_frame (some k) (err e) m m' j h other = cc
  old_frame (some k) (ok bs) m m' j h other =
      let w = L.set_data_lem root k bs m m' (wrapped-eq-ok "set metadata" _ h) in
      (
        ap (λ (f : ℕ → Content). f j) (content_self C w)
            ∙ update_lem k j (bytes bs) (C.content m root)
            ∙ rw other,
        w.scalar_eq root,
      )

  -- The metadata goes into its own slots: every other slot and all scalars of the request stay.
  pub set_metadata_frame :
      (tracing : Bool) (slots : MetadataSlots) (injected : Injected) (m m' : C.Message) (j : ℕ)
      → FitsInt32 injected.entries
      → set_metadata C tracing slots injected m ≡ ok m'
      → (slots.metadata == j) ≡ false
      → is_slot slots.old j ≡ false
      → (C.content m' root j ≡ C.content m root j) × (C.scalar m' root ≡ C.scalar m root)
  unfolding set_metadata
  set_metadata_frame false slots injected m m' j fit h other older = ground arith
  set_metadata_frame true slots injected m m' j fit h other older =
      let fill = string_string_map_to_map_entry_list C slots.metadata injected.entries m in
      let (m1, h1, h2) = >>=-eq-ok (wrapped "set metadata2" fill) _ h in
      let (_, c, d) =
        map_lem C L slots.metadata injected.entries m m1 fit (wrapped-eq-ok "set metadata2" _ h1) in
      let (c', d') = old_frame slots.old injected.marshalled m1 m' j h2 older in
      (
        c'
            ∙ ap (λ (f : ℕ → Content). f j) c
            ∙ struct_slot_lem slots.metadata j injected.entries (C.content m root)
            ∙ rw other,
        d' ∙ d,
      )

  pub scalar-set_scalar_at :
      (k i o w v : ℕ) (m : C.Message)
      → C.scalar (C.set_scalar (at k i) o w v m) root ≡ C.scalar m root
  scalar-set_scalar_at k i o w v m =
      fun_ext λ o'. fun_ext λ w'. L.scalar-set_scalar_ne (at k i) root o w o' w' v m (inl refl)
