-- ===== src/Wire/Frame.antt =====
-- What the list conversions leave in a message (pkg/client/capnp_util.go), over a lawful library.
use conmon_rs.Base.{
  ℕ, suc, ◌+◌, ◌^◌, ◌<◌, ◌≡◌, refl, ap, ◌∙◌, String, true, false, ◌==◌, List, [], ◌∷◌, ◌++◌, length,
  replicate, set, length-append, arith,
}
use mathlib.Core.Path.{fun_ext}
use mathlib.Core.List.{append_assoc}
use conmon_rs.Base.Results.{Result, ok, err, wrapped}
use conmon_rs.Base.Chain.{>>=-eq-ok}
use conmon_rs.Wire.{
  Capnp, Place, root, at, text_list, word_list, struct_list, Content, stored_text, texts, words,
  structs, update, same_place, Writes, IsLawful,
}
use conmon_rs.Wire.Lists.{
  int32, set_texts, string_slice_to_text_list, set_entries, string_string_map_to_map_entry_list,
  set_words, remote_fd_slice_to_uint64_list,
}

pub update_twice :
    (k : ℕ) (c d : Content) (f : ℕ → Content) → update k c (update k d f) ≡ update k c f
unfolding update
update_twice k c d f = fun_ext λ j. ground arith

pub update_self : (k : ℕ) (c : Content) (f : ℕ → Content) → update k c f k ≡ c
unfolding update
update_self k c f = ground arith

pub suc-ne-zero : (n : ℕ) → (suc n == 0) ≡ false
suc-ne-zero n = ground arith

same_place_self : (p : Place) → same_place p p ≡ true
same_place_self root = refl
same_place_self (at k i) = ground arith

two_slots :
    (c d : Content) (f : ℕ → Content)
    → (update 1 d (update 0 c f) 0 ≡ c) × (update 1 d (update 0 c f) 1 ≡ d)
unfolding update
two_slots c d f = (refl, refl)

pub set_middle {ℓ} :
    {A : Type ℓ} (front : List A) (a b : A) (back : List A)
    → set (front ++ a ∷ back) (length front) b ≡ (front ++ b ∷ []) ++ back
set_middle [] a b back = refl
set_middle (x ∷ front) a b back = ap (λ l. x ∷ l) (set_middle front a b back)

pub wrapped-eq-ok {ℓ} :
    {A : Type ℓ} (t : String) (r : Result A) {a : A} → wrapped t r ≡ ok a → r ≡ ok a
wrapped-eq-ok t (ok a) h = h
wrapped-eq-ok t (err e) h = cc

-- The slot of a list that is left out when it is empty.
abbrev pub text_slot : ℕ → List String → (ℕ → Content) → ℕ → Content
text_slot k [] f = f
text_slot k (v ∷ vs) f = update k (texts (v ∷ vs)) f

abbrev pub word_slot : ℕ → List ℕ → (ℕ → Content) → ℕ → Content
word_slot k [] f = f
word_slot k (v ∷ vs) f = update k (words (v ∷ vs)) f

abbrev pub struct_slot {ℓ} : {A : Type ℓ} → ℕ → List A → (ℕ → Content) → ℕ → Content
struct_slot k [] f = f
struct_slot k (e ∷ es) f = update k (structs (length (e ∷ es))) f

-- Lists whose length `int32` does not change.
abbrev pub FitsInt32 {ℓ} : {A : Type ℓ} → List A → Type 0
FitsInt32 l = length l < 2 ^ 31

module _ (C : Capnp) {m m' : C.Message} {p : Place} {k : ℕ} {c : Content} where
  pub content_self : Writes C m m' p k c → C.content m' p ≡ update k c (C.content m p)
  content_self w = w.content_eq p ∙ rw (same_place_self p)

  pub content-other :
      Writes C m m' p k c → (q : Place) → same_place p q ≡ false → C.content m' q ≡ C.content m q
  content-other w q h = w.content_eq q ∙ rw h

module _ (C : Capnp) (L : IsLawful C) where
  set_texts_lem :
      (k : ℕ) (front vs : List String) (f : ℕ → Content) (m m' : C.Message)
      → C.content m root ≡ update k (texts (front ++ replicate (length vs) "")) f
      → set_texts C k (length front) vs m ≡ ok m'
      → (C.content m' root ≡ update k (texts (front ++ vs)) f)
        × (C.scalar m' root ≡ C.scalar m root)
  unfolding set_texts
  set_texts_lem k front [] f m m' e h = ground arith
  set_texts_lem k front (v ∷ vs) f m m' e h =
      let (m1, h1, h2) =
        >>=-eq-ok (wrapped "set list element" (C.set_text_elem k (length front) v m)) _ h in
      let w =
        L.set_text_elem_lem k (length front) v (front ++ replicate (length (v ∷ vs)) "") m m1
          (rw e (update_self k _ f))
          (omega (arith, length-append front (replicate (length (v ∷ vs)) "")))
          (wrapped-eq-ok "set list element" _ h1) in
      let e1 : C.content m1 root
          ≡ update k (texts ((front ++ v ∷ []) ++ replicate (length vs) "")) f =
        w.content_eq root
        ∙ rw (e, update_twice, set_middle front "" v (replicate (length vs) "")) in
      let (c, d) =
        set_texts_lem k (front ++ v ∷ []) vs f m1 m' e1 (rw (length-append front (v ∷ [])) h2) in
      (c ∙ rw (append_assoc front (v ∷ []) vs), d ∙ w.scalar_eq root)

  -- A conversion of strings writes the strings into the slot, and an empty list is left out.
  pub string_slice_lem :
      (k : ℕ) (vs : List String) (m m' : C.Message)
      → FitsInt32 vs
      → string_slice_to_text_list C k vs m ≡ ok m'
      → (C.content m' root ≡ text_slot k vs (C.content m root))
        × (C.scalar m' root ≡ C.scalar m root)
  unfolding string_slice_to_text_list
  string_slice_lem k [] m m' fit h = ground arith
  string_slice_lem k (v ∷ vs) m m' fit h =
      let n : ℕ = length (v ∷ vs) in
      let small : int32 n ≡ n = omega arith in
      let (m1, h1, h2) =
        >>=-eq-ok (wrapped "create list" (C.new_list text_list k n m)) _
          (rw (suc-ne-zero (length vs)) at (rw small at h)) in
      let (e, d) = L.new_list_root text_list k n m m1 (wrapped-eq-ok "create list" _ h1) in
      let (c, d') = set_texts_lem k [] (v ∷ vs) (C.content m root) m1 m' e h2 in (c, d' ∙ d)

  set_words_lem :
      (k : ℕ) (front vs : List ℕ) (f : ℕ → Content) (m : C.Message)
      → C.content m root ≡ update k (words (front ++ replicate (length vs) 0)) f
      → (C.content (set_words C k (length front) vs m) root ≡ update k (words (front ++ vs)) f)
        × (C.scalar (set_words C k (length front) vs m) root ≡ C.scalar m root)
  unfolding set_words
  set_words_lem k front [] f m e = (e, refl)
  set_words_lem k front (v ∷ vs) f m e =
      let m1 = C.set_word_elem k (length front) v m in
      let w =
        L.set_word_elem_lem k (length front) v (front ++ replicate (length (v ∷ vs)) 0) m
          (rw e (update_self k _ f))
          (omega (arith, length-append front (replicate (length (v ∷ vs)) 0))) in
      let e1 : C.content m1 root
          ≡ update k (words ((front ++ v ∷ []) ++ replicate (length vs) 0)) f =
        w.content_eq root ∙ rw (e, update_twice, set_middle front 0 v (replicate (length vs) 0)) in
      let i : length front + 1 ≡ length (front ++ v ∷ []) =
        omega (arith, length-append front (v ∷ [])) in
      let (c, d) = set_words_lem k (front ++ v ∷ []) vs f m1 e1 in
      rw i (c ∙ rw (append_assoc front (v ∷ []) vs), d ∙ w.scalar_eq root)

  -- A conversion of descriptors writes their slots, and an empty list is left out.
  pub remote_fd_slice_lem :
      (k : ℕ) (vs : List ℕ) (m m' : C.Message)
      → FitsInt32 vs
      → remote_fd_slice_to_uint64_list C k vs m ≡ ok m'
      → (C.content m' root ≡ word_slot k vs (C.content m root))
        × (C.scalar m' root ≡ C.scalar m root)
  unfolding remote_fd_slice_to_uint64_list
  remote_fd_slice_lem k [] m m' fit h = ground arith
  remote_fd_slice_lem k (v ∷ vs) m m' fit h =
      let n : ℕ = length (v ∷ vs) in
      let small : int32 n ≡ n = omega arith in
      let (m1, h1, h2) =
        >>=-eq-ok (C.new_list word_list k n m) _
          (rw (suc-ne-zero (length vs)) at (rw small at h)) in
      let (e, d) = L.new_list_root word_list k n m m1 h1 in
      let (c, d') = set_words_lem k [] (v ∷ vs) (C.content m root) m1 e in ground arith

module _ (C : Capnp) where
  -- The entries of a list of structs from index `i` on, as a reader finds them.
  abbrev pub ReadsEntries : ℕ → ℕ → List (String × String) → C.Message → Type 0
  ReadsEntries k i [] m = Unit
  ReadsEntries k i ((key, value) ∷ es) m =
      (C.content m (at k i) 0 ≡ stored_text key)
      × (C.content m (at k i) 1 ≡ stored_text value)
      × ReadsEntries k (i + 1) es m

module _ (C : Capnp) (L : IsLawful C) where
  set_entries_lem :
      (k i : ℕ) (es : List (String × String)) (m m' : C.Message)
      → set_entries C k i es m ≡ ok m'
      → ReadsEntries C k i es m'
        × ((j : ℕ) → j < i → C.content m' (at k j) ≡ C.content m (at k j))
        × (C.content m' root ≡ C.content m root)
        × (C.scalar m' root ≡ C.scalar m root)
  unfolding set_entries
  set_entries_lem k i [] m m' h = ground arith
  set_entries_lem k i ((key, value) ∷ es) m m' h =
      let (m1, h1, h1') = >>=-eq-ok (wrapped "set map key" (C.set_text (at k i) 0 key m)) _ h in
      let (m2, h2, h2') =
        >>=-eq-ok (wrapped "set map value" (C.set_text (at k i) 1 value m1)) _ h1' in
      let w1 = L.set_text_lem (at k i) 0 key m m1 (wrapped-eq-ok "set map key" _ h1) in
      let w2 = L.set_text_lem (at k i) 1 value m1 m2 (wrapped-eq-ok "set map value" _ h2) in
      let (entries, below, top, data') = set_entries_lem k (i + 1) es m2 m' h2' in
      let e : C.content m' (at k i)
          ≡ update 1 (stored_text value) (update 0 (stored_text key) (C.content m (at k i))) =
        below i (omega arith)
        ∙ content_self C w2
        ∙ ap (update 1 (stored_text value)) (content_self C w1) in
      let (first, second) =
        two_slots (stored_text key) (stored_text value) (C.content m (at k i)) in
      (
        (rw e first, rw e second, entries),
        λ j lt.
            below j (omega arith)
            ∙ content-other C w2 (at k j) (ground arith)
            ∙ content-other C w1 (at k j) (ground arith),
        top ∙ content-other C w2 root refl ∙ content-other C w1 root refl,
        data' ∙ w2.scalar_eq root ∙ w1.scalar_eq root,
      )

  -- A conversion of a map writes a key and a value for each entry, in the order of the iteration,
  -- and an empty map is left out.
  pub map_lem :
      (k : ℕ) (es : List (String × String)) (m m' : C.Message)
      → FitsInt32 es
      → string_string_map_to_map_entry_list C k es m ≡ ok m'
      → ReadsEntries C k 0 es m'
        × (C.content m' root ≡ struct_slot k es (C.content m root))
        × (C.scalar m' root ≡ C.scalar m root)
  unfolding string_string_map_to_map_entry_list
  map_lem k [] m m' fit h = ground arith
  map_lem k (e ∷ es) m m' fit h =
      let n : ℕ = length (e ∷ es) in
      let small : int32 n ≡ n = omega arith in
      let (m1, h1, h2) =
        >>=-eq-ok (wrapped "create map" (C.new_list struct_list k n m)) _
          (rw (suc-ne-zero (length es)) at (rw small at h)) in
      let (c, d) = L.new_list_root struct_list k n m m1 (wrapped-eq-ok "create map" _ h1) in
      let (entries, below, top, same) = set_entries_lem k 0 (e ∷ es) m1 m' h2 in
      (entries, top ∙ c, same ∙ d)
