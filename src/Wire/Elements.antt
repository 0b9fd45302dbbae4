-- ===== src/Wire/Elements.antt =====
-- The conversions at one slot leave the elements of the list at another alone
-- (pkg/client/capnp_util.go), over a lawful library.
use conmon_rs.Base.{
  ℕ, ◌+◌, ◌≡◌, refl, ◌≢◌, ◌∙◌, String, List, [], ◌∷◌, ◌++◌, length, replicate, length-append, arith,
}
use conmon_rs.Base.Results.{ok, wrapped}
use conmon_rs.Base.Chain.{>>=-eq-ok}
use conmon_rs.Wire.{
  Capnp, root, at, text_list, word_list, struct_list, Content, texts, words, update, IsLawful,
}
use conmon_rs.Wire.Lists.{
  int32, set_texts, string_slice_to_text_list, set_entries, string_string_map_to_map_entry_list,
  set_words, remote_fd_slice_to_uint64_list,
}
use conmon_rs.Wire.Frame.{
  content-other, wrapped-eq-ok, FitsInt32, update_twice, update_self, set_middle, suc-ne-zero,
  ReadsEntries,
}

-- The elements at slot `l` read the same.
abbrev pub Keeps : (C : Capnp) → ℕ → C.Message → C.Message → Type 0
Keeps C l m m' =
    (j : ℕ)
    → (C.content m' (at l j) ≡ C.content m (at l j)) × (C.scalar m' (at l j) ≡ C.scalar m (at l j))

module _ (C : Capnp) (L : IsLawful C) (l : ℕ) where
  pub Keeps-trans : (m1 m2 m3 : C.Message) → Keeps C l m2 m3 → Keeps C l m1 m2 → Keeps C l m1 m3
  Keeps-trans m1 m2 m3 h g j = ((h j).0 ∙ (g j).0, (h j).1 ∙ (g j).1)

  set_texts-Keeps :
      (k : ℕ) (front vs : List String) (f : ℕ → Content) (m m' : C.Message)
      → C.content m root ≡ update k (texts (front ++ replicate (length vs) "")) f
      → set_texts C k (length front) vs m ≡ ok m'
      → Keeps C l m m'
  unfolding set_texts
  set_texts-Keeps k front [] f m m' e h = λ j. ground arith
  set_texts-Keeps k front (v ∷ vs) f m m' e h =
      let (m1, h1, h2) =
        >>=-eq-ok (wrapped "set list element" (C.set_text_elem k (length front) v m)) _ h in
      let w =
        L.set_text_elem_lem k (length front) v (front ++ replicate (length (v ∷ vs)) "") m m1
          (rw e (update_self k _ f))
          (omega (arith, length-append front (replicate (length (v ∷ vs)) "")))
          (wrapped-eq-ok "set list element" _ h1) in
      let e1 : C.content m1 root
          ≡ update k (texts ((front ++ v ∷ []) ++ replicate (length vs) "")) f =
        w.content_eq root
        ∙ rw (e, update_twice, set_middle front "" v (replicate (length vs) "")) in
      Keeps-trans m m1 m'
        (set_texts-Keeps k (front ++ v ∷ []) vs f m1 m' e1 (rw (length-append front (v ∷ [])) h2))
        (λ j. (content-other C w (at l j) refl, w.scalar_eq (at l j)))

  pub string_slice-Keeps :
      (k : ℕ) (vs : List String) (m m' : C.Message)
      → FitsInt32 vs
      → k ≢ l
      → string_slice_to_text_list C k vs m ≡ ok m'
      → Keeps C l m m'
  unfolding string_slice_to_text_list
  string_slice-Keeps k [] m m' fit ne h = λ j. ground arith
  string_slice-Keeps k (v ∷ vs) m m' fit ne h =
      let n : ℕ = length (v ∷ vs) in
      let small : int32 n ≡ n = omega arith in
      let (m1, h1, h2) =
        >>=-eq-ok (wrapped "create list" (C.new_list text_list k n m)) _
          (rw (suc-ne-zero (length vs)) at (rw small at h)) in
      let made = wrapped-eq-ok "create list" _ h1 in
      let (e, d) = L.new_list_root text_list k n m m1 made in
      Keeps-trans m m1 m' (set_texts-Keeps k [] (v ∷ vs) (C.content m root) m1 m' e h2)
        (λ j. L.new_list_at text_list k n l j m m1 made ne)

  set_words-Keeps :
      (k : ℕ) (front vs : List ℕ) (f : ℕ → Content) (m : C.Message)
      → C.content m root ≡ update k (words (front ++ replicate (length vs) 0)) f
      → Keeps C l m (set_words C k (length front) vs m)
  unfolding set_words
  set_words-Keeps k front [] f m e = λ j. (refl, refl)
  set_words-Keeps k front (v ∷ vs) f m e =
      let m1 = C.set_word_elem k (length front) v m in
      let w =
        L.set_word_elem_lem k (length front) v (front ++ replicate (length (v ∷ vs)) 0) m
          (rw e (update_self k _ f))
          (omega (arith, length-append front (replicate (length (v ∷ vs)) 0))) in
      let e1 : C.content m1 root
          ≡ update k (words ((front ++ v ∷ []) ++ replicate (length vs) 0)) f =
        w.content_eq root ∙ rw (e, update_twice, set_middle front 0 v (replicate (length vs) 0)) in
      let i : length front + 1 ≡ length (front ++ v ∷ []) =
        omega (arith, length-append front (v ∷ [])) in
      Keeps-trans m m1 _ (rw i (set_words-Keeps k (front ++ v ∷ []) vs f m1 e1))
        (λ j. (content-other C w (at l j) refl, w.scalar_eq (at l j)))

  pub remote_fd_slice-Keeps :
      (k : ℕ) (vs : List ℕ) (m m' : C.Message)
      → FitsInt32 vs
      → k ≢ l
      → remote_fd_slice_to_uint64_list C k vs m ≡ ok m'
      → Keeps C l m m'
  unfolding remote_fd_slice_to_uint64_list
  remote_fd_slice-Keeps k [] m m' fit ne h j = ground arith
  remote_fd_slice-Keeps k (v ∷ vs) m m' fit ne h j =
      let n : ℕ = length (v ∷ vs) in
      let small : int32 n ≡ n = omega arith in
      let (m1, h1, h2) =
        >>=-eq-ok (C.new_list word_list k n m) _
          (rw (suc-ne-zero (length vs)) at (rw small at h)) in
      let (e, d) = L.new_list_root word_list k n m m1 h1 in
      let (c, s) = set_words-Keeps k [] (v ∷ vs) (C.content m root) m1 e j in
      let (c', s') = L.new_list_at word_list k n l j m m1 h1 ne in ground arith

  set_entries-Keeps :
      (k i : ℕ) (es : List (String × String)) (m m' : C.Message)
      → k ≢ l
      → set_entries C k i es m ≡ ok m'
      → Keeps C l m m'
  unfolding set_entries
  set_entries-Keeps k i [] m m' ne h = λ j. ground arith
  set_entries-Keeps k i ((key, value) ∷ es) m m' ne h =
      let (m1, h1, h1') = >>=-eq-ok (wrapped "set map key" (C.set_text (at k i) 0 key m)) _ h in
      let (m2, h2, h2') =
        >>=-eq-ok (wrapped "set map value" (C.set_text (at k i) 1 value m1)) _ h1' in
      let w1 = L.set_text_lem (at k i) 0 key m m1 (wrapped-eq-ok "set map key" _ h1) in
      let w2 = L.set_text_lem (at k i) 1 value m1 m2 (wrapped-eq-ok "set map value" _ h2) in
      Keeps-trans m m2 m' (set_entries-Keeps k (i + 1) es m2 m' ne h2') (λ j. (
        content-other C w2 (at l j) (ground arith) ∙ content-other C w1 (at l j) (ground arith),
        w2.scalar_eq (at l j) ∙ w1.scalar_eq (at l j),
      ))

  pub map-Keeps :
      (k : ℕ) (es : List (String × String)) (m m' : C.Message)
      → FitsInt32 es
      → k ≢ l
      → string_string_map_to_map_entry_list C k es m ≡ ok m'
      → Keeps C l m m'
  unfolding string_string_map_to_map_entry_list
  map-Keeps k [] m m' fit ne h = λ j. ground arith
  map-Keeps k (e ∷ es) m m' fit ne h =
      let n : ℕ = length (e ∷ es) in
      let small : int32 n ≡ n = omega arith in
      let (m1, h1, h2) =
        >>=-eq-ok (wrapped "create map" (C.new_list struct_list k n m)) _
          (rw (suc-ne-zero (length es)) at (rw small at h)) in
      Keeps-trans m m1 m' (set_entries-Keeps k 0 (e ∷ es) m1 m' ne h2)
        (λ j. L.new_list_at struct_list k n l j m m1 (wrapped-eq-ok "create map" _ h1) ne)

  pub ReadsEntries-Keeps :
      (i : ℕ) (es : List (String × String)) (m m' : C.Message)
      → Keeps C l m m'
      → ReadsEntries C l i es m
      → ReadsEntries C l i es m'
  ReadsEntries-Keeps i [] m m' same h = tt
  ReadsEntries-Keeps i ((key, value) ∷ es) m m' same (first, second, rest) =
      (rw (same i).0 first, rw (same i).0 second, ReadsEntries-Keeps (i + 1) es m m' same rest)
