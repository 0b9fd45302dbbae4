-- ===== src/Attach/Readers/Order.antt =====
-- The order in which a `sync.Map` holds its entries does not matter (pkg/client/attach.go).
use conmon_rs.Base.{
  ◌≡◌, refl, sym, ap, ◌∙◌, String, str_eq, eq_iff, false, Option, none, some, List, [], ◌∷◌, ◌++◌,
  arith, Bool-cases, inl, inr,
}
use mathlib.Core.List.{Permᴰ}
use mathlib.Core.List.Permᴰ as Perms
use mathlib.Core.Path.{subst}
use conmon_rs.Client.{AttachReader}
use conmon_rs.Attach.Readers.Sockets.{close_sessions}
use conmon_rs.Attach.Readers.{
  Readers, load, delete, socket_path_in_use, close_found, close_attach_reader,
  try_close_attach_reader_for_id,
}

-- No key has two entries.
abbrev pub Distinct : Readers → Type 0
Distinct [] = Unit
Distinct ((k, w) ∷ m) = (load k m ≡ none) × Distinct m

in_use-Perm :
    (path : String) (m m' : Readers)
    → Permᴰ m m'
    → socket_path_in_use path m ≡ socket_path_in_use path m'
unfolding socket_path_in_use
in_use-Perm path m m' Permᴰ.nil = refl
in_use-Perm path m m' (Permᴰ.cons {l₁ = l} {l₂ = l'} e p) =
    let rest = in_use-Perm path l l' p in rw (e, rest) refl
in_use-Perm path m m' (Permᴰ.swap e f) = rw (e, f) (ground arith)
in_use-Perm path m m' (Permᴰ.trans {l₂ = l} p q) = in_use-Perm path m l p ∙ in_use-Perm path l m' q

load-swap :
    (id j k : String) (v w : AttachReader) (m : Readers)
    → load j ((k, w) ∷ m) ≡ none
    → load id ((j, v) ∷ (k, w) ∷ m) ≡ load id ((k, w) ∷ (j, v) ∷ m)
unfolding load
load-swap id j k v w m h = ground (arith, eq_iff j id, eq_iff k id, eq_iff k j)

Distinct-swap :
    (j k : String) (v w : AttachReader) (m : Readers)
    → Distinct ((j, v) ∷ (k, w) ∷ m)
    → Distinct ((k, w) ∷ (j, v) ∷ m)
unfolding load
Distinct-swap j k v w m (h, (g, d)) =
    (ground (arith, eq_iff j k, eq_iff k j), (ground (arith, eq_iff j k, eq_iff k j), d))

delete-swap :
    (id j k : String) (v w : AttachReader) (m : Readers)
    → load j ((k, w) ∷ m) ≡ none
    → Permᴰ (delete id ((j, v) ∷ (k, w) ∷ m)) (delete id ((k, w) ∷ (j, v) ∷ m))
unfolding load delete
delete-swap id j k v w m h = elim (Bool-cases (str_eq j id)) [
  | inl first ↦
      let apart : str_eq k id ≡ false = ground (arith, eq_iff j id, eq_iff k id, eq_iff k j) in
      rw (first, apart) (Perms.refl ((k, w) ∷ m))
  | inr other ↦ elim (Bool-cases (str_eq k id)) [
    | inl second ↦ rw (other, second) (Perms.refl ((j, v) ∷ m))
    | inr neither ↦ rw (other, neither) (Permᴰ.swap refl refl)
  ]
]

lookup-Perm :
    (m m' : Readers)
    → Permᴰ m m'
    → Distinct m
    → ((id : String) → load id m ≡ load id m') × Distinct m'
unfolding load
lookup-Perm m m' Permᴰ.nil d = (λ id. refl, tt)
lookup-Perm m m' (Permᴰ.cons {a = (k, v)} {b = b} {l₁ = l} {l₂ = l'} e p) (h, d) =
    let (same, d') = lookup-Perm l l' p d in
    subst (λ x. ((id : String) → load id ((k, v) ∷ l) ≡ load id (x ∷ l')) × Distinct (x ∷ l')) e
      (λ id. rw (same id) refl, (sym (same k) ∙ h, d'))
lookup-Perm m m' (Permᴰ.swap {a = (j, v)} {b = (k, w)} {a' = a'} {b' = b'} {l = l} e f) d =
    subst (λ x. ((id : String) → load id m ≡ load id (a' ∷ x ∷ l)) × Distinct (a' ∷ x ∷ l)) e
      (subst
        (λ y. ((id : String) → load id m ≡ load id (y ∷ (j, v) ∷ l)) × Distinct (y ∷ (j, v) ∷ l)) f
        (λ id. load-swap id j k v w l d.0, Distinct-swap j k v w l d))
lookup-Perm m m' (Permᴰ.trans {l₂ = l} p q) d =
    let (same, d') = lookup-Perm m l p d in
    let (same', d'') = lookup-Perm l m' q d' in (λ id. same id ∙ same' id, d'')

delete-Perm :
    (id : String) (m m' : Readers) → Permᴰ m m' → Distinct m → Permᴰ (delete id m) (delete id m')
unfolding delete
delete-Perm id m m' Permᴰ.nil d = Permᴰ.nil
delete-Perm id m m' (Permᴰ.cons {a = (k, v)} {b = b} {l₁ = l} {l₂ = l'} e p) (h, d) =
    subst (λ x. Permᴰ (delete id ((k, v) ∷ l)) (delete id (x ∷ l'))) e
      (elim (Bool-cases (str_eq k id)) [
        | inl here ↦ rw here p
        | inr there ↦ rw there (Permᴰ.cons refl (delete-Perm id l l' p d))
      ])
delete-Perm id m m' (Permᴰ.swap {a = (j, v)} {b = (k, w)} {a' = a'} {b' = b'} {l = l} e f) d =
    subst (λ x. Permᴰ (delete id m) (delete id (a' ∷ x ∷ l))) e
      (subst (λ y. Permᴰ (delete id m) (delete id (y ∷ (j, v) ∷ l))) f
        (delete-swap id j k v w l d.0))
delete-Perm id m m' (Permᴰ.trans {l₂ = l} p q) d =
    Permᴰ.trans (delete-Perm id m l p d) (delete-Perm id l m' q (lookup-Perm m l p d).1)

close_attach_reader-Perm :
    (v : AttachReader) (m m' : Readers)
    → Permᴰ m m'
    → close_attach_reader v m ≡ close_attach_reader v m'
unfolding close_attach_reader
close_attach_reader-Perm v m m' p = rw (in_use-Perm v.socket_path m m' p) refl

try_close-Perm :
    (id : String) (m m' : Readers)
    → Permᴰ m m'
    → Distinct m
    → let (left, effects) = try_close_attach_reader_for_id id m in
      let (left', effects') = try_close_attach_reader_for_id id m' in
      (effects ≡ effects') × Permᴰ left left'
unfolding try_close_attach_reader_for_id
try_close-Perm id m m' p d =
    let rest = delete-Perm id m m' p d in
    let same = (lookup-Perm m m' p d).0 id in
    (ap (λ o. close_found o (delete id m)) same ∙ found (load id m') rest, rest)
  where
    found :
        (o : Option AttachReader) {l l' : Readers} → Permᴰ l l' → close_found o l ≡ close_found o l'
    found none q = refl
    found (some v) {l} {l'} q = close_attach_reader-Perm v l l' q

load-delete-none : (j id : String) (m : Readers) → load j m ≡ none → load j (delete id m) ≡ none
unfolding load delete
load-delete-none j id [] h = refl
load-delete-none j id ((k, v) ∷ m) h = ground (arith, load-delete-none j id m)

delete-Distinct : (id : String) (m : Readers) → Distinct m → Distinct (delete id m)
unfolding delete
delete-Distinct id [] d = tt
delete-Distinct id ((k, v) ∷ m) (h, d) = elim (Bool-cases (str_eq k id)) [
  | inl here ↦ rw here d
  | inr there ↦ rw there (load-delete-none k id m h, delete-Distinct id m d)
]

-- Over maps with one entry for each key: the order of the entries decides neither what the ends of
-- any sequence of sessions do to their inputs and sockets, nor which entries they leave.
pub close_sessions-Perm :
    (ids : List String) (m m' : Readers)
    → Permᴰ m m'
    → Distinct m
    → let (left, effects) = close_sessions ids m in
      let (left', effects') = close_sessions ids m' in (effects ≡ effects') × Permᴰ left left'
unfolding close_sessions try_close_attach_reader_for_id
close_sessions-Perm [] m m' p d = (refl, p)
close_sessions-Perm (id ∷ ids) m m' p d =
    let (same, q) = try_close-Perm id m m' p d in
    let (more, r) =
      close_sessions-Perm ids (delete id m) (delete id m') q (delete-Distinct id m d) in
    (
      ap (λ es. es ++ (close_sessions ids (delete id m)).1) same
          ∙ ap (λ es. (try_close_attach_reader_for_id id m').1 ++ es) more,
      r,
    )
