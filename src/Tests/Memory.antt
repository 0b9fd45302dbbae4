-- ===== src/Tests/Memory.antt =====
-- A message library that keeps every slot in memory, to run the requests with.
use conmon_rs.Base.{
  ℕ, zero, suc, ◌+◌, ◌≤◌, ◌<◌, ◌^◌, ◌≡◌, refl, sym, ap, ◌∙◌, ◌≢◌, ◌⊎◌, String, true, false, ◌&&◌,
  ◌==◌, ==_iff, set, if◌then◌else◌, arith,
}
use conmon_rs.Base.Results.{ok}
use conmon_rs.Wire.{
  Place, root, at, Kind, Content, absent, stored_text, bytes, texts, words, Capnp, same_place,
  update, empty_list, Writes, IsLawful, text_of, bytes_of, IsReadable,
}

pub record Memory : Type 0 where
  pub contents : Place → ℕ → Content
  pub scalars : Place → ℕ → ℕ → ℕ

abbrev pub write : Place → ℕ → Content → Memory → Memory
write p k c m = record m {
  contents = λ q. if same_place p q then update k c (m.contents q) else m.contents q;
}

abbrev fresh_contents : Kind → ℕ → ℕ → (Place → ℕ → Content) → Place → ℕ → Content
fresh_contents kind k n f root = update k (empty_list kind n) (f root)
fresh_contents kind k n f (at l j) = if k == l then (λ i. absent) else f (at l j)

abbrev fresh_scalars : ℕ → (Place → ℕ → ℕ → ℕ) → Place → ℕ → ℕ → ℕ
fresh_scalars k f root = f root
fresh_scalars k f (at l j) = if k == l then (λ o w. 0) else f (at l j)

abbrev with_text : ℕ → String → Content → Content
with_text i v (texts l) = texts (set l i v)
with_text i v c = c

abbrev with_word : ℕ → ℕ → Content → Content
with_word i v (words l) = words (set l i v)
with_word i v c = c

abbrev read_scalar : (ℕ → ℕ → ℕ) → ℕ → ℕ → ℕ
read_scalar f o zero = 0
read_scalar f o (suc w) = f o (suc w)

abbrev scalar_written : Place → ℕ → ℕ → ℕ → Memory → Memory
scalar_written p o w v m = record m {
  scalars = λ q o' w'. if same_place p q && (o == o' && w == w') then v else m.scalars q o' w';
}

abbrev pub in_memory : Capnp
in_memory = record {
  Message = Memory;
  set_text = λ p k v m. ok (write p k (stored_text v) m);
  set_data = λ p k v m. ok (write p k (bytes v) m);
  new_list = λ kind k n m. ok (record {
    contents = fresh_contents kind k n m.contents;
    scalars = fresh_scalars k m.scalars;
  });
  set_list = λ k m. ok m;
  set_text_elem = λ k i v m. ok (write root k (with_text i v (m.contents root k)) m);
  set_word_elem = λ k i v m. write root k (with_word i v (m.contents root k)) m;
  set_scalar = scalar_written;
  content = λ m. m.contents;
  read_text = λ m p k. ok (text_of (m.contents p k));
  read_data = λ m p k. ok (bytes_of (m.contents p k));
  read_list = λ m p k. ok (m.contents p k);
  scalar = λ m p. read_scalar (m.scalars p);
}

ok-injective : {A : Type 0} {a b : A} → ok a ≡ ok b → a ≡ b
ok-injective h = cc

Writes-write :
    (p : Place) (k : ℕ) (c : Content) (m m' : Memory)
    → ok (write p k c m) ≡ ok m'
    → Writes in_memory m m' p k c
Writes-write p k c m m' h =
    rw (sym (ok-injective h)) (record { content_eq = λ q. refl; scalar_eq = λ q. refl })

same_place_self : (p : Place) → same_place p p ≡ true
same_place_self root = refl
same_place_self (at k i) = ground (arith, ==_iff k k, ==_iff i i)

read-written :
    (p : Place) (o w v : ℕ) (m : Memory)
    → v < 2 ^ w
    → read_scalar ((scalar_written p o w v m).scalars p) o w ≡ v
read-written p o zero v m small = omega arith
read-written p o (suc w) v m small = ground (arith, same_place_self p)

read-written_ne :
    (p q : Place) (o w o' w' v : ℕ) (m : Memory)
    → (same_place p q ≡ false) ⊎ ((o + w ≤ o') ⊎ (o' + w' ≤ o))
    → read_scalar ((scalar_written p o w v m).scalars q) o' w' ≡ read_scalar (m.scalars q) o' w'
read-written_ne p q o w o' zero v m apart = refl
read-written_ne p q o w o' (suc w') v m apart = ground arith

fresh_at :
    (kind : Kind) (k n l j : ℕ) (m m' : Memory)
    → in_memory.new_list kind k n m ≡ ok m'
    → k ≢ l
    → (in_memory.content m' (at l j) ≡ in_memory.content m (at l j))
      × (in_memory.scalar m' (at l j) ≡ in_memory.scalar m (at l j))
fresh_at kind k n l j m m' h ne =
    let other : (k == l) ≡ false = ground arith in
    rw (sym (ok-injective h)) (
      ap (λ b. if b then (λ i. absent) else m.contents (at l j)) other,
      ap (λ b. read_scalar (if b then (λ o w. 0) else m.scalars (at l j))) other,
    )

-- The library in memory keeps the documented behaviour.
pub in_memory-IsLawful : IsLawful in_memory
in_memory-IsLawful = record {
  set_text_lem = λ p k v m m' h. Writes-write p k (stored_text v) m m' h;
  set_data_lem = λ p k v m m' h. Writes-write p k (bytes v) m m' h;
  new_list_root = λ kind k n m m' h. rw (sym (ok-injective h)) (refl, refl);
  new_list_at = fresh_at;
  set_list_lem = λ k m m' h. rw (sym (ok-injective h)) (refl, refl);
  set_text_elem_lem = λ k i v l m m' e small h.
      Writes-write root k (texts (set l i v)) m m'
        (ap (λ c. ok (write root k (with_text i v c) m)) (sym e) ∙ h);
  set_word_elem_lem = λ k i v l m e small.
      Writes-write root k (words (set l i v)) m _
        (ap (λ c. ok (write root k (with_word i v c) m)) (sym e));
  content-set_scalar = λ p o w v m. refl;
  scalar-set_scalar = read-written;
  scalar-set_scalar_ne = read-written_ne;
}

abbrev pub new_message : Memory
new_message = record { contents = λ p k. absent; scalars = λ p o w. 0 }

pub memory-IsReadable : (m : Memory) → IsReadable in_memory m
memory-IsReadable m = record { text_eq = λ p k. refl; data_eq = λ p k. refl; list_eq = λ p k. refl }
