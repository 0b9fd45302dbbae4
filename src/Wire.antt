-- ===== src/Wire.antt =====
-- Cap'n Proto messages as the client uses them. The library is a third-party module, so its
-- operations are the parameter `Capnp`; the accessors of internal/proto/conmon.capnp.go are calls
-- of them at fixed slots and offsets.
pub mod Lists
pub mod Frame
pub mod Elements
pub mod Bounds
use conmon_rs.Base.{
  ℕ, ◌+◌, ◌≤◌, ◌<◌, ◌^◌, ◌≡◌, ◌⊎◌, ◌≢◌, String, str_eq, eq_iff, arith, Bool, true, false, ◌&&◌,
  ◌==◌, List, [], set, replicate, length, if◌then◌else◌,
}
use conmon_rs.Base.Results.{Result, ok, err}

-- A struct of a message: the request or response itself, or an element of a list of structs that
-- hangs at a slot of it.
pub data Place : Type 0 where
  root : Place
  at : ℕ → ℕ → Place

pub data Kind : Type 0 where
  text_list word_list struct_list : Kind

-- What a pointer slot holds.
pub data Content : Type 0 where
  absent : Content
  text : String → Content
  bytes : List ℕ → Content
  texts : List String → Content
  words : List ℕ → Content
  structs : ℕ → Content

-- The operations, in the order: `SetText`, `SetData`, a `New…` accessor of a list, `SetPtr` of the
-- list that a slot already holds, `TextList.Set`, `UInt64List.Set` or `EnumList.Set`, and the
-- scalar setters (`SetBit`, `SetUint16`, `SetUint64`) by bit offset and width. `content` is what a
-- message holds at a slot, and `scalar` the number at an offset. `read_text`, `read_data` and
-- `read_list` are `Ptr` with the conversion of the pointer, which can fail.
pub record Capnp : Type 1 where
  pub Message : Type 0
  pub set_text : Place → ℕ → String → Message → Result Message
  pub set_data : Place → ℕ → List ℕ → Message → Result Message
  pub new_list : Kind → ℕ → ℕ → Message → Result Message
  pub set_list : ℕ → Message → Result Message
  pub set_text_elem : ℕ → ℕ → String → Message → Result Message
  pub set_word_elem : ℕ → ℕ → ℕ → Message → Message
  pub set_scalar : Place → ℕ → ℕ → ℕ → Message → Message
  pub content : Message → Place → ℕ → Content
  pub scalar : Message → Place → ℕ → ℕ → ℕ
  pub read_text : Message → Place → ℕ → Result String
  pub read_data : Message → Place → ℕ → Result (List ℕ)
  pub read_list : Message → Place → ℕ → Result Content

abbrev pub same_place : Place → Place → Bool
same_place root root = true
same_place (at k i) (at l j) = k == l && i == j
same_place _ _ = false

unfoldable pub update : ℕ → Content → (ℕ → Content) → ℕ → Content
update k c f j = if k == j then c else f j

abbrev pub empty_list : Kind → ℕ → Content
empty_list text_list n = texts (replicate n "")
empty_list word_list n = words (replicate n 0)
empty_list struct_list n = structs n

-- The elements of the list at slot `k`.
abbrev pub is_elem : ℕ → Place → Bool
is_elem k root = false
is_elem k (at l j) = k == l

-- An empty text counts as a null pointer, which `SetText` writes for it and which is read the same.
unfoldable pub stored_text : String → Content
stored_text v = if str_eq v "" then absent else text v

module _ (C : Capnp) where
  -- One pointer slot of one struct has been written, and nothing else.
  pub record Writes (m m' : C.Message) (p : Place) (k : ℕ) (c : Content) : Type 0 where
    pub content_eq :
        (q : Place)
        → C.content m' q ≡ (if same_place p q then update k c (C.content m q) else C.content m q)
    pub scalar_eq : (q : Place) → C.scalar m' q ≡ C.scalar m q

  -- The documented behaviour of the library: a write that succeeds is read back, and leaves alone
  -- what it does not overlap. A new list holds zero values.
  pub record IsLawful : Type 0 where
    pub set_text_lem :
        (p : Place) (k : ℕ) (v : String) (m m' : C.Message)
        → C.set_text p k v m ≡ ok m'
        → Writes m m' p k (stored_text v)
    pub set_data_lem :
        (p : Place) (k : ℕ) (v : List ℕ) (m m' : C.Message)
        → C.set_data p k v m ≡ ok m'
        → Writes m m' p k (bytes v)
    pub new_list_root :
        (kind : Kind) (k n : ℕ) (m m' : C.Message)
        → C.new_list kind k n m ≡ ok m'
        → (C.content m' root ≡ update k (empty_list kind n) (C.content m root))
          × (C.scalar m' root ≡ C.scalar m root)
    pub new_list_at :
        (kind : Kind) (k n l j : ℕ) (m m' : C.Message)
        → C.new_list kind k n m ≡ ok m'
        → k ≢ l
        → (C.content m' (at l j) ≡ C.content m (at l j))
          × (C.scalar m' (at l j) ≡ C.scalar m (at l j))
    pub set_list_lem :
        (k : ℕ) (m m' : C.Message)
        → C.set_list k m ≡ ok m'
        → (C.content m' ≡ C.content m) × (C.scalar m' ≡ C.scalar m)
    pub set_text_elem_lem :
        (k i : ℕ) (v : String) (l : List String) (m m' : C.Message)
        → C.content m root k ≡ texts l
        → i < length l
        → C.set_text_elem k i v m ≡ ok m'
        → Writes m m' root k (texts (set l i v))
    pub set_word_elem_lem :
        (k i v : ℕ) (l : List ℕ) (m : C.Message)
        → C.content m root k ≡ words l
        → i < length l
        → Writes m (C.set_word_elem k i v m) root k (words (set l i v))
    pub content-set_scalar :
        (p : Place) (o w v : ℕ) (m : C.Message) → C.content (C.set_scalar p o w v m) ≡ C.content m
    pub scalar-set_scalar :
        (p : Place) (o w v : ℕ) (m : C.Message)
        → v < 2 ^ w
        → C.scalar (C.set_scalar p o w v m) p o w ≡ v
    pub scalar-set_scalar_ne :
        (p q : Place) (o w o' w' v : ℕ) (m : C.Message)
        → (same_place p q ≡ false) ⊎ ((o + w ≤ o') ⊎ (o' + w' ≤ o))
        → C.scalar (C.set_scalar p o w v m) q o' w' ≡ C.scalar m q o' w'

-- What a pointer slot is read as; a null pointer, and one of another kind, is the zero value.
abbrev pub text_of : Content → String
text_of (text v) = v
text_of c = ""

pub text_of-stored_text : (v : String) → text_of (stored_text v) ≡ v
unfolding stored_text
text_of-stored_text v = ground (arith, eq_iff v "")

abbrev pub bytes_of : Content → List ℕ
bytes_of (bytes v) = v
bytes_of c = []

-- `Len` of a list.
abbrev pub length_of : Content → ℕ
length_of (texts l) = length l
length_of (words l) = length l
length_of (structs n) = n
length_of c = 0

-- A flag as a number of one bit.
abbrev pub bit : Bool → ℕ
bit true = 1
bit false = 0

-- A message that is read without an error: it is well formed and within the limits of the library.
pub record IsReadable (C : Capnp) (m : C.Message) : Type 0 where
  pub text_eq : (p : Place) (k : ℕ) → C.read_text m p k ≡ ok (text_of (C.content m p k))
  pub data_eq : (p : Place) (k : ℕ) → C.read_data m p k ≡ ok (bytes_of (C.content m p k))
  pub list_eq : (p : Place) (k : ℕ) → C.read_list m p k ≡ ok (C.content m p k)
