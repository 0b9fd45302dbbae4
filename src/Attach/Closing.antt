-- ===== src/Attach/Closing.antt =====
-- Sessions that end at the same time (pkg/client/attach.go: `tryCloseAttachReaderForID`,
-- `closeAttachReader`). The operations of `sync.Map` on one key are single steps; a `Range` has a
-- start and an end, between which the others go on. A session that begins is in Attach/Beginning.
pub mod Removal
pub mod Unused
use conmon_rs.Base.{
  ℕ, ltb, ◌==◌, ◌≡◌, String, Bool, true, false, not, ◌&&◌, ◌||◌, none, some, List, [], ◌∷◌, ◌++◌,
  if◌then◌else◌,
}
use conmon_rs.Client.{AttachReader}
use conmon_rs.Attach.Readers.{
  Effect, close_stdin, remove_all, Readers, load, delete, socket_path_in_use,
}

-- How far the goroutine of an ending session is: before `LoadAndDelete`, with the value that it
-- took out, behind the close of the input, in the `Range` with the map at its start, and before
-- `RemoveAll`.
pub data Closer : Type 0 where
  waiting : String → Closer
  loaded closed removing : AttachReader → Closer
  ranging : AttachReader → Readers → Closer
  over : Closer

pub record Closings : Type 0 where
  pub readers : Readers
  pub closers : ℕ → Closer
  pub effects : List Effect

abbrev pub set : ℕ → Closer → (ℕ → Closer) → ℕ → Closer
set i c f j = if j == i then c else f j

-- What a `Range` can find: entries that are there all the time are visited, and others may be.
abbrev pub can_find : String → Readers → Readers → Bool → Bool
can_find path at_start at_end found =
    (not (socket_path_in_use path at_end) || found)
    && (not found || socket_path_in_use path at_start)

pub data Step (s t : Closings) : Type 0 where
  loads :
      (i : ℕ) (id : String) (v : AttachReader)
      → s.closers i ≡ waiting id
      → load id s.readers ≡ some v
      → t ≡ record s { readers = delete id s.readers; closers = set i (loaded v) s.closers }
      → Step s t
  loads_none :
      (i : ℕ) (id : String)
      → s.closers i ≡ waiting id
      → load id s.readers ≡ none
      → t ≡ record s { closers = set i over s.closers }
      → Step s t
  closes_input :
      (i : ℕ) (v : AttachReader)
      → s.closers i ≡ loaded v
      → t ≡ record s {
        closers = set i (closed v) s.closers;
        effects = s.effects ++ close_stdin v.stdin ∷ [];
      }
      → Step s t
  range_starts :
      (i : ℕ) (v : AttachReader)
      → s.closers i ≡ closed v
      → t ≡ record s { closers = set i (ranging v s.readers) s.closers }
      → Step s t
  range_ends :
      (i : ℕ) (v : AttachReader) (m : Readers) (found : Bool)
      → s.closers i ≡ ranging v m
      → can_find v.socket_path m s.readers found ≡ true
      → t ≡ record s { closers = set i (if found then over else removing v) s.closers }
      → Step s t
  removes :
      (i : ℕ) (v : AttachReader)
      → s.closers i ≡ removing v
      → t ≡ record s {
        closers = set i over s.closers;
        effects = s.effects ++ remove_all v.socket_path ∷ [];
      }
      → Step s t

pub data Reach (s : Closings) : Closings → Type 0 where
  here : Reach s s
  next : {t u : Closings} → Reach s t → Step t u → Reach s u

-- There are n goroutines, and the goroutine i ends the session `ids i`.
abbrev pub start : ℕ → (ℕ → String) → Readers → Closings
start n ids m = record {
  readers = m;
  closers = λ i. if ltb i n then waiting (ids i) else over;
  effects = [];
}
