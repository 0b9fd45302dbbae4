-- ===== src/Attach/Session/Cleanup.antt =====
-- What a session leaves behind in the map of readers (pkg/client/attach.go).
use conmon_rs.Base.{
  String, eq_iff, ◌≡◌, ◌≢◌, refl, Bool, true, false, ◌&&◌, Option, none, some, [], ◌∷◌, arith,
  if◌then◌else◌, Option-cases, inl, inr,
}
use conmon_rs.Base.Results.{Error}
use conmon_rs.Client.{AttachReader}
use conmon_rs.Attach.Config.{AttachConfig}
use conmon_rs.Attach.Readers.{Readers, store, load, delete, try_close_attach_reader_for_id}
use conmon_rs.Attach.Session.{
  Message, from_output, from_stdin, Surroundings, read_stdio, setup_stdio_channels, attach_streams,
  pre_attach, attach, wrap_error,
}

load-store_self : (id : String) (v : AttachReader) (m : Readers) → load id (store id v m) ≡ some v
unfolding load store
load-store_self id v [] = ground (arith, eq_iff id id)
load-store_self id v ((k, w) ∷ m) = ground (arith, eq_iff id id, load-store_self id v m)

load-store_ne :
    (j id : String) (v : AttachReader) (m : Readers) → j ≢ id → load j (store id v m) ≡ load j m
unfolding load store
load-store_ne j id v [] h = ground (arith, eq_iff id j)
load-store_ne j id v ((k, w) ∷ m) h =
    ground (arith, eq_iff id j, eq_iff k id, eq_iff k j, load-store_ne j id v m h)

load-delete_ne : (j id : String) (m : Readers) → j ≢ id → load j (delete id m) ≡ load j m
unfolding load delete
load-delete_ne j id [] h = refl
load-delete_ne j id ((k, w) ∷ m) h =
    ground (arith, eq_iff k id, eq_iff k j, load-delete_ne j id m h)

delete-store_fresh :
    (id : String) (v : AttachReader) (m : Readers) → load id m ≡ none → delete id (store id v m) ≡ m
unfolding load store delete
delete-store_fresh id v [] h = ground (arith, eq_iff id id)
delete-store_fresh id v ((k, w) ∷ m) h = ground (arith, eq_iff k id, delete-store_fresh id v m)

delete_fresh : (id : String) (m : Readers) → load id m ≡ none → delete id m ≡ m
unfolding load delete
delete_fresh id [] h = refl
delete_fresh id ((k, w) ∷ m) h = ground (arith, delete_fresh id m)

abbrev pub is_nil : Option Error → Bool
is_nil none = true
is_nil (some e) = false

abbrev pub stops : AttachConfig → Message → Bool
stops cfg (from_output error) = false
stops cfg (from_stdin error) = cfg.stop_after_stdin_eof

-- The reader stays in the map of a session that got so far: the closure after it failed, or the
-- input ended first and the caller asked to stop there.
abbrev pub keeps_reader : AttachConfig → Surroundings → Bool
keeps_reader cfg env =
    if cfg.passthrough
    then false
    else if is_nil env.dial && is_nil env.pre_attach
    then (if is_nil env.post_attach then stops cfg env.message else true)
    else false

setup_lem :
    (cfg : AttachConfig) (id : String) (m : Readers)
    → load id m ≡ none
    → delete id (setup_stdio_channels cfg id m) ≡ m
unfolding setup_stdio_channels
setup_lem cfg id m h = elim (Option-cases cfg.streams.stdin) [
  | inl e ↦ rw e (delete_fresh id m h)
  | inr (stdin, e) ↦
      rw e (delete-store_fresh id (record { stdin = stdin; socket_path = cfg.socket_path }) m h)
]

readers-read_stdio :
    (cfg : AttachConfig) (id : String) (close_write later : Option Error) (message : Message)
    (m : Readers)
    → (read_stdio cfg id close_write later message m).readers
      ≡ (if stops cfg message then m else delete id m)
unfolding read_stdio try_close_attach_reader_for_id
readers-read_stdio cfg id close_write later (from_output error) m = refl
readers-read_stdio cfg id close_write later (from_stdin error) m = ground arith

-- With a new id, a session leaves the map as it was, whether it failed or not; but for two cases
-- in which its own reader stays in: `PostAttachFunc` failed, or the input ended first under
-- `StopAfterStdinEOF`.
pub readers-attach :
    (cfg : AttachConfig) (env : Surroundings) (m : Readers)
    → load env.id m ≡ none
    → (attach cfg env m).readers
      ≡ (if keeps_reader cfg env then setup_stdio_channels cfg env.id m else m)
unfolding attach pre_attach attach_streams
readers-attach cfg env m h = ground (
  arith,
  setup_lem cfg env.id m h,
  readers-read_stdio cfg env.id env.close_write env.later env.message
      (setup_stdio_channels cfg env.id m),
)

-- A session with a new id never touches the reader of another.
pub load-attach_ne :
    (cfg : AttachConfig) (env : Surroundings) (m : Readers) (j : String)
    → load env.id m ≡ none
    → j ≢ env.id
    → load j (attach cfg env m).readers ≡ load j m
unfolding setup_stdio_channels
load-attach_ne cfg env m j h ne = elim (Option-cases cfg.streams.stdin) [
  | inl e ↦ ground (arith, readers-attach cfg env m h)
  | inr (stdin, e) ↦ ground (
    arith,
    readers-attach cfg env m h,
    load-store_ne j env.id (record { stdin = stdin; socket_path = cfg.socket_path }) m ne,
  )
]

-- With `Passthrough` nothing but `PreAttachFunc` decides the result, and no reader is registered
-- or closed.
pub attach_passthrough :
    (cfg : AttachConfig) (env : Surroundings) (m : Readers)
    → cfg.passthrough ≡ true
    → attach cfg env m ≡ record {
      result = wrap_error "run pre attach func" env.pre_attach;
      readers = m;
      effects = [];
    }
unfolding attach pre_attach
attach_passthrough cfg env m h = ground arith
