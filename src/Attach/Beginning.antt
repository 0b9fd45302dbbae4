-- ===== src/Attach/Beginning.antt =====
-- A session that begins while others end (pkg/client/attach.go: `AttachContainer`, `attach`,
-- `setupStdioChannels`). The server, which runs throughout, makes the socket and listens on it if
-- nothing is at its path when it is asked (conmon-rs/server/src/attach.rs: `create`); the client
-- then dials it and stores the reader.
pub mod Apart
pub mod Race
use conmon_rs.Base.{ℕ, ◌==◌, ◌≡◌, ◌≢◌, String, if◌then◌else◌}
use conmon_rs.Client.{AttachReader}
use conmon_rs.Attach.Readers.{store}
use conmon_rs.Attach.Readers.Sockets.{removals}
use conmon_rs.Attach.Closing.{Closings}
use conmon_rs.Attach.Closing as Closing

-- How far the new session is: before the call of the server, before it dials the socket, before
-- its reader is in the map, and with it; or the dial has failed since nobody listens, or the call
-- or the dial has failed for another reason.
pub data Opener : Type 0 where
  asking asked connected stored failed broken : Opener

-- What is at a path: nothing, a socket on which nobody listens, as one of an earlier server, or
-- one on which the server listens.
pub data Socket : Type 0 where
  missing stale listening : Socket

-- `create`: what exists is taken for a socket on which the server listens.
abbrev pub create : Socket → Socket
create missing = listening
create stale = stale
create listening = listening

-- `socket` is what is at the path of the new session.
pub record Sessions : Type 0 where
  pub closings : Closings
  pub opener : Opener
  pub socket : Socket

-- What becomes of the socket at `path` in a step of the ending sessions: a `RemoveAll` of the path
-- takes it away.
abbrev pub remains : String → Closings → Closings → Socket → Socket
remains path before after there =
    if removals path after.effects == removals path before.effects then there else missing

module _ (path id : String) (v : AttachReader) where
  pub data Step (s t : Sessions) : Type 0 where
    ends :
        (c : Closings)
        → Closing.Step s.closings c
        → t ≡ record s { closings = c; socket = remains path s.closings c s.socket }
        → Step s t
    asks : s.opener ≡ asking → t ≡ record s { opener = asked; socket = create s.socket } → Step s t
    ask_fails : s.opener ≡ asking → t ≡ record s { opener = broken } → Step s t
    dials : s.opener ≡ asked → s.socket ≡ listening → t ≡ record s { opener = connected } → Step s t
    dial_fails :
        s.opener ≡ asked → s.socket ≢ listening → t ≡ record s { opener = failed } → Step s t
    dial_breaks : s.opener ≡ asked → t ≡ record s { opener = broken } → Step s t
    stores :
        s.opener ≡ connected
        → t ≡ record s {
          closings = record (s.closings) { readers = store id v s.closings.readers };
          opener = stored;
        }
        → Step s t

  pub data Runs (s : Sessions) : Sessions → Type 0 where
    here : Runs s s
    next : {t u : Sessions} → Runs s t → Step t u → Runs s u
