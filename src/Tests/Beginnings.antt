-- ===== src/Tests/Beginnings.antt =====
-- A session that begins while others end.
use conmon_rs.Base.{◌≡◌, ◌≢◌, refl, false, some, [], ◌∷◌}
use conmon_rs.Client.{AttachReader}
use conmon_rs.Attach.Readers.{Readers, load, delete, socket_path_in_use}
use conmon_rs.Attach.Closing.{Closings, start, loaded, loads, set}
use conmon_rs.Attach.Beginning.{
  asking, asked, failed, missing, stale, listening, Sessions, ends, asks, Runs, here, next,
}
use conmon_rs.Attach.Beginning.Apart.{Runs-ne-failed}
use conmon_rs.Attach.Beginning.Race.{Runs-failed}

abbrev old_reader : AttachReader
old_reader = record { stdin = 5; socket_path = "/attach" }

abbrev new_reader : AttachReader
new_reader = record { stdin = 6; socket_path = "/attach" }

abbrev one_reader : Readers
one_reader = ("old", old_reader) ∷ []

load_lem : load "old" one_reader ≡ some old_reader
unfolding load
load_lem = refl

unused_lem : socket_path_in_use "/attach" (delete "old" one_reader) ≡ false
unfolding delete socket_path_in_use
unused_lem = refl

Runs-failed_example :
    (t : Sessions) × Runs "/attach" "new" new_reader
      (record { closings = start 1 (λ i. "old") one_reader; opener = asking; socket = listening })
      t
    × (t.opener ≡ failed)
Runs-failed_example =
    Runs-failed "new" "old" one_reader new_reader old_reader load_lem refl unused_lem

-- The new session is at a socket of its own, and has asked for it once the old one is out.
abbrev taken_out : Closings
taken_out = record {
  readers = delete "old" one_reader;
  closers = set 0 (loaded old_reader) (start 1 (λ i. "old") one_reader).closers;
  effects = [];
}

abbrev apart : Sessions
apart = record { closings = taken_out; opener = asked; socket = listening }

apart-Runs :
    Runs "/other" "new" new_reader
      (record { closings = start 1 (λ i. "old") one_reader; opener = asking; socket = missing })
      apart
apart-Runs =
    next (next here (ends taken_out (loads 0 "old" old_reader refl load_lem refl) refl))
      (asks refl refl)

other_lem : socket_path_in_use "/other" one_reader ≡ false
unfolding socket_path_in_use
other_lem = refl

missing_lem : missing ≢ stale
missing_lem h = cc

Runs-ne-failed_example : asked ≢ failed
Runs-ne-failed_example =
    Runs-ne-failed "/other" "new" new_reader 1 (λ i. "old") one_reader missing apart missing_lem
      other_lem apart-Runs
