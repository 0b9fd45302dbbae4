-- ===== src/Tests/Closings.antt =====
-- Two sessions of one socket that end at the same time: both are out of the map before either of
-- them looks for other readers.
use conmon_rs.Base.{
  ℕ, ◌==◌, ◌≤◌, ◌≡◌, refl, String, true, false, [], ◌∷◌, ◌++◌, if◌then◌else◌, arith,
}
use conmon_rs.Client.{AttachReader}
use conmon_rs.Attach.Readers.{close_stdin, remove_all, load, delete, socket_path_in_use}
use conmon_rs.Attach.Readers.Sockets.{removals}
use conmon_rs.Attach.Closing.{
  loaded, closed, removing, ranging, over, Closings, set, loads, closes_input, range_starts,
  range_ends, removes, Reach, here, next, start,
}
use conmon_rs.Attach.Closing.Removal.{Reach-removals}
use conmon_rs.Attach.Closing.Unused.{Reach-removing}
use conmon_rs.Tests.Sessions.{two_readers}

abbrev ids : ℕ → String
ids i = if i == 0 then "a" else "b"

abbrev reader_a : AttachReader
reader_a = record { stdin = 5; socket_path = "/attach" }

abbrev reader_b : AttachReader
reader_b = record { stdin = 6; socket_path = "/attach" }

abbrev both_out : Closings
both_out = record {
  readers = delete "b" (delete "a" two_readers);
  closers = set 1 (loaded reader_b) (set 0 (loaded reader_a) (start 2 ids two_readers).closers);
  effects = [];
}

out_lem : Reach (start 2 ids two_readers) both_out
unfolding load delete
out_lem =
    next (next here (loads 0 "a" reader_a refl refl refl)) (loads 1 "b" reader_b refl refl refl)

-- What is left of the goroutine i up to its `RemoveAll`, and with it.
abbrev about_to_remove : ℕ → AttachReader → Closings → Closings
about_to_remove i v s = record {
  readers = s.readers;
  closers = set i (removing v) (set i (ranging v s.readers) (set i (closed v) s.closers));
  effects = s.effects ++ close_stdin v.stdin ∷ [];
}

abbrev finished : ℕ → AttachReader → Closings → Closings
finished i v s =
    let s' = about_to_remove i v s in
    record {
      readers = s'.readers;
      closers = set i over s'.closers;
      effects = s'.effects ++ remove_all v.socket_path ∷ [];
    }

removing_lem : Reach (start 2 ids two_readers) (about_to_remove 0 reader_a both_out)
unfolding delete socket_path_in_use
removing_lem =
    next
      (next (next out_lem (closes_input 0 reader_a refl refl)) (range_starts 0 reader_a refl refl))
      (range_ends 0 reader_a both_out.readers false refl refl refl)

Reach-removing_example :
    socket_path_in_use "/attach" (about_to_remove 0 reader_a both_out).readers ≡ false
Reach-removing_example =
    Reach-removing 2 ids two_readers (about_to_remove 0 reader_a both_out) 0 reader_a removing_lem
      refl

abbrev all_over : Closings
all_over = finished 1 reader_b (finished 0 reader_a both_out)

over_lem : Reach (start 2 ids two_readers) all_over
unfolding delete socket_path_in_use
over_lem =
    next
      (next
        (next
          (next (next removing_lem (removes 0 reader_a refl refl))
            (closes_input 1 reader_b refl refl))
          (range_starts 1 reader_b refl refl))
        (range_ends 1 reader_b both_out.readers false refl refl refl))
      (removes 1 reader_b refl refl)

none_left : (i : ℕ) → all_over.closers i ≡ over
none_left i = ground arith

used_lem : socket_path_in_use "/attach" two_readers ≡ true
unfolding socket_path_in_use
used_lem = refl

unused_lem : socket_path_in_use "/attach" all_over.readers ≡ false
unfolding delete socket_path_in_use
unused_lem = refl

Reach-removals_example : 1 ≤ removals "/attach" all_over.effects
Reach-removals_example =
    Reach-removals "/attach" 2 ids two_readers all_over used_lem over_lem unused_lem none_left
