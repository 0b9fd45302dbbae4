-- ===== src/Attach/Channels/Result.antt =====
-- The goroutines against the function `read_stdio` (pkg/client/attach.go).
use conmon_rs.Base.{ℕ, ◌≡◌, refl, sym, ◌∙◌, ap, String, Option, none, some}
use mathlib.Core.Path.{subst}
use conmon_rs.Base.Results.{Error}
use conmon_rs.Attach.Config.{AttachConfig}
use conmon_rs.Attach.Readers.{Readers, try_close_attach_reader_for_id}
use conmon_rs.Attach.Session.{Message, from_output, from_stdin, read_stdio}
use conmon_rs.Attach.Channels.{
  running, sending, finished, returned, Goroutines, after_input, readers_after_input, Step,
  output_ends, input_ends, input_is_closed, receive_output, receive_input, receive_later, Reach,
  here, next, set_up,
}
use conmon_rs.Attach.Channels.Shown.{Shown, shows, shown, Returns, later_lem, goes_on_lem}
use conmon_rs.Attach.Channels.Accounts.{
  Holds, Accounts, IsKept, input_Accounts, output_Accounts, input_kept, held,
}

module _ (cfg : AttachConfig) (id : String) (close_write : Option Error) (m : Readers) where
  Step-IsKept :
      {s t : Goroutines} (step : Step cfg id close_write s t) (x : Shown)
      → IsKept cfg id close_write m s x
      → IsKept cfg id close_write m t (shows step x)
  unfolding read_stdio
  Step-IsKept {s = s} (output_ends e h k) x (out, inp, a) =
      subst (λ u. IsKept cfg id close_write m u (record x { output = some e })) (sym k)
        (refl, inp, output_Accounts cfg id close_write m s.main e s x h a)
  Step-IsKept {s = s} (input_ends e h c k) x (out, inp, a) =
      subst (λ u. IsKept cfg id close_write m u (record x { input = some e })) (sym k)
        (out, refl, input_kept cfg id close_write m s.main (sending e) (some e) s x h a)
  Step-IsKept {s = s} (input_is_closed e h c k) x (out, inp, a) =
      subst (λ u. IsKept cfg id close_write m u x) (sym k)
        (out, tt, input_kept cfg id close_write m s.main finished x.input s x h a)
  Step-IsKept {s = s} (receive_output e h sel k) x (out, inp, a) =
      let start : s.readers ≡ m = subst (λ b. Accounts cfg id close_write m b s x) sel a in
      subst (λ u. IsKept cfg id close_write m u (record x { first = some (from_output e) })) (sym k)
        (
          tt,
          inp,
          (
            from_output e,
            none,
            record {
              first = (refl, held cfg id close_write m s.output e x.output h out);
              second = λ g. cc;
              result = refl;
              left = ap (λ n. (try_close_attach_reader_for_id id n).0) start;
            },
            refl,
            λ g. cc,
          ),
        )
  Step-IsKept {s = s} (receive_input e h sel k) x (out, inp, a) =
      let start : s.readers ≡ m = subst (λ b. Accounts cfg id close_write m b s x) sel a in
      let was = held cfg id close_write m s.input e x.input h inp in
      subst (λ u. IsKept cfg id close_write m u (record x { first = some (from_stdin e) })) (sym k)
        (
          out,
          tt,
          subst
              (λ n.
                Accounts cfg id close_write m (after_input cfg close_write e)
                  (record s {
                    input = finished;
                    main = after_input cfg close_write e;
                    readers = readers_after_input cfg id n;
                  })
                  (record x { first = some (from_stdin e) }))
              (sym start) (input_Accounts cfg id close_write m e s x was),
        )
  Step-IsKept {s = s} (receive_later e h sel k) x (out, inp, a) =
      let (f, waits, on, same, was, over) =
        subst (λ b. Accounts cfg id close_write m b s x) sel a in
      let (r, readers) = goes_on_lem cfg id close_write m f e on in
      let second = held cfg id close_write m s.output e x.output h out in
      subst (λ u. IsKept cfg id close_write m u x) (sym k)
        (
          tt,
          inp,
          (
            from_stdin f,
            e,
            record {
              first = was;
              second = λ g. second;
              result = sym (r ∙ later_lem cfg id close_write m f e waits);
              left = same ∙ sym readers;
            },
            over,
            λ g. refl,
          ),
        )

  set_up-Holds : (o : Option ℕ) → Holds (elim o [ none ↦ finished | some stdin ↦ running ]) none
  set_up-Holds none = tt
  set_up-Holds (some stdin) = refl

  Reach-IsKept :
      {t : Goroutines} (reach : Reach cfg id close_write (set_up cfg m) t)
      → IsKept cfg id close_write m t (shown reach)
  Reach-IsKept here = (refl, set_up-Holds cfg.streams.stdin, refl)
  Reach-IsKept (next reach step) = Step-IsKept step (shown reach) (Reach-IsKept reach)

  -- Whatever the order of the events: when `readStdio` has returned, its result and the map of
  -- readers are those of the function `read_stdio` for a message and a later value. The message is
  -- the one that was received first, and what its goroutine ended with; if `readStdio` goes on to
  -- the output after it, the later value is what the redirection of the output returned.
  pub Reach-read_stdio :
      {t : Goroutines} {r : Option Error} (reach : Reach cfg id close_write (set_up cfg m) t)
      → t.main ≡ returned r
      → (message : Message) × (later : Option Error) × Returns cfg id close_write m r t.readers
          (shown reach)
          message
          later
  Reach-read_stdio {t = t} reach over =
      let (message, later, ret, _, _) =
        subst (λ a. Accounts cfg id close_write m a t (shown reach)) over (Reach-IsKept reach).2 in
      (message, later, ret)
