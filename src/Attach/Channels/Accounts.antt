-- ===== src/Attach/Channels/Accounts.antt =====
-- What `readStdio` and the goroutines of a session know of each other (pkg/client/attach.go).
use conmon_rs.Base.{
  ◌≡◌, refl, sym, ◌∙◌, String, true, false, Option, none, some, arith, Bool-cases, inl, inr,
}
use mathlib.Core.Path.{subst}
use conmon_rs.Base.Results.{Error}
use conmon_rs.Attach.Config.{AttachConfig}
use conmon_rs.Attach.Readers.{Readers, try_close_attach_reader_for_id}
use conmon_rs.Attach.Session.{Message, from_output, from_stdin, stdin_result}
use conmon_rs.Attach.Channels.{
  Worker, running, sending, finished, Main, selecting, awaiting_output, returned, Goroutines,
  awaits_output, after_input, readers_after_input,
}
use conmon_rs.Attach.Channels.Shown.{Shown, WasFirst, goes_on, Returns, stops_lem, goes_on_lem}

-- What a goroutine holds that has not been received.
abbrev pub Holds : Worker → Option (Option Error) → Type 0
Holds running sent = sent ≡ none
Holds (sending e) sent = sent ≡ some e
Holds finished sent = Unit

-- The goroutine that a message came from is over.
abbrev pub IsOver : Message → Goroutines → Type 0
IsOver (from_output e) s = s.output ≡ finished
IsOver (from_stdin e) s = s.input ≡ finished

module _ (cfg : AttachConfig) (id : String) (close_write : Option Error) (m : Readers) where
  -- A state of `readStdio` that the function accounts for.
  abbrev pub Accounts : Main → Goroutines → Shown → Type 0
  Accounts selecting s x = s.readers ≡ m
  Accounts awaiting_output s x =
      (e : Option Error) × (awaits_output cfg e ≡ true)
      × (cfg.stop_after_stdin_eof ≡ false)
      × (s.readers ≡ (try_close_attach_reader_for_id id m).0)
      × WasFirst (from_stdin e) x
      × (s.input ≡ finished)
  Accounts (returned r) s x =
      (message : Message) × (later : Option Error) × Returns cfg id close_write m r s.readers x
        message later
      × IsOver message s
      × (goes_on cfg message ≡ true → s.output ≡ finished)

  abbrev pub IsKept : Goroutines → Shown → Type 0
  IsKept s x = Holds s.output x.output × Holds s.input x.input × Accounts s.main s x

  pub input_Accounts :
      (e : Option Error) (s : Goroutines) (x : Shown)
      → x.input ≡ some e
      → Accounts
          (after_input cfg close_write e)
          (record s {
            input = finished;
            main = after_input cfg close_write e;
            readers = readers_after_input cfg id m;
          })
          (record x { first = some (from_stdin e) })
  input_Accounts e s x held =
      let x' : Shown = record x { first = some (from_stdin e) } in
      let t : Goroutines = record s {
        input = finished;
        main = after_input cfg close_write e;
        readers = readers_after_input cfg id m;
      } in
      elim (Bool-cases cfg.stop_after_stdin_eof) [
        | inl stop ↦
            let (r, same) = stops_lem cfg id close_write m e none stop in
            let main : after_input cfg close_write e ≡ returned none = ground arith in
            let readers : readers_after_input cfg id m ≡ m = ground arith in
            let direct : goes_on cfg (from_stdin e) ≡ false = ground arith in
            subst (λ a. Accounts a t x') (sym main)
              (
                from_stdin e,
                none,
                record {
                  first = (refl, held);
                  second = λ g. cc;
                  result = sym r;
                  left = readers ∙ sym same;
                },
                refl,
                λ g. cc,
              )
        | inr on ↦
            let (r, same) = goes_on_lem cfg id close_write m e none on in
            let readers : readers_after_input cfg id m ≡ (try_close_attach_reader_for_id id m).0 =
              ground arith in
            elim (Bool-cases (awaits_output cfg e)) [
              | inl waits ↦
                  let main : after_input cfg close_write e ≡ awaiting_output = ground arith in
                  subst (λ a. Accounts a t x') (sym main)
                    (e, waits, on, readers, (refl, held), refl)
              | inr no_wait ↦
                  let main : after_input cfg close_write e
                      ≡ returned (stdin_result cfg close_write e none) =
                    ground arith in
                  let direct : goes_on cfg (from_stdin e) ≡ false = ground arith in
                  subst (λ a. Accounts a t x') (sym main)
                    (
                      from_stdin e,
                      none,
                      record {
                        first = (refl, held);
                        second = λ g. cc;
                        result = sym r;
                        left = readers ∙ sym same;
                      },
                      refl,
                      λ g. cc,
                    )
            ]
      ]

  -- A goroutine that still runs has not been received from.
  pub output_Accounts :
      (a : Main) (e : Option Error) (s : Goroutines) (x : Shown)
      → s.output ≡ running
      → Accounts a s x
      → Accounts a (record s { output = sending e }) (record x { output = some e })
  output_Accounts selecting e s x runs start = start
  output_Accounts awaiting_output e s x runs waits = waits
  output_Accounts (returned r) e s x runs (from_output f, later, ret, over, done) = cc
  output_Accounts (returned r) e s x runs (from_stdin f, later, ret, over, done) = (
    from_stdin f,
    later,
    record {
      first = ret.first;
      second = λ g. absurd (let ends = done g in cc);
      result = ret.result;
      left = ret.left;
    },
    over,
    λ g. absurd (let ends = done g in cc),
  )

  pub input_kept :
      (a : Main) (w : Worker) (o : Option (Option Error)) (s : Goroutines) (x : Shown)
      → s.input ≡ running
      → Accounts a s x
      → Accounts a (record s { input = w }) (record x { input = o })
  input_kept selecting w o s x runs start = start
  input_kept awaiting_output w o s x runs (e, waits, on, readers, was, over) = cc
  input_kept (returned r) w o s x runs (from_output f, later, ret, over, done) = (
    from_output f,
    later,
    record { first = ret.first; second = ret.second; result = ret.result; left = ret.left },
    over,
    done,
  )
  input_kept (returned r) w o s x runs (from_stdin f, later, ret, over, done) = cc

  pub held :
      (w : Worker) (e : Option Error) (o : Option (Option Error))
      → w ≡ sending e
      → Holds w o
      → o ≡ some e
  held w e o h holds = subst (λ v. Holds v o) h holds
