-- ===== src/Attach/Channels/Leak.antt =====
-- What becomes of the goroutines once `readStdio` has returned (pkg/client/attach.go).
use conmon_rs.Base.{◌≡◌, ◌≢◌, refl, String, Option, none}
use conmon_rs.Base.Results.{Error}
use conmon_rs.Attach.Config.{AttachConfig}
use conmon_rs.Attach.Readers.{Readers}
use conmon_rs.Attach.Channels.{
  Worker, running, sending, finished, Main, selecting, awaiting_output, returned, Goroutines, Step,
  output_ends, input_ends, input_is_closed, receive_output, receive_input, receive_later, Reach,
  here, next, set_up,
}

module _ (cfg : AttachConfig) (id : String) (close_write : Option Error) where
  -- Returned, with a goroutine for the output that is not over.
  abbrev pub Leaks : Option Error → Goroutines → Type 0
  Leaks r s = (s.main ≡ returned r) × (s.output ≢ finished)

  Step-Leaks :
      (r : Option Error) (s t : Goroutines) → Step cfg id close_write s t → Leaks r s → Leaks r t
  Step-Leaks r s t (output_ends e h k) (over, unsent) = (cc, λ x. cc)
  Step-Leaks r s t (input_ends e h c k) (over, unsent) = (cc, λ x. unsent (cc))
  Step-Leaks r s t (input_is_closed e h c k) (over, unsent) = (cc, λ x. unsent (cc))
  Step-Leaks r s t (receive_output e h sel k) (over, unsent) = cc
  Step-Leaks r s t (receive_input e h sel k) (over, unsent) = cc
  Step-Leaks r s t (receive_later e h sel k) (over, unsent) = cc

  -- When `readStdio` has returned before the output was received, the goroutine of the output is
  -- never over, whatever happens afterwards: nobody receives what it sends.
  pub Reach-Leaks :
      (r : Option Error) (s t : Goroutines)
      → Reach cfg id close_write s t
      → s.main ≡ returned r
      → s.output ≢ finished
      → (t.main ≡ returned r) × (t.output ≢ finished)
  Reach-Leaks r s t here over unsent = (over, unsent)
  Reach-Leaks r s t (next {t = v} reach step) over unsent =
      Step-Leaks r v t step (Reach-Leaks r s v reach over unsent)

  -- While `readStdio` has not returned, the goroutine of the output is not over.
  abbrev Serves : Main → Worker → Type 0
  Serves (returned r) w = Unit
  Serves selecting finished = ⊥
  Serves awaiting_output finished = ⊥
  Serves _ _ = Unit

  Serves-sending : (a : Main) (e : Option Error) → Serves a (sending e)
  Serves-sending selecting e = tt
  Serves-sending awaiting_output e = tt
  Serves-sending (returned r) e = tt

  Serves-after_input : (a b : Main) (w : Worker) → a ≡ selecting → Serves a w → Serves b w
  Serves-after_input a (returned r) w h serves = tt
  Serves-after_input a selecting w h serves = rw h at serves
  Serves-after_input a awaiting_output running h serves = tt
  Serves-after_input a awaiting_output (sending e) h serves = tt
  Serves-after_input a awaiting_output finished h serves = absurd (rw h at serves)

  Step-Serves :
      (s t : Goroutines)
      → Step cfg id close_write s t
      → Serves s.main s.output
      → Serves t.main t.output
  Step-Serves s t (output_ends e h k) serves = rw k (Serves-sending s.main e)
  Step-Serves s t (input_ends e h c k) serves = rw k serves
  Step-Serves s t (input_is_closed e h c k) serves = rw k serves
  Step-Serves s t (receive_output e h sel k) serves = rw k tt
  Step-Serves s t (receive_input e h sel k) serves =
      rw k (Serves-after_input s.main _ s.output sel serves)
  Step-Serves s t (receive_later e h sel k) serves = rw k tt

  Reach-Serves :
      (m : Readers) (t : Goroutines)
      → Reach cfg id close_write (set_up cfg m) t
      → Serves t.main t.output
  Reach-Serves m t here = tt
  Reach-Serves m t (next {t = v} reach step) = Step-Serves v t step (Reach-Serves m v reach)

  received :
      (t : Goroutines) (e : Option Error)
      → t.output ≡ sending e
      → (u : Goroutines) × (r : Option Error) × Reach cfg id close_write t u × (u.main ≡ returned r)
  received t e h = go t.main refl
    where
      go :
          (a : Main)
          → t.main ≡ a
          → (u : Goroutines) × (r : Option Error) × Reach cfg id close_write t u
            × (u.main ≡ returned r)
      go selecting sel = (_, _, next here (receive_output e h sel refl), refl)
      go awaiting_output sel = (_, _, next here (receive_later e h sel refl), refl)
      go (returned r) over = (t, r, here, over)

  Reach-trans :
      {s t u : Goroutines}
      → Reach cfg id close_write s t
      → Reach cfg id close_write t u
      → Reach cfg id close_write s u
  Reach-trans h here = h
  Reach-trans h (next g step) = next (Reach-trans h g) step

  -- An output that still runs can end and be received.
  ends :
      (t : Goroutines)
      → t.output ≡ running
      → (u : Goroutines) × (r : Option Error) × Reach cfg id close_write t u × (u.main ≡ returned r)
  ends t h =
      let v = record t { output = sending none } in
      let (u, r, reach, over) = received v none refl in
      (u, r, Reach-trans (next here (output_ends none h refl)) reach, over)

  returns_from :
      (t : Goroutines) (a : Main) (w : Worker)
      → t.main ≡ a
      → t.output ≡ w
      → Serves a w
      → (u : Goroutines) × (r : Option Error) × Reach cfg id close_write t u × (u.main ≡ returned r)
  returns_from t (returned r) w over sent serves = (t, r, here, over)
  returns_from t selecting (sending e) sel sent serves = received t e sent
  returns_from t awaiting_output (sending e) sel sent serves = received t e sent
  returns_from t selecting running sel sent serves = ends t sent
  returns_from t awaiting_output running sel sent serves = ends t sent
  returns_from t selecting finished sel sent serves = absurd serves
  returns_from t awaiting_output finished sel sent serves = absurd serves

  -- No session gets stuck: from every state that the goroutines can reach, they can go on to one in
  -- which `readStdio` has returned.
  pub Reach-returned :
      (m : Readers) (t : Goroutines)
      → Reach cfg id close_write (set_up cfg m) t
      → (u : Goroutines) × (r : Option Error) × Reach cfg id close_write t u × (u.main ≡ returned r)
  Reach-returned m t reach = returns_from t t.main t.output refl refl (Reach-Serves m t reach)
