-- ===== src/RpcServer/Exec.antt =====
-- What the client's `ExecSyncContainer` returns of the server's answer
-- (conmon-rs/server/src/rpc.rs, pkg/client/client.go).
use conmon_rs.Base.{
  ℕ, ◌-◌, ◌<◌, ◌^◌, ◌≡◌, ap, ◌∙◌, false, ◌||◌, ◌==◌, [], inl, inr, Bool-cases, arith,
}
use conmon_rs.Base.Results.{ok}
use conmon_rs.Base.Chain.{>>=-eq-ok}
use conmon_rs.Wire.{
  Capnp, Place, root, Content, absent, bytes, bytes_of, update, bit, IsLawful, IsReadable,
}
use conmon_rs.Wire.Frame.{content_self}
use conmon_rs.Requests.Received.Reading.{flag_lem}
use conmon_rs.Rpc.{Host, Process}
use conmon_rs.Rpc.Methods.{ExecContainerResult, exec_response}
use conmon_rs.RpcServer.{Execution, ran, not_started, answer_exec_sync}

-- What the caller is told of an execution.
abbrev pub told : Execution → ExecContainerResult
told (ran stdout stderr read_timed_out exit_code exit_timed_out) = record {
  exit_code = exit_code;
  stdout = stdout;
  stderr = stderr;
  timed_out = read_timed_out || exit_timed_out;
}
told not_started = record { exit_code = 2 ^ 32 - 2; stdout = []; stderr = []; timed_out = false }

-- The exit code is the bit pattern of an int32.
abbrev pub FitsCode : Execution → Type 0
FitsCode (ran stdout stderr read_timed_out exit_code exit_timed_out) = exit_code < 2 ^ 32
FitsCode not_started = Unit

-- A response as the runtime makes it: no pointer, and the flag not set.
pub record IsNew (C : Capnp) (response : C.Message) : Type 0 where
  pub pointers : (k : ℕ) → C.content response root k ≡ absent
  pub flag : C.scalar response root 32 1 ≡ 0

module _ (C : Capnp) (L : IsLawful C) where
  -- What the message holds after the answer.
  answer_exec_sync_lem :
      (e : Execution) (response m : C.Message)
      → IsNew C response
      → FitsCode e
      → answer_exec_sync C e response ≡ ok m
      → (bytes_of (C.content m root 0) ≡ (told e).stdout)
        × (bytes_of (C.content m root 1) ≡ (told e).stderr)
        × (C.scalar m root 0 32 ≡ (told e).exit_code)
        × (C.scalar m root 32 1 ≡ bit ((told e).timed_out))
  unfolding answer_exec_sync update
  answer_exec_sync_lem not_started response m new fits h =
      let code : ℕ = 2 ^ 32 - 2 in
      let m' = C.set_scalar root 0 32 code response in
      let last : m' ≡ m = cc h in
      let c =
        ap (λ (f : Place → ℕ → Content). f root) (L.content-set_scalar root 0 32 code response) in
      rw (← last) (
        ap (λ (f : ℕ → Content). bytes_of (f 0)) c ∙ ap bytes_of (new.pointers 0),
        ap (λ (f : ℕ → Content). bytes_of (f 1)) c ∙ ap bytes_of (new.pointers 1),
        L.scalar-set_scalar root 0 32 code response (omega arith),
        L.scalar-set_scalar_ne root root 0 32 32 1 code response (inr (inl (omega arith)))
            ∙ new.flag,
      )
  answer_exec_sync_lem (ran stdout stderr late code exit_late) response m new fits h =
      let (m1, h1, r1) = >>=-eq-ok (C.set_data root 0 stdout response) _ h in
      let (m2, h2, r2) = >>=-eq-ok (C.set_data root 1 stderr m1) _ r1 in
      let w1 = L.set_data_lem root 0 stdout response m1 h1 in
      let w2 = L.set_data_lem root 1 stderr m1 m2 h2 in
      let m3 = C.set_scalar root 0 32 code m2 in
      let c3 : C.content m3 root
          ≡ update 1 (bytes stderr) (update 0 (bytes stdout) (C.content response root)) =
        ap (λ (f : Place → ℕ → Content). f root) (L.content-set_scalar root 0 32 code m2)
        ∙ content_self C w2
        ∙ ap (update 1 (bytes stderr)) (content_self C w1) in
      let flag3 : C.scalar m3 root 32 1 ≡ 0 =
        L.scalar-set_scalar_ne root root 0 32 32 1 code m2 (inr (inl (omega arith)))
        ∙ ap (λ (f : ℕ → ℕ → ℕ). f 32 1) (w2.scalar_eq root ∙ w1.scalar_eq root)
        ∙ new.flag in
      let code3 = L.scalar-set_scalar root 0 32 code m2 fits in
      let m4 = C.set_scalar root 32 1 1 m3 in
      let c4 =
        ap (λ (f : Place → ℕ → Content). f root) (L.content-set_scalar root 32 1 1 m3) ∙ c3 in
      elim (Bool-cases (late || exit_late)) [
        | inl timed ↦
            let last : m4 ≡ m = cc (rw timed at r2) in
            rw (timed, ← last)
              (
                ap (λ (f : ℕ → Content). bytes_of (f 0)) c4,
                ap (λ (f : ℕ → Content). bytes_of (f 1)) c4,
                L.scalar-set_scalar_ne root root 32 1 0 32 1 m3 (inr (inr (omega arith))) ∙ code3,
                L.scalar-set_scalar root 32 1 1 m3 (omega arith),
              )
        | inr in_time ↦
            let last : m3 ≡ m = cc (rw in_time at r2) in
            rw (in_time, ← last)
              (
                ap (λ (f : ℕ → Content). bytes_of (f 0)) c3,
                ap (λ (f : ℕ → Content). bytes_of (f 1)) c3,
                code3,
                flag3,
              )
      ]

-- Over a lawful library, for a new response, an answer that can be read and an exit code of 32
-- bits: `ExecSyncContainer` returns the output and the exit code of the command, and that it timed
-- out if the reading or the child did; for a command that could not be started it returns the exit
-- code -2, no output and no error.
pub exec_response-answer_exec_sync :
    (C : Capnp) (L : IsLawful C) (H : Host C) (e : Execution) (response m : C.Message)
    (p : Process C H)
    → IsNew C response
    → FitsCode e
    → answer_exec_sync C e response ≡ ok m
    → IsReadable C m
    → (exec_response C H m p).0 ≡ ok (told e)
unfolding exec_response
exec_response-answer_exec_sync C L H e response m p new fits h R =
    let (out, errs, code, flag) = answer_exec_sync_lem C L e response m new fits h in
    let stdout : C.read_data m root 0 ≡ ok (told e).stdout =
      R.data_eq root 0 ∙ ap (λ b. ok b) out in
    let stderr : C.read_data m root 1 ≡ ok (told e).stderr =
      R.data_eq root 1 ∙ ap (λ b. ok b) errs in
    let timed : (C.scalar m root 32 1 == 1) ≡ (told e).timed_out = flag_lem _ flag in ground arith
