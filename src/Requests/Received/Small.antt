-- ===== src/Requests/Received/Small.antt =====
-- The requests with few fields as their reader finds them (pkg/client/client.go, attach.go).
use conmon_rs.Base.{ℕ, String, ◌<◌, ◌^◌, ◌≡◌, ap, ◌∙◌, Bool, arith}
use conmon_rs.Base.Results.{ok, wrapped}
use conmon_rs.Base.Chain.{>>=-eq-ok}
use conmon_rs.Attach.Config.{AttachConfig}
use conmon_rs.Proto.AttachRequest
use conmon_rs.Proto.ReopenLogRequest
use conmon_rs.Proto.SetWindowSizeRequest
use conmon_rs.Wire.{Capnp, Place, root, Content, stored_text, update, bit, IsLawful, IsReadable}
use conmon_rs.Wire.Frame.{content_self, wrapped-eq-ok}
use conmon_rs.Requests.Config.{ReopenLogContainerConfig, TerminalSize}
use conmon_rs.Requests.Metadata.{Injected, set_metadata}
use conmon_rs.Requests.Metadata.Effect.{update_lem}
use conmon_rs.Requests.Fill.{fill_attach, fill_reopen_log, fill_set_window_size}
use conmon_rs.Requests.Received.Reading.{bit-lt, flag_lem, text_lem}

module _ (C : Capnp) (L : IsLawful C) (tracing : Bool) (global : ℕ) (injected : Injected)
    (req m : C.Message) (R : IsReadable C m) where
  pub reopen_log_lem :
      (cfg : ReopenLogContainerConfig)
      → fill_reopen_log C tracing global injected cfg req ≡ ok m
      → ReopenLogRequest.id C m ≡ ok cfg.id
  unfolding fill_reopen_log
  reopen_log_lem cfg h =
      let (m1, e1, h1) = >>=-eq-ok (set_metadata C tracing _ injected req) _ h in
      let w = L.set_text_lem root 0 cfg.id m1 m (wrapped-eq-ok "set ID" _ h1) in
      text_lem C R root 0 (ap (λ (f : ℕ → Content). f 0) (content_self C w) ∙ update_lem 0 0 _ _)

  pub window_size_lem :
      (id : String) (size : TerminalSize)
      → size.width < 2 ^ 16
      → size.height < 2 ^ 16
      → fill_set_window_size C tracing global injected id size req ≡ ok m
      → (SetWindowSizeRequest.id C m ≡ ok id)
        × (SetWindowSizeRequest.width C m ≡ size.width)
        × (SetWindowSizeRequest.height C m ≡ size.height)
  unfolding fill_set_window_size
  window_size_lem id size fit fit' h =
      let (m1, e1, h1) = >>=-eq-ok (set_metadata C tracing _ injected req) _ h in
      let (m2, e2, h2) = >>=-eq-ok (wrapped "set ID" (C.set_text root 0 id m1)) _ h1 in
      let w = L.set_text_lem root 0 id m1 m2 (wrapped-eq-ok "set ID" _ e2) in
      let m3 = C.set_scalar root 0 16 size.width m2 in
      let m4 = C.set_scalar root 16 16 size.height m3 in
      let last : m4 ≡ m = cc h2 in
      let c : C.content m root ≡ update 0 (stored_text id) (C.content m1 root) = rw (← last) (
        ap (λ (f : Place → ℕ → Content). f root)
          (L.content-set_scalar root 16 16 size.height m3
            ∙ L.content-set_scalar root 0 16 size.width m2)
        ∙ content_self C w) in
      (
        text_lem C R root 0 (ap (λ (f : ℕ → Content). f 0) c ∙ update_lem 0 0 _ _),
        rw (← last) (
            L.scalar-set_scalar_ne root root 16 16 0 16 size.height m3 (omega arith)
            ∙ L.scalar-set_scalar root 0 16 size.width m2 fit),
        rw (← last) (L.scalar-set_scalar root 16 16 size.height m3 fit'),
      )

  pub attach_lem :
      (cfg : AttachConfig)
      → fill_attach C tracing global injected cfg req ≡ ok m
      → (AttachRequest.id C m ≡ ok cfg.id)
        × (AttachRequest.socket_path C m ≡ ok cfg.socket_path)
        × (AttachRequest.stop_after_stdin_eof C m ≡ cfg.stop_after_stdin_eof)
  unfolding fill_attach
  attach_lem cfg h =
      let (m1, e1, h1) = >>=-eq-ok (set_metadata C tracing _ injected req) _ h in
      let (m2, e2, h2) = >>=-eq-ok (wrapped "set ID" (C.set_text root 0 cfg.id m1)) _ h1 in
      let (m3, e3, h3) =
        >>=-eq-ok (wrapped "set socket path" (C.set_text root 1 cfg.socket_path m2)) _ h2 in
      let w1 = L.set_text_lem root 0 cfg.id m1 m2 (wrapped-eq-ok "set ID" _ e2) in
      let w2 = L.set_text_lem root 1 cfg.socket_path m2 m3 (wrapped-eq-ok "set socket path" _ e3) in
      let m4 = C.set_scalar root 0 1 (bit cfg.stop_after_stdin_eof) m3 in
      let last : m4 ≡ m = cc h3 in
      let c : C.content m root
          ≡ update 1 (stored_text cfg.socket_path)
              (update 0 (stored_text cfg.id) (C.content m1 root)) =
        rw (← last) (
          ap (λ (f : Place → ℕ → Content). f root)
            (L.content-set_scalar root 0 1 (bit cfg.stop_after_stdin_eof) m3)
          ∙ content_self C w2
          ∙ ap (update 1 (stored_text cfg.socket_path)) (content_self C w1)) in
      (
        text_lem C R root 0
            (ap (λ (f : ℕ → Content). f 0) c ∙ update_lem 1 0 _ _ ∙ update_lem 0 0 _ _),
        text_lem C R root 1 (ap (λ (f : ℕ → Content). f 1) c ∙ update_lem 1 1 _ _),
        flag_lem cfg.stop_after_stdin_eof (
            rw (← last) (
              L.scalar-set_scalar root 0 1 (bit cfg.stop_after_stdin_eof) m3
                (bit-lt cfg.stop_after_stdin_eof))),
      )
