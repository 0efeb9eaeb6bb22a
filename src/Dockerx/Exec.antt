-- ===== src/Dockerx/Exec.antt =====
-- internal/dockerx/client.go: `Exec`, `ExecWithStdin`, `PathKind`, `lookupHome`.
use devcontainer_manager.Base.Int.{ℤ, is_zero}
use devcontainer_manager.Go.Strings.{trim_space, itoa_int}
use devcontainer_manager.Dockerx.{Daemon}
use devcontainer_manager.Base.{
  ◌>>◌, if◌then◌else◌, Str, lit, is_empty, Result, ok, err, ◌>>=◌, >>=-eq-ok, ◌≡◌, ◌↔◌, Bool, true,
  false, not, ◌||◌, List, [], ◌∷◌, ◌++◌, arith,
}

module _ (D : Daemon) where
  abbrev exec_finished : Str → ℤ → Result Str
  exec_finished output code = if not (is_zero code) then err (trim_space output) else ok output

  -- `Exec(ctx, containerID, cmd, args...)`
  unfoldable pub exec : Str → List Str → List Str → Result Str
  exec container_id cmd args = do
    id ← D.exec_create container_id (record { cmd = cmd ++ args; user = []; attach_stdin = false })
    D.exec_attach id
    code ← D.exec_inspect id
    exec_finished (D.exec_output id) code

  abbrev stdin_finished : ℤ → Result (Unit {0})
  stdin_finished code =
      if not (is_zero code)
      then err (lit "docker exec exited with code " ++ itoa_int code)
      else ok tt

  unfoldable pub exec_with_stdin : Str → List Str → Str → Str → Result (Unit {0})
  exec_with_stdin container_id cmd user input = do
    id ← D.exec_create container_id (record { cmd = cmd; user = user; attach_stdin = true })
    D.exec_attach id
    (if is_empty input then ok tt else D.exec_write id input)
    D.exec_close_write id
    code ← D.exec_inspect id
    stdin_finished code

  abbrev kind_script : Str
  kind_script =
      lit
        "p=$0; if [ -d \"$p\" ]; then echo directory; elif [ -f \"$p\" ]; then echo file; elif [ -e \"$p\" ]; then echo other; else echo missing; fi"

  -- `PathKind`, whose text matters only where the error is nil
  unfoldable pub path_kind : Str → Str → Result Str
  unfolding exec
  path_kind container_id path =
      exec container_id (lit "sh" ∷ lit "-lc" ∷ kind_script ∷ []) (path ∷ []) >>= λ out.
      ok (trim_space out)

  abbrev home_of : Result Str → Str
  home_of (ok out) = trim_space out
  home_of (err _) = []

  unfoldable pub lookup_home : Str → Str → Bool → Str
  unfolding exec
  lookup_home container_id user running =
      if not running || is_empty user
      then []
      else home_of (
          exec container_id (lit "sh" ∷ lit "-lc" ∷ lit "getent passwd \"$0\" | cut -d: -f6" ∷ [])
            (user ∷ []))

  -- A command succeeds exactly when it was created, could be attached to and exited with 0, and then
  -- its output is all that it wrote.
  pub exec-eq-ok_iff :
      (container_id : Str) (cmd args : List Str) (out : Str)
      → (exec container_id cmd args ≡ ok out) ↔ (
          (id : Str) × (code : ℤ) × (D.exec_create container_id
              (record { cmd = cmd ++ args; user = []; attach_stdin = false })
            ≡ ok id)
          × (D.exec_attach id ≡ ok tt)
          × (D.exec_inspect id ≡ ok code)
          × (is_zero code ≡ true)
          × (out ≡ D.exec_output id))
  unfolding exec
  exec-eq-ok_iff container_id cmd args out = (to, from)
    where
      to :
          exec container_id cmd args ≡ ok out
          → (id : Str) × (code : ℤ) × (D.exec_create container_id
                (record { cmd = cmd ++ args; user = []; attach_stdin = false })
              ≡ ok id)
            × (D.exec_attach id ≡ ok tt)
            × (D.exec_inspect id ≡ ok code)
            × (is_zero code ≡ true)
            × (out ≡ D.exec_output id)
      to h =
          let (id, made, h1) = >>=-eq-ok (D.exec_create container_id _) _ h in
          let (u, attached, h2) = >>=-eq-ok (D.exec_attach id) _ h1 in
          let (code, inspected, h3) = >>=-eq-ok (D.exec_inspect id) _ h2 in
          (id, code, made, attached, inspected, ground arith, ground arith)

      from :
          (id : Str) × (code : ℤ) × (D.exec_create container_id
                (record { cmd = cmd ++ args; user = []; attach_stdin = false })
              ≡ ok id)
            × (D.exec_attach id ≡ ok tt)
            × (D.exec_inspect id ≡ ok code)
            × (is_zero code ≡ true)
            × (out ≡ D.exec_output id)
          → exec container_id cmd args ≡ ok out
      from (id, code, made, attached, inspected, zero_code, same) =
          rw (made, attached, inspected) (ground arith)
