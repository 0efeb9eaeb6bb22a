-- ===== src/Command/Program.antt =====
-- cmd/devcontainer-manager/main.go: `main` to its exit, and the configurations of the running program.
use devcontainer_manager.Config.{Config}
use devcontainer_manager.Config.Matching
use devcontainer_manager.Config.Validation.{
  LoadError, validate, validate_iff, ReadFile, load, load-IsValid, validate_syncs, not_exist,
  failed,
}
use devcontainer_manager.T3.Store.{Database, never_opened}
use devcontainer_manager.App.Start.{
  Handles, Ended, canceled, server_failed, close_all, new, NoneOpen, close_all-NoneOpen,
  new-NoneOpen,
}
use devcontainer_manager.Command.{Resolver, start, loaded, override, validate_listen}
use devcontainer_manager.Config.Matching.{Patterns}
use devcontainer_manager.Config.Matching
use devcontainer_manager.Config.Defaults.{default, IsComplete}
use devcontainer_manager.App.{new_service}
use devcontainer_manager.App.Reconcile.{Outside}
use devcontainer_manager.App.Loops.{System, Label, Run, run}
use devcontainer_manager.App.Loops.Contents.{IsUsable, Run-IsSound}
use devcontainer_manager.Base.{
  Str, lit, Result, ok, err, >>=-eq-ok, ℕ, ◌≡◌, refl, ap, ◌∙◌, subst, ◌↔◌, Bool, Option, none, some,
  List, arith,
}

-- The exit code for the result of `Run`.
unfoldable pub exit_code : Ended → ℕ
exit_code canceled = 0
exit_code (server_failed e) = 1

abbrev nothing_open : Handles
nothing_open = record { docker = never_opened; pool = never_opened }

module _ (R : Resolver) (D : Database) where
  abbrev Made : Type 0
  Made = Handles × Result (Option D.State)

  -- `main` after `app.New`.
  unfoldable pub after_new : Ended → Made → Handles × ℕ
  unfolding exit_code
  after_new ended (h, err e) = (h, 1)
  after_new ended (h, ok store) = (close_all h, exit_code ended)

  unfoldable pub after_start :
      Result (Unit {0}) → (Str → Result D.State) → Ended → Result Config → Handles × ℕ
  unfolding after_new
  after_start docker opens ended (err e) = (nothing_open, 1)
  after_start docker opens ended (ok cfg) = after_new ended (new D cfg docker opens)

  -- `main`, from the result of `config.Load` and the flags: what is left of the handles, and the exit code.
  unfoldable pub main :
      Config × Option LoadError
      → Str
      → Bool
      → Result (Unit {0})
      → (Str → Result D.State)
      → Ended
      → Handles × ℕ
  unfolding after_start
  main file listen allow docker opens ended =
      after_start docker opens ended (start R file listen allow)

  after_new-NoneOpen :
      (ended : Ended) (p : Made)
      → ((e : Str) → p.1 ≡ err e → NoneOpen D p.0)
      → NoneOpen D (after_new ended p).0
  unfolding after_new
  after_new-NoneOpen ended (h, err e) k = k e refl
  after_new-NoneOpen ended (h, ok store) k = close_all-NoneOpen D h

  after_start-NoneOpen :
      (docker : Result (Unit {0})) (opens : Str → Result D.State) (ended : Ended)
      (r : Result Config)
      → NoneOpen D (after_start docker opens ended r).0
  unfolding after_start
  after_start-NoneOpen docker opens ended (err e) = (cc, cc)
  after_start-NoneOpen docker opens ended (ok cfg) =
      after_new-NoneOpen ended (new D cfg docker opens) (new-NoneOpen D cfg docker opens)

  after_new_iff :
      (ended : Ended) (p : Made)
      → ((after_new ended p).1 ≡ 0)
        ↔ ((store : Option D.State) × (p.1 ≡ ok store) × (ended ≡ canceled))
  unfolding after_new exit_code
  after_new_iff ended (h, err e) = (λ z. absurd (omega arith), λ (s, q, c). cc)
  after_new_iff canceled (h, ok store) = (λ z. (store, refl, refl), λ _. refl)
  after_new_iff (server_failed e) (h, ok store) = (λ z. absurd (omega arith), λ (s, q, c). cc)

  after_start_iff :
      (docker : Result (Unit {0})) (opens : Str → Result D.State) (ended : Ended)
      (r : Result Config)
      → ((after_start docker opens ended r).1 ≡ 0) ↔ (
          (cfg : Config) × (store : Option D.State) × (r ≡ ok cfg)
          × ((new D cfg docker opens).1 ≡ ok store)
          × (ended ≡ canceled))
  unfolding after_start
  after_start_iff docker opens ended (err e) =
      (λ z. absurd (omega arith), λ (cfg, store, q, made, c). cc)
  after_start_iff docker opens ended (ok cfg) = (
    λ z.
        let (store, made, c) = (after_new_iff ended (new D cfg docker opens)).0 z in
        (cfg, store, refl, made, c),
    λ (cfg', store, q, made, c).
        let same : cfg ≡ cfg' = cc in
        (after_new_iff ended (new D cfg docker opens)).1
          (store, ap (λ (x : Config). (new D x docker opens).1) same ∙ made, c),
  )

  -- Whichever way the program ends, it leaves neither the Docker client nor the pool of the token store
  -- open. It exits with 0 exactly if it accepted its configuration and its listen address, the service
  -- could be made, and its context was canceled.
  pub main_ends :
      (file : Config × Option LoadError) (listen : Str) (allow : Bool) (docker : Result (Unit {0}))
      (opens : Str → Result D.State) (ended : Ended)
      → NoneOpen D (main file listen allow docker opens ended).0
        × (((main file listen allow docker opens ended).1 ≡ 0) ↔ (
            (cfg : Config) × (store : Option D.State) × (start R file listen allow ≡ ok cfg)
            × ((new D cfg docker opens).1 ≡ ok store)
            × (ended ≡ canceled)))
  unfolding main
  main_ends file listen allow docker opens ended = (
    after_start-NoneOpen docker opens ended (start R file listen allow),
    after_start_iff docker opens ended (start R file listen allow),
  )

default-IsComplete : IsComplete default
unfolding default lit
default-IsComplete = record {
  listen = refl;
  user = refl;
  home = refl;
  port = refl;
  prefixes = cc;
  labels = cc;
  file_mode = refl;
  directory_mode = refl;
  rules = cc;
  names = (refl, tt);
}

override-IsComplete :
    (listen : Str) (allow : Bool) (cfg : Config)
    → IsComplete cfg
    → IsComplete (override listen allow cfg)
unfolding override
override-IsComplete listen allow cfg h = record {
  listen = ground arith;
  user = h.user;
  home = h.home;
  port = h.port;
  prefixes = h.prefixes;
  labels = h.labels;
  file_mode = h.file_mode;
  directory_mode = h.directory_mode;
  rules = h.rules;
  names = h.names;
}

module _ (path : Str) (P : Patterns) (unmarshal : Str → Config → Result Config) where
  default-valid : validate P default ≡ ok tt
  unfolding validate default Matching.validate validate_syncs
  default-valid = refl

  loaded-IsUsable :
      (r : Config × Option LoadError) (cfg : Config)
      → ((c : Config) → r ≡ (c, none) → IsUsable path P unmarshal c)
      → loaded r ≡ ok cfg
      → IsUsable path P unmarshal cfg
  unfolding loaded
  loaded-IsUsable (c, none) cfg usable h =
      let same : c ≡ cfg = cc in subst (IsUsable path P unmarshal) same (usable c refl)
  loaded-IsUsable (c, some not_exist) cfg usable h =
      let same : default ≡ cfg = cc in
      subst (IsUsable path P unmarshal) same
        (default-IsComplete, (validate_iff P default).0 default-valid)
  loaded-IsUsable (c, some (failed e)) cfg usable h = cc

  module _ (R : Resolver) (file : ReadFile) (listen : Str) (allow : Bool) (cfg : Config)
      (started : start R (load P unmarshal file) listen allow ≡ ok cfg) where
    start-IsUsable : IsUsable path P unmarshal cfg
    unfolding start override
    start-IsUsable =
        let (c, found, rest) = >>=-eq-ok (loaded (load P unmarshal file)) _ started in
        let (u, valid, last) =
          >>=-eq-ok
            (validate_listen R (override listen allow c).server.listen
              (override listen allow c).server.allow_non_loopback)
            _ rest in
        let same : override listen allow c ≡ cfg = ground arith in
        let usable =
          loaded-IsUsable (load P unmarshal file) c (load-IsValid P unmarshal file) found in
        subst (IsUsable path P unmarshal) same
          (override-IsComplete listen allow c usable.0, usable.1)

    -- As long as the program runs, its configuration misses nothing that it needs and is one that
    -- `Validate` accepts: whether the file could be found at the start or not, with the flags that
    -- replace parts of it, and after each change of the file, however bad, while the loops and handlers
    -- interleave.
    pub program-IsUsable :
        (O : Outside) (watching : Bool) {s u : System} {ls : List Label}
        → run O watching (new_service cfg) ≡ some s
        → Run path P unmarshal s ls u
        → IsUsable path P unmarshal u.service.cfg
    program-IsUsable O watching begun r =
        (Run-IsSound path P unmarshal O watching cfg start-IsUsable begun r).cfg
