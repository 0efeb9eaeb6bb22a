-- ===== src/Dockerx/Api.antt =====
-- internal/dockerx/client.go: `Events` and `TarEmptyDir`: what they ask of the Docker API and of
-- archive/tar, which are parameters.
use devcontainer_manager.Base.{Str, lit, Result, ok, err, ℕ, Bool, true, List, [], ◌∷◌, ◌++◌}
use devcontainer_manager.Go.Strings.{trim_prefix}

-- The calls of `Add` on `filters.Args`, in order.
abbrev pub Filters : Type 0
Filters = List (Str × Str)

unfoldable pub add_events : List Str → Filters → Filters
add_events [] args = args
add_events (action ∷ actions) args = add_events actions (args ++ (lit "event", action) ∷ [])

-- `Events`, from the call of the API with the filters.
unfoldable pub events : {A : Type 0} → (Filters → A) → A
unfolding add_events
events subscribe = subscribe (
    add_events (lit "start" ∷ lit "die" ∷ lit "destroy" ∷ lit "restart" ∷ [])
      ((lit "type", lit "container") ∷ []))

-- `tar.Header`
pub record TarHeader : Type 0 where
  pub name : Str
  pub is_dir : Bool
  pub mode : ℕ

-- `tar.Writer` over a buffer.
pub record TarWriter : Type 1 where
  pub State : Type 0
  pub new_writer : State
  pub write_header : TarHeader → State → State × Result (Unit {0})
  pub close : State → State × Result (Unit {0})
  pub bytes : State → Str

module _ (T : TarWriter) where
  abbrev after_close : T.State × Result (Unit {0}) → Result Str
  after_close (s, err e) = err e
  after_close (s, ok _) = ok (T.bytes s)

  abbrev after_header : T.State × Result (Unit {0}) → Result Str
  after_header (s, err e) = err e
  after_header (s, ok _) = after_close (T.close s)

  -- `TarEmptyDir`; 493 is 0o755.
  unfoldable pub tar_empty_dir : Str → Result Str
  tar_empty_dir path = after_header (
      T.write_header (record { name = trim_prefix path (lit "/"); is_dir = true; mode = 493 })
        T.new_writer)
