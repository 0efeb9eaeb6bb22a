-- ===== src/App/Start.antt =====
-- internal/app/service.go: `New`, and the end of `Run`: what is opened, and what is closed again.
use devcontainer_manager.Config.{Config}
use devcontainer_manager.T3.Store.{
  Database, Handle, never_opened, held, closed, initialized, new_postgres_store,
}
use devcontainer_manager.Base.{
  if◌then◌else◌, Bool-cases, Str, is_empty, Result, ok, err, ◌≡◌, refl, ◌≢◌, inl, inr, Option, none,
  some, arith,
}

-- The Docker client, and the pool of the token store.
pub record Handles : Type 0 where
  pub docker : Handle
  pub pool : Handle

-- Why `Run` returns: its context is done, or the server failed.
pub data Ended : Type 0 where
  canceled : Ended
  server_failed : Str → Ended

-- `Close`
abbrev pub close : Handle → Handle
close held = closed
close h = h

-- What the deferred calls of `Run` leave. A nil token store is not closed.
unfoldable pub close_all : Handles → Handles
close_all h = record { docker = close h.docker; pool = close h.pool }

module _ (D : Database) where
  abbrev Made : Type 0
  Made = Result (Option D.State)

  abbrev some_store : Handle × Result D.State → Handle × Made
  some_store (h, err e) = (h, err e)
  some_store (h, ok s) = (h, ok (some s))

  -- The token store that a configuration asks for.
  unfoldable pub open_store : (Str → Result D.State) → Str → Handle × Made
  open_store opens url =
      if is_empty url
      then (never_opened, ok none)
      else some_store (new_postgres_store D (opens url))

  unfoldable pub after_store : Handle × Made → Handles × Made
  after_store (pool, err e) = (record { docker = close held; pool = pool }, err e)
  after_store (pool, ok store) = (record { docker = held; pool = pool }, ok store)

  -- `New`, from the results of `client.NewClientWithOpts` and of `pgxpool.New`.
  unfoldable pub new : Config → Result (Unit {0}) → (Str → Result D.State) → Handles × Made
  unfolding open_store after_store
  new cfg (err e) opens = (record { docker = never_opened; pool = never_opened }, err e)
  new cfg (ok _) opens = after_store (open_store opens cfg.pairing_tokens.postgres_url)

  abbrev pub NoneOpen : Handles → Type 0
  NoneOpen h = (h.docker ≢ held) × (h.pool ≢ held)

  close-ne-held : (h : Handle) → close h ≢ held
  close-ne-held never_opened = cc
  close-ne-held held = cc
  close-ne-held closed = cc

  pub close_all-NoneOpen : (h : Handles) → NoneOpen (close_all h)
  unfolding close_all
  close_all-NoneOpen h = (close-ne-held h.docker, close-ne-held h.pool)

  initialized-error :
      (p : D.State × Result (Unit {0})) (e : Str)
      → (initialized p).1 ≡ err e
      → (initialized p).0 ≢ held
  unfolding initialized
  initialized-error (s, err m) e h = cc
  initialized-error (s, ok _) e h = cc

  store-error :
      (r : Result D.State) (e : Str)
      → (some_store (new_postgres_store D r)).1 ≡ err e
      → (some_store (new_postgres_store D r)).0 ≢ held
  unfolding new_postgres_store
  store-error (err m) e h = cc
  store-error (ok s) e h = from (initialized (D.create s)) (initialized-error (D.create s)) h
    where
      from :
          (p : Handle × Result D.State)
          → ((m : Str) → p.1 ≡ err m → p.0 ≢ held)
          → (some_store p).1 ≡ err e
          → (some_store p).0 ≢ held
      from (h, err m) k q = k m refl
      from (h, ok t) k q = cc

  after_store-NoneOpen :
      (p : Handle × Made) (e : Str)
      → (p.1 ≡ err e → p.0 ≢ held)
      → (after_store p).1 ≡ err e
      → NoneOpen (after_store p).0
  unfolding after_store
  after_store-NoneOpen (h, err m) e k q = (cc, k q)
  after_store-NoneOpen (h, ok store) e k q = cc

  -- A `New` that fails leaves nothing open.
  pub new-NoneOpen :
      (cfg : Config) (docker : Result (Unit {0})) (opens : Str → Result D.State) (e : Str)
      → (new cfg docker opens).1 ≡ err e
      → NoneOpen (new cfg docker opens).0
  unfolding new open_store
  new-NoneOpen cfg (err m) opens e h = (cc, cc)
  new-NoneOpen cfg (ok _) opens e h = elim (Bool-cases (is_empty cfg.pairing_tokens.postgres_url)) [
    | inl unset ↦ absurd (ground arith)
    | inr set ↦ after_store-NoneOpen _ e (rw set (store-error (opens _) e)) h
  ]
