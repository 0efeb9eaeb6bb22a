-- ===== src/Command.antt =====
-- cmd/devcontainer-manager/main.go: the start of the program. The environment, the flags and the
-- resolver are parameters.
pub mod Program
use devcontainer_manager.Config.{Config}
use devcontainer_manager.Config.Defaults.{default}
use devcontainer_manager.Config.Validation.{LoadError, not_exist, failed}
use devcontainer_manager.Base.Map.{Map, index}
use devcontainer_manager.Go.Strings.{to_lower, trim_space}
use devcontainer_manager.Go.Net.{split_host_port}
use devcontainer_manager.Base.{
  if◌then◌else◌, All, Str, lit, is_empty, ◌==◌, Result, ok, err, ◌>>=◌, >>=-eq-ok, ◌≡◌, refl, subst,
  ◌↔◌, ◌⊎◌, inl, inr, Bool, true, false, not, ◌&&◌, ◌||◌, Option, none, some, List, [], ◌∷◌, arith,
}

-- `os.Getenv(name)` in an environment is `index name`.
unfoldable pub env_or_default : Map Str → Str → Str → Str
env_or_default environment name fallback =
    let value = index name environment in if is_empty value then fallback else value

unfoldable pub env_bool : Map Str → Str → Bool
env_bool environment name =
    let value = to_lower (trim_space (index name environment)) in
    value == lit "1" || value == lit "true" || value == lit "yes"

-- `net.ParseIP`, `IP.IsLoopback` and `net.LookupIP`
pub record Resolver : Type 1 where
  pub Ip : Type 0
  pub parse_ip : Str → Option Ip
  pub is_loopback : Ip → Bool
  pub lookup_ip : Str → Result (List Ip)

module _ (R : Resolver) where
  abbrev refusal : Result (Unit {0})
  refusal = err (lit "non-loopback bindings require --allow-non-loopback")

  abbrev bind_host : Str → Str
  bind_host host = if is_empty host then lit "0.0.0.0" else host

  -- The loop over the addresses that a name resolves to.
  unfoldable pub check_resolved : Bool → List R.Ip → Result (Unit {0})
  check_resolved allow [] = ok tt
  check_resolved allow (ip ∷ ips) =
      let rest = check_resolved allow ips in
      if not (R.is_loopback ip) && not allow then refusal else rest

  unfoldable pub validate_host : Bool → Str → Option R.Ip → Result (Unit {0})
  unfolding check_resolved
  validate_host allow host (some ip) =
      if not (R.is_loopback ip) && not allow then refusal else ok tt
  validate_host allow host none = R.lookup_ip host >>= λ ips. check_resolved allow ips

  unfoldable pub validate_listen : Str → Bool → Result (Unit {0})
  unfolding validate_host
  validate_listen address allow = split_host_port address >>= λ (host, port).
      validate_host allow (bind_host host) (R.parse_ip (bind_host host))

  -- The addresses that a host stands for.
  abbrev addresses_of : Str → Option R.Ip → Result (List R.Ip)
  addresses_of host (some ip) = ok (ip ∷ [])
  addresses_of host none = R.lookup_ip host

  abbrev pub addresses : Str → Result (List R.Ip)
  addresses host = addresses_of (bind_host host) (R.parse_ip (bind_host host))

  abbrev pub AreLoopback : List R.Ip → Type 0
  AreLoopback = All (λ ip. R.is_loopback ip ≡ true)

  check_resolved_iff :
      (allow : Bool) (ips : List R.Ip)
      → (check_resolved allow ips ≡ ok tt) ↔ ((allow ≡ true) ⊎ AreLoopback ips)
  unfolding check_resolved
  check_resolved_iff allow [] = (λ h. inr tt, λ h. refl)
  check_resolved_iff allow (ip ∷ ips) = (
    λ h. ground (arith, check_resolved_iff allow ips),
    λ h. ground (arith, check_resolved_iff allow ips),
  )

  validate_host_iff :
      (allow : Bool) (host : Str) (ip : Option R.Ip)
      → (validate_host allow host ip ≡ ok tt)
        ↔ ((ips : List R.Ip) × (addresses_of host ip ≡ ok ips) × ((allow ≡ true) ⊎ AreLoopback ips))
  unfolding validate_host
  validate_host_iff allow host (some ip) =
      (λ h. (ip ∷ [], refl, ground arith), λ (ips, e, h). ground arith)
  validate_host_iff allow host none = (
    λ h.
        let (ips, found, checked) =
          >>=-eq-ok (R.lookup_ip host) (λ ips. check_resolved allow ips) h in
        (ips, found, (check_resolved_iff allow ips).0 checked),
    λ (ips, found, h). rw found ((check_resolved_iff allow ips).1 h),
  )

  -- An address to listen on is accepted exactly when it is a host and a port, the host has addresses,
  -- and either other addresses are allowed or all of them are loopback. A missing host stands for
  -- 0.0.0.0.
  pub validate_listen_iff :
      (address : Str) (allow : Bool)
      → (validate_listen address allow ≡ ok tt) ↔ (
          (host port : Str) × (ips : List R.Ip) × (split_host_port address ≡ ok (host, port))
          × (addresses host ≡ ok ips)
          × ((allow ≡ true) ⊎ AreLoopback ips))
  unfolding validate_listen
  validate_listen_iff address allow = (
    λ h.
        let ((host, port), split, checked) = >>=-eq-ok (split_host_port address) _ h in
        let (ips, found, all) =
          (validate_host_iff allow (bind_host host) (R.parse_ip (bind_host host))).0 checked in
        (host, port, ips, split, found, all),
    λ (host, port, ips, split, found, all). rw split (
        (validate_host_iff allow (bind_host host) (R.parse_ip (bind_host host))).1
          (ips, found, all)),
  )

-- The configuration that `main` goes on with, or the error with which it exits.
unfoldable pub loaded : Config × Option LoadError → Result Config
loaded (cfg, none) = ok cfg
loaded (cfg, some not_exist) = ok default
loaded (cfg, some (failed e)) = err e

unfoldable pub override : Str → Bool → Config → Config
override listen allow cfg = record cfg {
  server = record {
    listen = if is_empty listen then cfg.server.listen else listen;
    allow_non_loopback = cfg.server.allow_non_loopback || allow;
  };
}

or_true : (a b : Bool) → (a || b) ≡ true → (a ≡ true) ⊎ (b ≡ true)
or_true true b h = inl refl
or_true false b h = inr h

module _ (R : Resolver) where
  abbrev with_listen : Config → Result Config
  with_listen cfg =
      validate_listen R cfg.server.listen cfg.server.allow_non_loopback >>= λ _. ok cfg

  -- `main`, from the result of `config.Load` and the values of the flags to `app.New`.
  unfoldable pub start : Config × Option LoadError → Str → Bool → Result Config
  unfolding loaded override
  start file listen allow = loaded file >>= λ cfg. with_listen (override listen allow cfg)

  -- The addresses that a configuration binds.
  abbrev pub BindsOnly : (List R.Ip → Type 0) → Config → Type 0
  BindsOnly P cfg =
      (host port : Str) × (ips : List R.Ip) × (split_host_port cfg.server.listen ≡ ok (host, port))
      × (addresses R host ≡ ok ips)
      × P ips

  -- A started program listens on loopback addresses only, unless the flag or the configuration that it
  -- loaded allows others.
  pub start-BindsOnly :
      (file : Config × Option LoadError) (listen : Str) (allow : Bool) (cfg : Config)
      → start file listen allow ≡ ok cfg
      → (allow ≡ true)
        ⊎ ((c : Config) × (loaded file ≡ ok c) × (c.server.allow_non_loopback ≡ true))
        ⊎ BindsOnly (AreLoopback R) cfg
  unfolding start
  start-BindsOnly file listen allow cfg h =
      let (c, found, h1) = >>=-eq-ok (loaded file) _ h in
      let (u, valid, h2) =
        >>=-eq-ok
          (validate_listen R (override listen allow c).server.listen
            (override listen allow c).server.allow_non_loopback)
          _ h1 in
      let same : override listen allow c ≡ cfg = ground arith in
      let (host, port, ips, split, addressed, all) = (validate_listen_iff R _ _).0 valid in
      elim all [
        | inl allowed ↦ elim (or_true c.server.allow_non_loopback allow allowed) [
          | inl by_file ↦ inr (inl (c, found, by_file))
          | inr by_flag ↦ inl by_flag
        ]
        | inr loopback ↦ inr (
            inr (
              subst (BindsOnly (AreLoopback R)) same (host, port, ips, split, addressed, loopback)))
      ]
