-- ===== src/Dockerx/Network.antt =====
-- internal/dockerx/client.go: `networkEndpoint`, `containerIP`, `containerConnectedToNetwork` and
-- `ensureConnectedToNetwork`.
--
-- `none` as the result of `container_ip` is the panic of a nil endpoint.
pub mod Addresses
use devcontainer_manager.Base.Map
use devcontainer_manager.Base.Map.{Map}
use devcontainer_manager.Go.Strings.{trim_space}
use devcontainer_manager.Dockerx.{
  Endpoint, NetworkSettings, Inspect, Connection, Connections, Daemon,
}
use devcontainer_manager.Base.{
  if◌then◌else◌, Bool-cases, Str, is_empty, ◌==◌, Result, ok, err, ◌≡◌, refl, ◌⊎◌, inl, inr, Bool,
  true, false, not, ◌||◌, Option, none, some, [], ◌∷◌,
}

-- The loop over the endpoints by the id of their network.
unfoldable pub endpoint_by_id : Map (Option Endpoint) → Str → Option Endpoint
endpoint_by_id [] id = none
endpoint_by_id ((_, none) ∷ networks) id = endpoint_by_id networks id
endpoint_by_id ((_, some e) ∷ networks) id =
    let rest = endpoint_by_id networks id in if e.network_id == id then some e else rest

abbrev pub found_endpoint : Option (Option Endpoint) → Option Endpoint
found_endpoint none = none
found_endpoint (some e) = e

abbrev or_else {ℓ} : {A : Type ℓ} → Option A → Option A → Option A
or_else (some a) b = some a
or_else none b = b

abbrev pub unless_empty {ℓ} : {A : Type ℓ} → Str → Option A → Option A
unless_empty s a = if is_empty s then none else a

unfoldable pub endpoint_in : Map (Option Endpoint) → Str → Str → Option Endpoint
unfolding endpoint_by_id
endpoint_in networks name id =
    or_else (unless_empty name (found_endpoint (Map.lookup name networks)))
      (unless_empty id (endpoint_by_id networks id))

abbrev networks_of : Option NetworkSettings → Map (Option Endpoint)
networks_of none = []
networks_of (some s) = s.networks

-- `networkEndpoint`
unfoldable pub network_endpoint : Inspect → Str → Str → Option Endpoint
unfolding endpoint_in
network_endpoint inspect name id = elim inspect.network_settings [
  | none ↦ none
  | some s ↦ endpoint_in s.networks name id
]

abbrev pub is_some {ℓ} : {A : Type ℓ} → Option A → Bool
is_some none = false
is_some (some _) = true

-- `containerConnectedToNetwork`
unfoldable pub connected_to_network : Inspect → Str → Str → Bool
connected_to_network inspect name id = is_some (network_endpoint inspect name id)

-- The loop of `containerIP`, which reads a field of each endpoint.
unfoldable pub first_ip : Map (Option Endpoint) → Str → Option Str
first_ip [] fallback = some fallback
first_ip ((_, none) ∷ networks) fallback = none
first_ip ((_, some e) ∷ networks) fallback =
    let rest = first_ip networks fallback in
    if not (is_empty e.ip_address) then some e.ip_address else rest

abbrev pub preferred_ip : Option Endpoint → Option Str
preferred_ip none = none
preferred_ip (some e) = unless_empty e.ip_address (some e.ip_address)

unfoldable pub ip_in : NetworkSettings → Str → Option Str
unfolding first_ip
ip_in s preferred =
    or_else (unless_empty preferred (preferred_ip (endpoint_in s.networks preferred preferred)))
      (first_ip s.networks s.ip_address)

-- `containerIP`
unfoldable pub container_ip : Inspect → Str → Option Str
unfolding ip_in
container_ip inspect preferred = elim inspect.network_settings [
  | none ↦ some []
  | some s ↦ ip_in s preferred
]

-- The results of `ensureConnectedToNetwork`; `error` is `none` where it is nil.
pub record Ensured : Type 0 where
  pub inspect : Inspect
  pub connected : Bool
  pub error : Option Str

module _ (D : Daemon) (inspect : Inspect) where
  abbrev unchanged : Option Str → Ensured
  unchanged e = record { inspect = inspect; connected = false; error = e }

  -- After a call of `NetworkConnect` that failed.
  unfoldable pub after_failure : Str → Str → Str → Result Inspect → Ensured
  after_failure name id e (ok refreshed) =
      if connected_to_network refreshed name id
      then record { inspect = refreshed; connected = true; error = none }
      else unchanged (some e)
  after_failure name id e (err _) = unchanged (some e)

  unfoldable pub after_success : Result Inspect → Ensured
  after_success (ok refreshed) = record { inspect = refreshed; connected = true; error = none }
  after_success (err _) = record { inspect = inspect; connected = true; error = none }

  unfoldable pub after_connect : Str → Str → Result (Unit {0}) → Result Inspect → Ensured
  unfolding after_failure after_success
  after_connect name id (err e) again = after_failure name id e again
  after_connect name id (ok _) again = after_success again

  unfoldable pub connect : Str → Str → Connections → Connections × Ensured
  unfolding after_connect
  connect name id cs =
      let call : Connection = record { network = id; container = inspect.id } in
      (
        call ∷ cs,
        after_connect name id (D.network_connect cs call)
            (D.container_inspect (call ∷ cs) inspect.id),
      )

  unfoldable pub connect_known : Str → Result Str → Connections → Connections × Ensured
  unfolding connect
  connect_known name (err e) cs = (cs, unchanged (some e))
  connect_known name (ok id) cs =
      if connected_to_network inspect name id then (cs, unchanged none) else connect name id cs

  unfoldable pub ensure_connected_to_network : Str → Connections → Connections × Ensured
  unfolding connect_known
  ensure_connected_to_network network cs =
      let name = trim_space network in
      if is_empty name || is_empty inspect.id
      then (cs, unchanged none)
      else connect_known name (D.network_inspect cs name) cs

  -- A connection is asked for at most once, and only of a network that the daemon knows and that the
  -- container is not on.
  pub record IsNeeded (network : Str) (cs : Connections) (call : Connection) : Type 0 where
    pub container : call.container ≡ inspect.id
    pub known : D.network_inspect cs (trim_space network) ≡ ok call.network
    pub apart : connected_to_network inspect (trim_space network) call.network ≡ false

  known_cases :
      (network : Str) (r : Result Str) (cs : Connections)
      → D.network_inspect cs (trim_space network) ≡ r
      → ((connect_known (trim_space network) r cs).0 ≡ cs)
        ⊎ ((call : Connection) × ((connect_known (trim_space network) r cs).0 ≡ call ∷ cs)
            × IsNeeded network cs call)
  unfolding connect_known
  known_cases network (err e) cs h = inl refl
  known_cases network (ok id) cs h =
      elim (Bool-cases (connected_to_network inspect (trim_space network) id)) [
        | inl on ↦ inl (rw on refl)
        | inr off ↦ inr (
          record { network = id; container = inspect.id },
          rw off refl,
          record { container = refl; known = h; apart = off },
        )
      ]

  -- `ensureConnectedToNetwork` calls `NetworkConnect` at most once, and only for its container and for
  -- a network that the daemon resolves and that the container is not on yet.
  pub ensure_connected_cases :
      (network : Str) (cs : Connections)
      → ((ensure_connected_to_network network cs).0 ≡ cs)
        ⊎ ((call : Connection) × ((ensure_connected_to_network network cs).0 ≡ call ∷ cs)
            × IsNeeded network cs call)
  unfolding ensure_connected_to_network
  ensure_connected_cases network cs =
      elim (Bool-cases (is_empty (trim_space network) || is_empty inspect.id)) [
        | inl off ↦ inl (rw off refl)
        | inr on ↦ rw on (known_cases network _ cs refl)
      ]
