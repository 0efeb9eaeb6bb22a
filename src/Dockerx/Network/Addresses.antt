-- ===== src/Dockerx/Network/Addresses.antt =====
-- internal/dockerx/client.go: the address that `containerIP` finds among the networks of a container.
use devcontainer_manager.Base.Map
use devcontainer_manager.Base.Map.{Map}
use devcontainer_manager.Dockerx.{Endpoint, NetworkSettings, Inspect}
use devcontainer_manager.Dockerx.Network.{
  endpoint_by_id, found_endpoint, unless_empty, endpoint_in, network_endpoint, first_ip, ip_in,
  container_ip,
}
use devcontainer_manager.Base.{
  Bool-cases, Option-cases, All, In, here, there, Str, is_empty, ◌==◌, eq_iff, ◌≡◌, refl, sym, ap,
  ◌∙◌, subst, ◌≢◌, ◌⊎◌, inl, inr, true, false, Option, none, some, [], ◌∷◌, arith,
}

-- The endpoint is not nil.
abbrev pub IsPresent : Str × Option Endpoint → Type 0
IsPresent p = p.1 ≢ none

-- The endpoint is that of the network with this name or id.
abbrev pub IsOn : Map (Option Endpoint) → Str → Endpoint → Type 0
IsOn networks network e =
    (name : Str) × In (name, some e) networks × ((name ≡ network) ⊎ (e.network_id ≡ network))

-- The first address that is not empty stands between these two parts of the networks.
abbrev HasNoAddress : Str × Option Endpoint → Type 0
HasNoAddress (name, none) = Unit
HasNoAddress (name, some e) = is_empty e.ip_address ≡ true

-- The first network that has an address has this one.
pub data IsFirstAddress (ip : Str) : Map (Option Endpoint) → Type 0 where
  stands :
      {name : Str} {e : Endpoint} {networks : Map (Option Endpoint)}
      → is_empty e.ip_address ≡ false
      → e.ip_address ≡ ip
      → IsFirstAddress ip ((name, some e) ∷ networks)
  skipped :
      {p : Str × Option Endpoint} {networks : Map (Option Endpoint)}
      → HasNoAddress p
      → IsFirstAddress ip networks
      → IsFirstAddress ip (p ∷ networks)

first_ip_cases :
    (networks : Map (Option Endpoint)) (fallback : Str)
    → All IsPresent networks
    → (ip : Str) × (first_ip networks fallback ≡ some ip)
      × (IsFirstAddress ip networks ⊎ (All HasNoAddress networks × (ip ≡ fallback)))
unfolding first_ip
first_ip_cases [] fallback h = (fallback, refl, inr (tt, refl))
first_ip_cases ((n, none) ∷ networks) fallback (h, hs) = absurd (h refl)
first_ip_cases ((n, some e) ∷ networks) fallback (h, hs) =
    elim (Bool-cases (is_empty e.ip_address)) [
      | inr set ↦ (e.ip_address, rw set refl, inl (stands set refl))
      | inl unset ↦
          let (ip, result, origin) = first_ip_cases networks fallback hs in
          (
            ip,
            rw unset result,
            elim origin [
              | inl first ↦ inl (skipped unset first)
              | inr (empty, same) ↦ inr ((unset, empty), same)
            ],
          )
    ]

by_id-IsOn :
    (networks : Map (Option Endpoint)) (id : Str) (e : Endpoint)
    → endpoint_by_id networks id ≡ some e
    → IsOn networks id e
unfolding endpoint_by_id
by_id-IsOn [] id e h = cc
by_id-IsOn ((n, none) ∷ networks) id e h =
    let (m, i, same) = by_id-IsOn networks id e h in (m, there i, same)
by_id-IsOn ((n, some d) ∷ networks) id e h = elim (Bool-cases (d.network_id == id)) [
  | inl on ↦
      let same : d ≡ e = ground arith in
      (
        n,
        here (ap (λ (x : Endpoint). (n, some x)) (sym same)),
        inr (ap (λ (x : Endpoint). x.network_id) (sym same) ∙ (eq_iff d.network_id id).0 on),
      )
  | inr off ↦ let (m, i, same) = by_id-IsOn networks id e (rw off at h) in (m, there i, same)
]

lookup-In {ℓ} : {V : Type ℓ} (k : Str) (m : Map V) (v : V) → Map.lookup k m ≡ some v → In (k, v) m
unfolding Map.lookup
lookup-In k [] v h = cc
lookup-In k ((j, w) ∷ m) v h = elim (Bool-cases (j == k)) [
  | inl on ↦
      let same : w ≡ v = ground arith in
      let key : j ≡ k = (eq_iff j k).0 on in
      here (ap (λ x. (x, v)) (sym key) ∙ ap (λ x. (j, x)) (sym same))
  | inr off ↦ there (lookup-In k m v (rw off at h))
]

endpoint_in-IsOn :
    (networks : Map (Option Endpoint)) (network : Str) (e : Endpoint)
    → endpoint_in networks network network ≡ some e
    → IsOn networks network e
unfolding endpoint_in
endpoint_in-IsOn networks network e h =
    elim (Option-cases (unless_empty network (found_endpoint (Map.lookup network networks)))) [
      | inl missed ↦ by_id-IsOn networks network e (ground arith)
      | inr (d, there_is) ↦
          let i = lookup-In network networks (some d) (ground arith) in
          let same : d ≡ e = ground arith in
          (network, subst (λ (x : Endpoint). In (network, some x) networks) same i, inl refl)
    ]

by_id-found :
    (networks : Map (Option Endpoint)) (id name : Str) (e : Endpoint)
    → In (name, some e) networks
    → e.network_id ≡ id
    → endpoint_by_id networks id ≢ none
unfolding endpoint_by_id
by_id-found [] id name e i same h = elim i [ ]
by_id-found ((n, none) ∷ networks) id name e (here p) same h =
    let apart : none ≡ some e = ap (λ x. x.1) (sym p) in cc
by_id-found ((n, none) ∷ networks) id name e (there i) same h =
    by_id-found networks id name e i same h
by_id-found ((n, some d) ∷ networks) id name e (here p) same h =
    let alike : e ≡ d = cc (ap (λ x. x.1) p) in
    let on : (d.network_id == id) ≡ true =
      (eq_iff d.network_id id).1 (ap (λ (x : Endpoint). x.network_id) (sym alike) ∙ same) in
    cc (rw on at h)
by_id-found ((n, some d) ∷ networks) id name e (there i) same h =
    elim (Bool-cases (d.network_id == id)) [
      | inl on ↦ cc (rw on at h)
      | inr off ↦ by_id-found networks id name e i same (rw off at h)
    ]

lookup-found {ℓ} : {V : Type ℓ} (k : Str) (m : Map V) (v : V) → In (k, v) m → Map.lookup k m ≢ none
unfolding Map.lookup
lookup-found k [] v i h = elim i [ ]
lookup-found k ((j, w) ∷ m) v (here p) h =
    let on : (j == k) ≡ true = (eq_iff j k).1 (ap (λ x. x.0) (sym p)) in cc (rw on at h)
lookup-found k ((j, w) ∷ m) v (there i) h = elim (Bool-cases (j == k)) [
  | inl on ↦ cc (rw on at h)
  | inr off ↦ lookup-found k m v i (rw off at h)
]

-- Where no endpoint is found, the container is not on the network.
endpoint_in-none :
    (networks : Map (Option Endpoint)) (network : Str)
    → All IsPresent networks
    → is_empty network ≡ false
    → endpoint_in networks network network ≡ none
    → (e : Endpoint) → IsOn networks network e
    → ⊥
unfolding endpoint_in
endpoint_in-none networks network present set h e (name, i, inr same) =
    by_id-found networks network name e i same (ground arith)
endpoint_in-none networks network present set h e (name, i, inl same) =
    elim (Option-cases (Map.lookup network networks)) [
      | inl missed ↦
          lookup-found network networks (some e) (subst (λ n. In (n, some e) networks) same i)
            missed
      | inr (none, found) ↦ Map.lookup-All IsPresent network networks none present found refl
      | inr (some d, found) ↦ absurd (cc (rw (set, found) at h))
    ]

-- The preferred network gives no address: none is preferred, the container is not on it, or has no
-- address there.
abbrev HasNoPreferred : NetworkSettings → Str → Type 0
HasNoPreferred s preferred =
    (is_empty preferred ≡ true)
    ⊎ ((e : Endpoint) × IsOn s.networks preferred e × (is_empty e.ip_address ≡ true))
    ⊎ ((e : Endpoint) → IsOn s.networks preferred e → ⊥)

-- The address that `containerIP` is to find: that on the preferred network, where there is one; else the
-- first one among the networks; else the one outside of them.
pub data IsAddress (s : NetworkSettings) (preferred : Str) : Str → Type 0 where
  on_preferred :
      (e : Endpoint)
      → is_empty preferred ≡ false
      → IsOn s.networks preferred e
      → is_empty e.ip_address ≡ false
      → IsAddress s preferred e.ip_address
  among :
      (ip : Str)
      → HasNoPreferred s preferred
      → IsFirstAddress ip s.networks
      → IsAddress s preferred ip
  outside :
      HasNoPreferred s preferred → All HasNoAddress s.networks → IsAddress s preferred s.ip_address

module _ (s : NetworkSettings) (preferred : Str) where
  -- Where the endpoint of the preferred network has an address, it is the result.
  ip_in-preferred :
      (e : Endpoint)
      → is_empty preferred ≡ false
      → endpoint_in s.networks preferred preferred ≡ some e
      → is_empty e.ip_address ≡ false
      → ip_in s preferred ≡ some e.ip_address
  unfolding ip_in
  ip_in-preferred e p found set = rw (p, found, set) refl

  others-IsAddress :
      All IsPresent s.networks
      → HasNoPreferred s preferred
      → (ip : Str) × (first_ip s.networks s.ip_address ≡ some ip) × IsAddress s preferred ip
  others-IsAddress present free =
      let (ip, found, origin) = first_ip_cases s.networks s.ip_address present in
      (
        ip,
        found,
        elim origin [
          | inl first ↦ among ip free first
          | inr (empty, same) ↦ subst (IsAddress s preferred) (sym same) (outside free empty)
        ],
      )

  ip_in-IsAddress :
      All IsPresent s.networks
      → (ip : Str) × (ip_in s preferred ≡ some ip) × IsAddress s preferred ip
  unfolding ip_in
  ip_in-IsAddress present = elim (Bool-cases (is_empty preferred)) [
    | inl unset ↦ rw unset (others-IsAddress present (inl unset))
    | inr set ↦ elim (Option-cases (endpoint_in s.networks preferred preferred)) [
      | inl missed ↦
          rw (set, missed)
            (others-IsAddress present
              (inr (inr (endpoint_in-none s.networks preferred present set missed))))
      | inr (e, found) ↦
          let on = endpoint_in-IsOn s.networks preferred e found in
          elim (Bool-cases (is_empty e.ip_address)) [
            | inl empty ↦
                rw (set, found, empty) (others-IsAddress present (inr (inl (e, on, empty))))
            | inr full ↦ rw (set, found, full) (e.ip_address, refl, on_preferred e set on full)
          ]
    ]
  ]

-- Where no endpoint is nil, an address is found: that on the preferred network, if one is preferred and the
-- container is on it, by its name or its id, with an address; else the first address that is not empty
-- in the order in which the networks are visited; else the one outside of the networks.
pub container_ip-IsAddress :
    (inspect : Inspect) (preferred : Str) (s : NetworkSettings)
    → inspect.network_settings ≡ some s
    → All IsPresent s.networks
    → (ip : Str) × (container_ip inspect preferred ≡ some ip) × IsAddress s preferred ip
container_ip-IsAddress inspect preferred s has present =
    let same : container_ip inspect preferred ≡ ip_in s preferred =
      unfold container_ip in rw (has, container_ip) refl in
    let (ip, found, origin) = ip_in-IsAddress s preferred present in (ip, same ∙ found, origin)

-- The address on the preferred network is the one that is found, if the container is on that network
-- and has an address there.
pub container_ip-network_endpoint :
    (inspect : Inspect) (preferred : Str) (s : NetworkSettings) (e : Endpoint)
    → inspect.network_settings ≡ some s
    → is_empty preferred ≡ false
    → network_endpoint inspect preferred preferred ≡ some e
    → is_empty e.ip_address ≡ false
    → container_ip inspect preferred ≡ some e.ip_address
container_ip-network_endpoint inspect preferred s e has p q set =
    let same : container_ip inspect preferred ≡ ip_in s preferred =
      unfold container_ip in rw (has, container_ip) refl in
    let same_endpoint : network_endpoint inspect preferred preferred
        ≡ endpoint_in s.networks preferred preferred =
      unfold network_endpoint in rw (has, network_endpoint) refl in
    same ∙ ip_in-preferred s preferred e p (sym same_endpoint ∙ q) set
