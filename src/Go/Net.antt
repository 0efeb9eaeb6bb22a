-- ===== src/Go/Net.antt =====
-- Package net: `SplitHostPort` and `JoinHostPort`, over bytes.
use devcontainer_manager.Base.{
  nat_eq, if◌then◌else◌, Str, lit, Result, ok, err, ℕ, ◌≡◌, refl, Bool, false, not, ◌||◌, Option,
  none, some, [], ◌∷◌, ◌++◌,
}

unfoldable pub contains : ℕ → Str → Bool
contains c [] = false
contains c (d ∷ s) = nat_eq d c || contains c s

-- The parts before and after the last `c`: `none` where it does not occur.
unfoldable pub split_last : ℕ → Str → Option (Str × Str)
split_last c [] = none
split_last c (d ∷ s) = elim (split_last c s) [
  | some (before, after) ↦ some (d ∷ before, after)
  | none ↦ if nat_eq d c then some ([], s) else none
]

abbrev missing_port : Result (Str × Str)
missing_port = err (lit "missing port in address")

abbrev too_many_colons : Result (Str × Str)
too_many_colons = err (lit "too many colons in address")

-- An address that starts with a bracket: the host that it encloses, and what follows it.
unfoldable split_bracketed : Str → Option (Str × Str)
split_bracketed [] = none
split_bracketed (c ∷ s) =
    let rest = split_bracketed s in
    if nat_eq c b']'
    then some ([], s)
    else elim rest [ none ↦ none | some (host, after) ↦ some (c ∷ host, after) ]

bracketed : Option (Str × Str) → Result (Str × Str)
bracketed none = err (lit "missing ']' in address")
bracketed (some (host, [])) = missing_port
bracketed (some (host, c ∷ port)) =
    if not (nat_eq c b':')
    then missing_port
    else if contains b':' port
    then too_many_colons
    else if contains b'[' (host ++ port)
    then err (lit "unexpected '[' in address")
    else if contains b']' port
    then err (lit "unexpected ']' in address")
    else ok (host, port)

plain : Option (Str × Str) → Result (Str × Str)
plain none = missing_port
plain (some (host, port)) =
    if contains b':' host
    then too_many_colons
    else if contains b'[' (host ++ port)
    then err (lit "unexpected '[' in address")
    else if contains b']' (host ++ port)
    then err (lit "unexpected ']' in address")
    else ok (host, port)

-- `net.SplitHostPort(address)`. The text of an error leaves the address out.
unfoldable pub split_host_port : Str → Result (Str × Str)
unfolding bracketed plain split_bracketed split_last contains
split_host_port [] = missing_port
split_host_port (c ∷ s) =
    if not (contains b':' (c ∷ s))
    then missing_port
    else if nat_eq c b'['
    then bracketed (split_bracketed s)
    else plain (split_last b':' (c ∷ s))

-- `net.JoinHostPort(host, port)`
unfoldable pub join_host_port : Str → Str → Str
unfolding contains
join_host_port host port =
    if contains b':' host then b'[' ∷ (host ++ (lit "]:" ++ port)) else host ++ (b':' ∷ port)

net_tests :
    (split_host_port (lit "127.0.0.1:8787") ≡ ok (lit "127.0.0.1", lit "8787"))
    × (split_host_port (lit "[::1]:80") ≡ ok (lit "::1", lit "80"))
    × (split_host_port (lit ":80") ≡ ok ([], lit "80"))
    × (split_host_port (lit "::1") ≡ err (lit "too many colons in address"))
    × (split_host_port (lit "localhost") ≡ err (lit "missing port in address"))
    × (join_host_port (lit "::2") (lit "80") ≡ lit "[::2]:80")
unfolding split_host_port join_host_port lit
net_tests = (refl, refl, refl, refl, refl, refl)
