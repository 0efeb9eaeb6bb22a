-- ===== src/Dockerx/Discovery.antt =====
-- internal/dockerx/client.go: `discoveryReasons`, `workspaceFolder`, `parseMetadata`,
-- `metadataString`, `shortID`. JSON decoding is a parameter.
pub mod Reasons
use mathlib.Core.Option.{get_or}
use devcontainer_manager.Base.Map
use devcontainer_manager.Base.Map.{Map, index}
use devcontainer_manager.Base.Json.{Json, as_string}
use devcontainer_manager.Go.Strings.{has_prefix}
use devcontainer_manager.Config.{DiscoveryConfig}
use devcontainer_manager.Base.{
  leb, if◌then◌else◌, Bool-cases, length, take, In, here, there, Str, lit, is_empty, ◌==◌, eq_iff,
  Result, ok, err, ◌≡◌, refl, ap, ◌≢◌, ◌↔◌, ◌⊎◌, inl, inr, Bool, true, not, ◌&&◌, none, some, List,
  [], ◌∷◌, ◌++◌, reverse, arith,
}

abbrev pub is_devcontainer_key : Str → Bool
is_devcontainer_key key =
    has_prefix key (lit "devcontainer.") && not (key == lit "devcontainer.local_folder")

-- The loop over the labels, which stops at the first such key.
label_reason : Map Str → List Str
label_reason [] = []
label_reason ((key, _) ∷ labels) =
    let rest = label_reason labels in if is_devcontainer_key key then key ∷ [] else rest

include_reasons : Map Str → Map Str → List Str
include_reasons labels [] = []
include_reasons labels ((key, value) ∷ rest) =
    let more = include_reasons labels rest in
    if index key labels == value then (lit "configured-label:" ++ key) ∷ more else more

prefix_reasons : Str → List Str → List Str
prefix_reasons name [] = []
prefix_reasons name (prefix ∷ rest) =
    let more = prefix_reasons name rest in
    if has_prefix name prefix then (lit "name-prefix:" ++ prefix) ∷ more else more

unfoldable pub folder_reason : Map Str → List Str
folder_reason labels =
    if not (is_empty (index (lit "devcontainer.local_folder") labels))
    then lit "devcontainer.local_folder" ∷ []
    else []

unfoldable pub discovery_reasons : Str → Map Str → DiscoveryConfig → List Str
unfolding folder_reason label_reason include_reasons prefix_reasons
discovery_reasons name labels cfg =
    folder_reason labels
    ++ (label_reason labels
        ++ (include_reasons labels (get_or cfg.include_labels [])
            ++ prefix_reasons name cfg.include_name_prefixes))

-- `workspaceFolder`
unfoldable pub workspace_folder : Map Str → Str
workspace_folder labels =
    let folder = index (lit "devcontainer.workspace_folder") labels in
    if not (is_empty folder) then folder else index (lit "devcontainer.local_folder") labels

-- `shortID`
unfoldable pub short_id : Str → Str
short_id id = if leb (length id) 12 then id else take 12 id

-- `json.Unmarshal` into a list of objects and into one object
pub record Decoder : Type 0 where
  pub array : Str → Result (List (Map Json))
  pub single : Str → Result (Map Json)

abbrev or_single : Result (Map Json) → List (Map Json)
or_single (ok single) = single ∷ []
or_single (err _) = []

abbrev or_array : Result (List (Map Json)) → Result (Map Json) → List (Map Json)
or_array (ok array) single = array
or_array (err _) single = or_single single

unfoldable pub parse_metadata : Decoder → Str → List (Map Json)
parse_metadata d raw = if is_empty raw then [] else or_array (d.array raw) (d.single raw)

-- A key's value, where it is a string: the empty string else.
abbrev pub string_at : Str → Map Json → Str
string_at key m = elim (Map.lookup key m) [ none ↦ [] | some v ↦ get_or (as_string v) [] ]

first_string : List (Map Json) → Str → Str
first_string [] key = []
first_string (m ∷ ms) key =
    let rest = first_string ms key in
    if not (is_empty (string_at key m)) then string_at key m else rest

-- `metadataString`: the loop runs from the last entry to the first.
unfoldable pub metadata_string : List (Map Json) → Str → Str
unfolding first_string
metadata_string metadata key = first_string (reverse metadata) key
