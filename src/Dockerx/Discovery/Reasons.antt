-- ===== src/Dockerx/Discovery/Reasons.antt =====
-- internal/dockerx/client.go: when `discoveryReasons` finds a reason.
use mathlib.Core.Option.{get_or}
use devcontainer_manager.Base.Map.{Map, index}
use devcontainer_manager.Go.Strings.{has_prefix}
use devcontainer_manager.Config.{DiscoveryConfig}
use devcontainer_manager.Base.{
  Bool-cases, In, here, there, Str, lit, ◌==◌, eq_iff, ◌≡◌, refl, ap, ◌≢◌, ◌↔◌, ◌⊎◌, inl, inr, true,
  List, [], ◌∷◌, ◌++◌, arith,
}
use devcontainer_manager.Dockerx.Discovery.{
  is_devcontainer_key, label_reason, include_reasons, prefix_reasons, folder_reason,
  discovery_reasons,
}

-- Why a container is taken for a devcontainer.
pub data IsDetected (name : Str) (labels : Map Str) (cfg : DiscoveryConfig) : Type 0 where
  by_folder : index (lit "devcontainer.local_folder") labels ≢ [] → IsDetected name labels cfg
  by_label :
      (key value : Str)
      → In (key, value) labels
      → is_devcontainer_key key ≡ true
      → IsDetected name labels cfg
  by_configured :
      (key value : Str)
      → In (key, value) (get_or cfg.include_labels [])
      → index key labels ≡ value
      → IsDetected name labels cfg
  by_prefix :
      (prefix : Str)
      → In prefix cfg.include_name_prefixes
      → has_prefix name prefix ≡ true
      → IsDetected name labels cfg

append_ne-nil {ℓ} : {A : Type ℓ} (xs ys : List A) → xs ++ ys ≢ [] → (xs ≢ []) ⊎ (ys ≢ [])
append_ne-nil [] ys h = inr h
append_ne-nil (x ∷ xs) ys h = inl cc

ne-nil-append_left {ℓ} : {A : Type ℓ} (xs ys : List A) → xs ≢ [] → xs ++ ys ≢ []
ne-nil-append_left [] ys h = absurd (h refl)
ne-nil-append_left (x ∷ xs) ys h = cc

ne-nil-append_right {ℓ} : {A : Type ℓ} (xs ys : List A) → ys ≢ [] → xs ++ ys ≢ []
ne-nil-append_right [] ys h = h
ne-nil-append_right (x ∷ xs) ys h = cc

folder_reason_iff :
    (labels : Map Str)
    → (folder_reason labels ≢ []) ↔ (index (lit "devcontainer.local_folder") labels ≢ [])
unfolding folder_reason
folder_reason_iff labels = (λ h. ground arith, λ h. ground arith)

label_reason_sound :
    (labels : Map Str)
    → label_reason labels ≢ []
    → (key : Str) × (value : Str) × In (key, value) labels × (is_devcontainer_key key ≡ true)
unfolding label_reason
label_reason_sound [] h = absurd (h refl)
label_reason_sound ((k, v) ∷ labels) h = elim (Bool-cases (is_devcontainer_key k)) [
  | inl fits ↦ (k, v, here refl, fits)
  | inr other ↦
      let (key, value, i, fits) = label_reason_sound labels (rw other at h) in
      (key, value, there i, fits)
]

label_reason_complete :
    (labels : Map Str) (key value : Str)
    → In (key, value) labels
    → is_devcontainer_key key ≡ true
    → label_reason labels ≢ []
unfolding label_reason
label_reason_complete [] key value i fits = elim i [ ]
label_reason_complete ((k, v) ∷ labels) key value (here e) fits =
    let same : is_devcontainer_key k ≡ true = rw (← ap (λ p. p.0) e) fits in rw same cc
label_reason_complete ((k, v) ∷ labels) key value (there i) fits =
    let later = label_reason_complete labels key value i fits in
    elim (Bool-cases (is_devcontainer_key k)) [ inl e ↦ rw e cc | inr e ↦ rw e later ]

include_reasons_sound :
    (labels rest : Map Str)
    → include_reasons labels rest ≢ []
    → (key : Str) × (value : Str) × In (key, value) rest × (index key labels ≡ value)
unfolding include_reasons
include_reasons_sound labels [] h = absurd (h refl)
include_reasons_sound labels ((k, v) ∷ rest) h = elim (Bool-cases (index k labels == v)) [
  | inl same ↦ (k, v, here refl, (eq_iff (index k labels) v).0 same)
  | inr other ↦
      let (key, value, i, same) = include_reasons_sound labels rest (rw other at h) in
      (key, value, there i, same)
]

include_reasons_complete :
    (labels rest : Map Str) (key value : Str)
    → In (key, value) rest
    → index key labels ≡ value
    → include_reasons labels rest ≢ []
unfolding include_reasons
include_reasons_complete labels [] key value i same = elim i [ ]
include_reasons_complete labels ((k, v) ∷ rest) key value (here e) same =
    let test : (index k labels == v) ≡ true =
      (eq_iff (index k labels) v).1 (rw (← ap (λ p. p.0) e, ← ap (λ p. p.1) e) same) in
    rw test cc
include_reasons_complete labels ((k, v) ∷ rest) key value (there i) same =
    let later = include_reasons_complete labels rest key value i same in
    elim (Bool-cases (index k labels == v)) [ inl e ↦ rw e cc | inr e ↦ rw e later ]

prefix_reasons_sound :
    (name : Str) (prefixes : List Str)
    → prefix_reasons name prefixes ≢ []
    → (prefix : Str) × In prefix prefixes × (has_prefix name prefix ≡ true)
unfolding prefix_reasons
prefix_reasons_sound name [] h = absurd (h refl)
prefix_reasons_sound name (p ∷ ps) h = elim (Bool-cases (has_prefix name p)) [
  | inl fits ↦ (p, here refl, fits)
  | inr other ↦
      let (prefix, i, fits) = prefix_reasons_sound name ps (rw other at h) in
      (prefix, there i, fits)
]

prefix_reasons_complete :
    (name : Str) (prefixes : List Str) (prefix : Str)
    → In prefix prefixes
    → has_prefix name prefix ≡ true
    → prefix_reasons name prefixes ≢ []
unfolding prefix_reasons
prefix_reasons_complete name [] prefix i fits = elim i [ ]
prefix_reasons_complete name (p ∷ ps) prefix (here e) fits =
    let same : has_prefix name p ≡ true = rw (← e) fits in rw same cc
prefix_reasons_complete name (p ∷ ps) prefix (there i) fits =
    let later = prefix_reasons_complete name ps prefix i fits in
    elim (Bool-cases (has_prefix name p)) [ inl e ↦ rw e cc | inr e ↦ rw e later ]

module _ (name : Str) (labels : Map Str) (cfg : DiscoveryConfig) where
  abbrev included : Map Str
  included = get_or cfg.include_labels []

  reasons_detect : discovery_reasons name labels cfg ≢ [] → IsDetected name labels cfg
  unfolding discovery_reasons
  reasons_detect h = elim (append_ne-nil (folder_reason labels) _ h) [
    | inl a ↦ by_folder ((folder_reason_iff labels).0 a)
    | inr b ↦ elim (append_ne-nil (label_reason labels) _ b) [
      | inl c ↦ let (key, value, i, fits) = label_reason_sound labels c in by_label key value i fits
      | inr d ↦ elim (append_ne-nil (include_reasons labels included) _ d) [
        | inl e ↦
            let (key, value, i, same) = include_reasons_sound labels included e in
            by_configured key value i same
        | inr f ↦
            let (prefix, i, fits) = prefix_reasons_sound name cfg.include_name_prefixes f in
            by_prefix prefix i fits
      ]
    ]
  ]

  detected_has_reasons : IsDetected name labels cfg → discovery_reasons name labels cfg ≢ []
  unfolding discovery_reasons
  detected_has_reasons (by_folder h) =
      ne-nil-append_left (folder_reason labels) _ ((folder_reason_iff labels).1 h)
  detected_has_reasons (by_label key value i fits) =
      ne-nil-append_right (folder_reason labels) _
        (ne-nil-append_left (label_reason labels) _ (label_reason_complete labels key value i fits))
  detected_has_reasons (by_configured key value i same) =
      ne-nil-append_right (folder_reason labels) _ (
        ne-nil-append_right (label_reason labels) _ (
          ne-nil-append_left (include_reasons labels included) _
            (include_reasons_complete labels included key value i same)))
  detected_has_reasons (by_prefix prefix i fits) = ne-nil-append_right (folder_reason labels) _ (
      ne-nil-append_right (label_reason labels) _ (
        ne-nil-append_right (include_reasons labels included) _
          (prefix_reasons_complete name cfg.include_name_prefixes prefix i fits)))

  -- There is a reason to take a container for a devcontainer exactly when its local folder label is
  -- set, or another of its labels begins with "devcontainer.", or it has a configured label with the
  -- configured value (a missing label has the empty value), or its name has a configured prefix. The
  -- order in which the maps are visited does not matter.
  pub discovery_reasons_iff : (discovery_reasons name labels cfg ≢ []) ↔ IsDetected name labels cfg
  discovery_reasons_iff = (reasons_detect, detected_has_reasons)
