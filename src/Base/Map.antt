-- ===== src/Base/Map.antt =====
-- Go's `map[string]V` as an association list: the order of the list is an order in which `range`
-- may visit the map, which Go leaves open. Other modules use the map through the laws below.
use mathlib.Core.Path.{◌≡◌, refl, subst}
use mathlib.Core.Bool.{Bool, false}
use mathlib.Core.Option.{Option, none, some, get_or}
use mathlib.Core.List.{List, [], ◌∷◌}
use native.Mathlib.Omega.{arith}
use mathlib.Core.Logic.{inl, inr}
use devcontainer_manager.Base.Tests.{if◌then◌else◌, Bool-cases}
use devcontainer_manager.Base.Bytes.{Str, ◌==◌, eq_iff}
use devcontainer_manager.Base.Lists.{All}

abbrev pub Map {ℓ} : Type ℓ → Type ℓ
Map V = List (Str × V)

module _ {ℓ} {V : Type ℓ} where
  -- `v, ok := m[key]`
  unfoldable pub lookup : Str → Map V → Option V
  lookup key [] = none
  lookup key ((other, value) ∷ rest) = if other == key then some value else lookup key rest

  -- `m[key] = value`
  unfoldable pub insert : Str → V → Map V → Map V
  insert key value [] = (key, value) ∷ []
  insert key value ((other, old) ∷ rest) =
      if other == key then (key, value) ∷ rest else (other, old) ∷ insert key value rest

  -- `for k, v := range m { if drop(v) { delete(m, k) } }`
  unfoldable pub delete_where : (V → Bool) → Map V → Map V
  delete_where drop_it [] = []
  delete_where drop_it ((j, w) ∷ m) =
      let rest = delete_where drop_it m in if drop_it w then rest else (j, w) ∷ rest

  -- `delete(m, k)`
  unfoldable pub delete : Str → Map V → Map V
  delete k [] = []
  delete k ((j, w) ∷ m) = let rest = delete k m in if j == k then rest else (j, w) ∷ rest

  pub lookup-nil : (k : Str) → lookup k [] ≡ none
  unfolding lookup
  lookup-nil k = refl

  pub lookup-insert :
      (key asked : Str) (value : V) (entries : Map V)
      → lookup asked (insert key value entries)
        ≡ (if key == asked then some value else lookup asked entries)
  unfolding lookup insert
  lookup-insert key asked value [] = refl
  lookup-insert key asked value ((other, old) ∷ rest) = ground (
    arith,
    eq_iff key asked,
    eq_iff other key,
    eq_iff other asked,
    lookup-insert key asked value rest,
  )

  pub lookup-delete :
      (k j : Str) (m : Map V) → lookup j (delete k m) ≡ (if k == j then none else lookup j m)
  unfolding lookup delete
  lookup-delete k j [] = ground arith
  lookup-delete k j ((i, w) ∷ m) =
      ground (arith, eq_iff k j, eq_iff i k, eq_iff i j, lookup-delete k j m)

module _ {ℓ} {V : Type ℓ} (drop_it : V → Bool) where
  -- What is left after a deletion by value is not of the values that are deleted.
  pub lookup-delete_where_kept :
      (j : Str) (m : Map V) {v : V} → lookup j (delete_where drop_it m) ≡ some v → drop_it v ≡ false
  unfolding lookup delete_where
  lookup-delete_where_kept j [] h = cc
  lookup-delete_where_kept j ((i, w) ∷ m) {v} h =
      ground (arith, lookup-delete_where_kept j m {v = v})

  -- Such a deletion leaves the other entries alone.
  pub lookup-delete_where_other :
      (j : Str) (m : Map V) {v : V}
      → lookup j m ≡ some v
      → drop_it v ≡ false
      → lookup j (delete_where drop_it m) ≡ some v
  unfolding lookup delete_where
  lookup-delete_where_other j [] h k = h
  lookup-delete_where_other j ((i, w) ∷ m) {v} h k =
      ground (arith, lookup-delete_where_other j m {v = v})

-- A property of all entries, with their keys, through the operations.
module _ {ℓ κ} {V : Type ℓ} (P : Str × V → Type κ) where
  pub insert-All : (k : Str) (v : V) (m : Map V) → P (k, v) → All P m → All P (insert k v m)
  unfolding insert
  insert-All k v [] own h = (own, tt)
  insert-All k v ((j, w) ∷ m) own (h, hs) = elim (Bool-cases (j == k)) [
    | inl same ↦ rw same (own, hs)
    | inr other ↦ rw other (h, insert-All k v m own hs)
  ]

  pub delete-All : (k : Str) (m : Map V) → All P m → All P (delete k m)
  unfolding delete
  delete-All k [] h = tt
  delete-All k ((j, w) ∷ m) (h, hs) = elim (Bool-cases (j == k)) [
    | inl same ↦ rw same (delete-All k m hs)
    | inr other ↦ rw other (h, delete-All k m hs)
  ]

  pub delete_where-All : (drop_it : V → Bool) (m : Map V) → All P m → All P (delete_where drop_it m)
  unfolding delete_where
  delete_where-All drop_it [] h = tt
  delete_where-All drop_it ((j, w) ∷ m) (h, hs) = elim (Bool-cases (drop_it w)) [
    | inl gone ↦ rw gone (delete_where-All drop_it m hs)
    | inr kept ↦ rw kept (h, delete_where-All drop_it m hs)
  ]

  pub lookup-All : (k : Str) (m : Map V) (v : V) → All P m → lookup k m ≡ some v → P (k, v)
  unfolding lookup
  lookup-All k [] v h e = cc
  lookup-All k ((j, w) ∷ m) v (h, hs) e = elim (Bool-cases (j == k)) [
    | inl same ↦
        let at : ◌≡◌ {A = Option V} (some w) (some v) = rw same at e in
        let here : (j, w) ≡ (k, v) = cc ((eq_iff j k).0 same) in subst P here h
    | inr other ↦ lookup-All k m v hs (rw other at e)
  ]

-- No entry that is left after a deletion by value has such a value.
pub delete_where-All_kept {ℓ} :
    {V : Type ℓ} (drop_it : V → Bool) (m : Map V)
    → All (λ (e : Str × V). drop_it e.1 ≡ false) (delete_where drop_it m)
unfolding delete_where
delete_where-All_kept drop_it [] = tt
delete_where-All_kept drop_it ((j, w) ∷ m) = elim (Bool-cases (drop_it w)) [
  | inl gone ↦ rw gone (delete_where-All_kept drop_it m)
  | inr kept ↦ rw kept (kept, delete_where-All_kept drop_it m)
]

-- `m[k]` of a map of strings: the empty string where the key is missing.
abbrev pub index : Str → Map Str → Str
index k m = get_or (lookup k m) []
