-- ===== src/Tests/Databases.antt =====
-- internal/t3/token_store.go: an association list as the database.
use devcontainer_manager.Base.Map
use devcontainer_manager.Base.Map.{Map}
use devcontainer_manager.T3.{IsLawful, IsFaithful}
use devcontainer_manager.T3.Store.{
  IsTable, postgres_store-IsLawful, postgres_store-IsFaithful, IsHonest, Row, row,
}
use devcontainer_manager.Tests.Samples.{find_row, database, store}
use devcontainer_manager.Base.{
  if◌then◌else◌, Bool-cases, Str, ◌==◌, eq_iff, ℕ, ◌≡◌, refl, sym, ap, ◌∙◌, ◌⊎◌, inl, inr, Bool,
  true, false, Option, none, some,
}

find_row_if :
    (b : Bool) (r : Row) (o : Option Row)
    → find_row (if b then some r else o) ≡ (if b then row r else find_row o)
find_row_if true r o = refl
find_row_if false r o = refl

pub database-IsTable : IsTable database
database-IsTable = record {
  select-upsert = λ s id token expires saved j.
      ap find_row (Map.lookup-insert id j _ s) ∙ find_row_if (id == j) _ (Map.lookup j s);
}

pub store-IsLawful : IsLawful store
store-IsLawful = postgres_store-IsLawful database database-IsTable

find_row-eq_row : (o : Option Row) (r : Row) → find_row o ≡ row r → o ≡ some r
find_row-eq_row none r h = cc
find_row-eq_row (some q) r h = cc

pub database-IsHonest : IsHonest database
database-IsHonest = record {
  select-upsert_origin = λ s id token expires j r h. upserted s id token expires j r h;
  select-remove_origin = λ s id j r h. removed s id j r h;
}
  where
    upserted :
        (s : Map Row) (id token : Str) (expires : ℕ) (j : Str) (r : Row)
        → database.select (database.upsert s id token expires).0 j ≡ row r
        → (database.select s j ≡ row r) ⊎ ((id ≡ j) × (r.token ≡ token))
    upserted s id token expires j r h =
        let at =
          sym (
            Map.lookup-insert id j
              (record { token = token; devcontainer_id = id; expires_at = expires }) s)
          ∙ find_row-eq_row _ r h in
        elim (Bool-cases (id == j)) [
          | inl own ↦ inr ((eq_iff id j).0 own, cc (rw own at at))
          | inr other ↦ inl (ap find_row (rw other at at))
        ]

    removed :
        (s : Map Row) (id j : Str) (r : Row)
        → database.select (database.remove s id).0 j ≡ row r
        → database.select s j ≡ row r
    removed s id j r h =
        let at = sym (Map.lookup-delete id j s) ∙ find_row-eq_row _ r h in
        elim (Bool-cases (id == j)) [
          | inl own ↦ absurd (nothing (rw own at at))
          | inr other ↦ ap find_row (rw other at at)
        ]
      where
        nothing : ◌≡◌ {A = Option Row} none (some r) → ⊥
        nothing e = cc

pub store-IsFaithful : IsFaithful store
store-IsFaithful = postgres_store-IsFaithful database database-IsHonest
