-- ===== src/T3/Store.antt =====
-- internal/t3/token_store.go: `PostgresPairingTokenStore`. The database is a parameter: each of the SQL
-- statements of the file is one operation of it.
use devcontainer_manager.T3.{BrowserToken, TokenStore, IsLawful, IsFaithful}
use devcontainer_manager.Base.{
  if◌then◌else◌, Str, ◌==◌, Result, ok, err, ℕ, ◌≡◌, refl, sym, ap, ◌∙◌, ◌⊎◌, inl, inr, Bool, true,
  false, Option, none, some,
}

-- A row of the table "pairing_tokens", of the columns that the code reads.
pub record Row : Type 0 where
  pub token : Str
  pub devcontainer_id : Str
  pub expires_at : ℕ

-- The outcome of `QueryRow(…).Scan(…)`; `no_rows` is `pgx.ErrNoRows`.
pub data Scan : Type 0 where
  no_rows : Scan
  scan_failed : Str → Scan
  row : Row → Scan

pub record Database : Type 1 where
  pub State : Type 0
  -- `INSERT … ON CONFLICT (devcontainer_id) DO UPDATE …`
  pub upsert : State → Str → Str → ℕ → State × Result (Unit {0})
  -- `SELECT … WHERE devcontainer_id = $1`
  pub select : State → Str → Scan
  -- `DELETE … WHERE devcontainer_id = $1`
  pub remove : State → Str → State × Result (Unit {0})
  -- `CREATE TABLE IF NOT EXISTS …`
  pub create : State → State × Result (Unit {0})

-- The result of `Get`, from the outcome of its query.
unfoldable pub scanned : Scan → Result (Option BrowserToken)
scanned no_rows = ok none
scanned (scan_failed e) = err e
scanned (row r) =
    ok (some (record { token = r.token; env_id = r.devcontainer_id; expires_at = r.expires_at }))

abbrev pub postgres_store : Database → TokenStore
postgres_store D = record {
  State = D.State;
  save = D.upsert;
  get = λ s id. scanned (D.select s id);
  delete = D.remove;
}

-- What became of something that has to be closed.
pub data Handle : Type 0 where
  never_opened held closed : Handle

-- The end of `NewPostgresPairingTokenStore`, after `init`.
unfoldable pub initialized : {S : Type 0} → S × Result (Unit {0}) → Handle × Result S
initialized (s, err e) = (closed, err e)
initialized (s, ok _) = (held, ok s)

-- `NewPostgresPairingTokenStore`, from the result of `pgxpool.New`: what became of the pool, and the store.
unfoldable pub new_postgres_store : (D : Database) → Result D.State → Handle × Result D.State
unfolding initialized
new_postgres_store D (err e) = (never_opened, err e)
new_postgres_store D (ok s) = initialized (D.create s)

-- What the statements promise: a row that was upserted is the one selected by its key, and every
-- other key selects what it did.
pub record IsTable (D : Database) : Type 0 where
  pub select-upsert :
      (s : D.State) (id token : Str) (expires : ℕ)
      → (D.upsert s id token expires).1 ≡ ok tt
      → (j : Str)
      → D.select (D.upsert s id token expires).0 j ≡ (
          if id == j
          then row (record { token = token; devcontainer_id = id; expires_at = expires })
          else D.select s j)

-- A store over a database that keeps its promises keeps those of a token store: what a save
-- that succeeds stores is what its key gets, and no other key gets anything else than before.
pub postgres_store-IsLawful : (D : Database) → IsTable D → IsLawful (postgres_store D)
unfolding scanned
postgres_store-IsLawful D h = record {
  get-save = λ s id token expires saved j.
      ap scanned (h.select-upsert s id token expires saved j) ∙ either (id == j) _ _;
}
  where
    either :
        (b : Bool) (r : Row) (t : Scan)
        → scanned (if b then row r else t) ≡ (if b then scanned (row r) else scanned t)
    either true r t = refl
    either false r t = refl

-- A table makes nothing up: a row that is selected was there before, or is the one that was upserted.
pub record IsHonest (D : Database) : Type 0 where
  pub select-upsert_origin :
      (s : D.State) (id token : Str) (expires : ℕ) (j : Str) (r : Row)
      → D.select (D.upsert s id token expires).0 j ≡ row r
      → (D.select s j ≡ row r) ⊎ ((id ≡ j) × (r.token ≡ token))
  pub select-remove_origin :
      (s : D.State) (id j : Str) (r : Row)
      → D.select (D.remove s id).0 j ≡ row r
      → D.select s j ≡ row r

abbrev scanned_row : Row → BrowserToken
scanned_row r = record { token = r.token; env_id = r.devcontainer_id; expires_at = r.expires_at }

scanned-eq-ok :
    (s : Scan) (e : BrowserToken)
    → scanned s ≡ ok (some e)
    → (r : Row) × (s ≡ row r) × (scanned_row r ≡ e)
unfolding scanned
scanned-eq-ok no_rows e h = cc
scanned-eq-ok (scan_failed m) e h = cc
scanned-eq-ok (row r) e h = (r, refl, cc)

pub postgres_store-IsFaithful : (D : Database) → IsHonest D → IsFaithful (postgres_store D)
unfolding scanned
postgres_store-IsFaithful D h = record {
  get-save_origin = λ s id token expires j e got.
      let (r, found, same) = scanned-eq-ok _ e got in
      elim (h.select-upsert_origin s id token expires j r found) [
        | inl before ↦ inl (ap scanned before ∙ ap (λ x. ok (some x)) same)
        | inr (own, made) ↦ inr (own, sym (ap (λ (x : BrowserToken). x.token) same) ∙ made)
      ];
  get-delete_origin = λ s id j e got.
      let (r, found, same) = scanned-eq-ok _ e got in
      ap scanned (h.select-remove_origin s id j r found) ∙ ap (λ x. ok (some x)) same;
}
