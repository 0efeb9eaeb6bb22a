-- ===== src/Syncx/Naming.antt =====
-- internal/syncx/controller.go: the names and the shape of the session that a sync entry asks for.
--
-- `crypto/sha1` is a parameter.
use devcontainer_manager.Go.Strings.{itoa}
use devcontainer_manager.Go.Strings.Digits.{same_length, before_dash, itoa-injective, itoa-FromZero}
use devcontainer_manager.Config.{SyncEntry}
use devcontainer_manager.Model.{Container, Session}
use devcontainer_manager.Base.{
  ltb, leb, if◌then◌else◌, length, take, Str, lit, ◌==◌, first_non_empty, ℕ, ◌+◌, ◌-◌, ◌/◌, ◌%◌,
  ◌≡◌, refl, true, [], ◌∷◌, ◌++◌,
}

abbrev pub label_owned : Str
label_owned = lit "devcontainer-manager/owned"

abbrev pub label_container : Str
label_container = lit "devcontainer-manager/container-id"

abbrev pub label_rule : Str
label_rule = lit "devcontainer-manager/rule"

abbrev pub label_sync_index : Str
label_sync_index = lit "devcontainer-manager/sync-index"

-- `shortID`
unfoldable pub short_id : Str → Str
short_id id = if leb (length id) 12 then id else take 12 id

abbrev hex_digit : ℕ → ℕ
hex_digit n = if ltb n 10 then b'0' + n else b'a' + (n - 10)

-- `hex.EncodeToString`
unfoldable pub hex : Str → Str
hex [] = []
hex (b ∷ s) = hex_digit (b / 16) ∷ hex_digit (b % 16) ∷ hex s

-- A sync entry with the container, the rule and the place that it stands at.
pub record Wanted : Type 0 where
  pub container : Container
  pub rule : Str
  pub index : ℕ
  pub sync : SyncEntry

module _ (sha1 : Str → Str) where
  unfoldable pub session_name : Str → Str → ℕ → SyncEntry → Str
  unfolding short_id hex
  session_name container_id rule index sync =
      let sum = sha1 (
        container_id
        ++ (lit "|"
            ++ (rule
                ++ (lit "|"
                    ++ (itoa index
                        ++ (lit "|" ++ (sync.manager ++ (lit "|" ++ sync.container)))))))) in
      lit "dcm-"
      ++ (short_id container_id ++ (lit "-" ++ (itoa index ++ (lit "-" ++ take 8 (hex sum)))))

  abbrev pub container_url : Wanted → Str
  container_url w =
      lit "docker://"
      ++ (w.container.container_user ++ (lit "@" ++ (w.container.id ++ w.sync.container)))

  unfoldable pub desired_session : Wanted → Session
  unfolding session_name
  desired_session w =
      let mode = first_non_empty (w.sync.mode ∷ lit "two-way" ∷ []) in
      let name = session_name w.container.id w.rule w.index w.sync in
      let pull = mode == lit "pull" in
      record {
        id = name;
        name = name;
        container_id = w.container.id;
        rule = w.rule;
        sync_index = w.index;
        mode = mode;
        alpha = if pull then container_url w else w.sync.manager;
        beta = if pull then w.sync.manager else container_url w;
        status = lit "desired";
        error = [];
        labels =
            (label_owned, lit "true")
            ∷ (label_container, w.container.id)
            ∷ (label_rule, w.rule)
            ∷ (label_sync_index, itoa w.index)
            ∷ [];
        desired = true;
      }

-- Two entries have sessions of the same name only if they stand at the same place in their rules and their
-- containers have the same short id, whatever the hash does, where the short ids are of the same length.
pub desired_session-distinct :
    (sha1 : Str → Str) (v w : Wanted)
    → length (short_id v.container.id) ≡ length (short_id w.container.id)
    → (desired_session sha1 v).name ≡ (desired_session sha1 w).name
    → (short_id v.container.id ≡ short_id w.container.id) × (v.index ≡ w.index)
unfolding desired_session lit
desired_session-distinct sha1 v w n h =
    let (_, named) = same_length (lit "dcm-") (lit "dcm-") _ _ refl h in
    let (ids, placed) =
      same_length (short_id v.container.id) (short_id w.container.id) _ _ n named in
    let (_, numbered) = same_length (lit "-") (lit "-") _ _ refl placed in
    (
      ids,
      itoa-injective v.index w.index (
          before_dash (itoa v.index) (itoa w.index) _ _ (itoa-FromZero v.index)
            (itoa-FromZero w.index) numbered),
    )
