-- ===== src/T3/Stage.antt =====
-- internal/t3/gateway.go: `openStageThread`.
--
-- The JSON decoders and the random bytes of the new names are arguments.
pub mod Commands
use devcontainer_manager.Base.Map.{Map}
use devcontainer_manager.Base.Json.{Json, null, string, object, field, end, array, nil, Fields}
use devcontainer_manager.Model.{T3Status}
use devcontainer_manager.T3.Random.{random_token}
use devcontainer_manager.T3.Titles.{
  RetainScope, SpawnStageRequest, T3Project, project_for_workspace, model_selection_for,
  project_title, thread_title,
}
use devcontainer_manager.T3.Backend.{World, Backend, Refresh, backend_json, dispatch}
use devcontainer_manager.Base.{
  if◌then◌else◌, Str, lit, is_empty, ◌==◌, Result, ok, err, not, ◌&&◌, Option, none, some, List, [],
  ◌∷◌, ◌++◌,
}

-- The decoders of `encoding/json` and its encoder of a scope.
pub record Codec : Type 0 where
  -- `Decode` of a `SpawnStageRequest`, without unknown fields
  pub decode_request : Str → Result SpawnStageRequest
  -- `Decode` of an `orchestrationSnapshot`
  pub decode_projects : Str → Result (List T3Project)
  -- `Unmarshal` into a `map[string]any`
  pub unmarshal : Str → Result (Map Json)
  pub marshal_scope : RetainScope → Result Str

-- The bytes of the calls of `randomToken`.
pub record Randoms : Type 0 where
  pub project : Str
  pub project_command : Str
  pub thread : Str
  pub thread_command : Str
  pub turn_command : Str
  pub message : Str

abbrev command_id : Str → Json
command_id bytes = string (lit "dcm-command-" ++ random_token bytes)

-- A `map[string]any` as a value.
abbrev fields : Map Json → Fields
fields [] = end
fields ((k, v) ∷ rest) = field k v (fields rest)

unfoldable pub create_project : T3Project → Map Json → Str → Str → Map Json
create_project project selection bytes now =
    (lit "type", string (lit "project.create"))
    ∷ (lit "commandId", command_id bytes)
    ∷ (lit "projectId", string project.id)
    ∷ (lit "title", string project.title)
    ∷ (lit "workspaceRoot", string project.workspace_root)
    ∷ (lit "defaultModelSelection", object (fields selection))
    ∷ (lit "createdAt", string now)
    ∷ []

unfoldable pub create_thread : Str → T3Project → Str → Map Json → Str → Str → Map Json
create_thread thread_id project title selection bytes now =
    (lit "type", string (lit "thread.create"))
    ∷ (lit "commandId", command_id bytes)
    ∷ (lit "threadId", string thread_id)
    ∷ (lit "projectId", string project.id)
    ∷ (lit "title", string title)
    ∷ (lit "modelSelection", object (fields selection))
    ∷ (lit "runtimeMode", string (lit "full-access"))
    ∷ (lit "interactionMode", string (lit "default"))
    ∷ (lit "branch", null)
    ∷ (lit "worktreePath", null)
    ∷ (lit "createdAt", string now)
    ∷ []

unfoldable pub start_turn : Str → Str → Str → Map Json → Str → Str → Str → Map Json
start_turn thread_id prompt title selection bytes message now =
    (lit "type", string (lit "thread.turn.start"))
    ∷ (lit "commandId", command_id bytes)
    ∷ (lit "threadId", string thread_id)
    ∷ (
      lit "message",
      object (
          field (lit "messageId") (string (lit "dcm-message-" ++ random_token message)) (
            field (lit "role") (string (lit "user"))
              (field (lit "text") (string prompt) (field (lit "attachments") (array nil) end)))),
    )
    ∷ (lit "modelSelection", object (fields selection))
    ∷ (lit "titleSeed", string title)
    ∷ (lit "runtimeMode", string (lit "full-access"))
    ∷ (lit "interactionMode", string (lit "default"))
    ∷ (lit "createdAt", string now)
    ∷ []

-- The selection for a stage: that of its project, where this has one.
unfoldable pub choose_selection : (Str → Result (Map Json)) → Str → Option T3Project → Map Json
choose_selection unmarshal agent none = model_selection_for unmarshal agent []
choose_selection unmarshal agent (some project) =
    if not (is_empty project.default_model_selection)
      && not (project.default_model_selection == lit "null")
    then model_selection_for unmarshal agent project.default_model_selection
    else model_selection_for unmarshal agent []

unfoldable pub new_project : SpawnStageRequest → Str → T3Project
new_project req bytes = record {
  id = lit "dcm-project-" ++ random_token bytes;
  title = project_title req.workspace_path;
  workspace_root = req.workspace_path;
  default_model_selection = [];
}

unfoldable pub thread_id_of : Randoms → Str
thread_id_of random = lit "dcm-thread-" ++ random_token random.thread

module _ (A : Type 0) (B : Backend) (J : Codec) where
  -- The status and the world after a call, and its result.
  abbrev pub Outcome : Type 0 → Type 0
  Outcome V = T3Status × World A × Result V

  -- The code that follows a call, where the call succeeded.
  abbrev pub and_then :
      {V U : Type 0} → Outcome V → (V → T3Status → World A → Outcome U) → Outcome U
  and_then (status, w, ok v) f = f v status w
  and_then (status, w, err e) f = (status, w, err e)

  -- The project of the workspace, which is created where there is none.
  unfoldable pub ensure_project :
      Refresh A
      → SpawnStageRequest
      → Map Json
      → Randoms
      → Str
      → Option T3Project
      → T3Status
      → World A
      → Outcome T3Project
  ensure_project refresh req selection random now (some project) status w = (status, w, ok project)
  ensure_project refresh req selection random now none status w =
      let project = new_project req random.project in
      and_then
        (dispatch A B status refresh (create_project project selection random.project_command now)
          w)
        λ _ status w. (status, w, ok project)

  unfoldable pub open_thread :
      Refresh A
      → SpawnStageRequest
      → Map Json
      → Randoms
      → Str
      → T3Project
      → T3Status
      → World A
      → Outcome Str
  open_thread refresh req selection random now project status w =
      let thread_id = thread_id_of random in
      let title = thread_title req.rendered_prompt in
      and_then
        (dispatch A B status refresh
          (create_thread thread_id project title selection random.thread_command now) w)
        λ _ status w.
          and_then
            (dispatch A B status refresh
              (start_turn thread_id req.rendered_prompt title selection random.turn_command
                random.message now)
              w)
            λ _ status w. (status, w, ok thread_id)

  unfoldable pub open_stage_thread :
      Refresh A → SpawnStageRequest → Randoms → Str → T3Status → World A → Outcome Str
  unfolding ensure_project open_thread
  open_stage_thread refresh req random now status w =
      and_then
        (backend_json A B J.decode_projects status refresh (lit "GET")
          (lit "/api/orchestration/snapshot") none w)
        λ projects status w.
          let found = project_for_workspace projects req.workspace_path in
          let selection = choose_selection J.unmarshal req.agent found in
          and_then (ensure_project refresh req selection random now found status w)
            (open_thread refresh req selection random now)
