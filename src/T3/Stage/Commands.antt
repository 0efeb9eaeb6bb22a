-- ===== src/T3/Stage/Commands.antt =====
-- internal/t3/gateway.go: the commands of `openStageThread`.
use devcontainer_manager.Base.Json.{Json}
use devcontainer_manager.Base.Map.{Map}
use devcontainer_manager.Model.{T3Status}
use devcontainer_manager.T3.Titles.{
  SpawnStageRequest, T3Project, project_for_workspace, thread_title,
}
use devcontainer_manager.T3.Backend.{World, Backend, Refresh, json_request, backend_json, dispatch}
use devcontainer_manager.T3.Backend.Answers.{
  IsAnswered, backend_json-IsAnswered, backend_json-backend_url,
}
use devcontainer_manager.T3.Stage.{
  Codec, Randoms, Outcome, and_then, choose_selection, new_project, create_project, create_thread,
  start_turn, thread_id_of, ensure_project, open_thread, open_stage_thread,
}
use devcontainer_manager.Base.{
  Str, lit, ok, err, ◌≡◌, refl, sym, ◌∙◌, subst, Option, none, some, List,
}

module _ (A : Type 0) (B : Backend) (J : Codec) where
  and_then-ok :
      {V U : Type 0} (o : Outcome A B J V) (f : V → T3Status → World A → Outcome A B J U) (u : U)
      → (and_then A B J o f).2 ≡ ok u
      → (v : V) × (o.2 ≡ ok v) × ((f v o.0 o.1).2 ≡ ok u)
  and_then-ok (status, w, ok v) f u h = (v, refl, h)
  and_then-ok (status, w, err e) f u h = cc

  -- The backend at the URL answered a POST of the command with success.
  pub record IsDispatched (url : Str) (command : Map Json) : Type 0 where
    pub status : T3Status
    pub same_url : status.backend_url ≡ url
    pub value : Map Json
    pub answered :
        IsAnswered A B B.decode
          (json_request A B status (lit "POST") (lit "/api/orchestration/dispatch") (some command))
          value

  dispatch-IsDispatched :
      (url : Str) (status : T3Status) (refresh : Refresh A) (command : Map Json) (w : World A)
      (v : Map Json)
      → status.backend_url ≡ url
      → (dispatch A B status refresh command w).2 ≡ ok v
      → IsDispatched url command
  unfolding dispatch
  dispatch-IsDispatched url status refresh command w v same h = record {
    status = status;
    same_url = same;
    value = v;
    answered =
        backend_json-IsAnswered A B B.decode status refresh (lit "POST")
          (lit "/api/orchestration/dispatch") (some command) w v h;
  }

  dispatch-backend_url :
      (status : T3Status) (refresh : Refresh A) (command : Map Json) (w : World A)
      → (dispatch A B status refresh command w).0.backend_url ≡ status.backend_url
  unfolding dispatch
  dispatch-backend_url status refresh command w =
      backend_json-backend_url A B B.decode status refresh (lit "POST")
        (lit "/api/orchestration/dispatch") (some command) w

  module _ (url : Str) (refresh : Refresh A) (req : SpawnStageRequest) (random : Randoms)
      (now : Str) where
    -- The thread was created in the project, and its first turn started.
    pub record IsStarted (project : T3Project) (selection : Map Json) (id : Str) : Type 0 where
      pub named : id ≡ thread_id_of random
      pub created : IsDispatched url (
          create_thread
            (thread_id_of random)
            project
            (thread_title req.rendered_prompt)
            selection
            random.thread_command
            now)
      pub turned : IsDispatched url (
          start_turn
            (thread_id_of random)
            req.rendered_prompt
            (thread_title req.rendered_prompt)
            selection
            random.turn_command
            random.message
            now)

    open_thread-IsStarted :
        (selection : Map Json) (project : T3Project) (status : T3Status) (w : World A) (id : Str)
        → status.backend_url ≡ url
        → (open_thread A B J refresh req selection random now project status w).2 ≡ ok id
        → IsStarted project selection id
    unfolding open_thread
    open_thread-IsStarted selection project status w id same h =
        let title = thread_title req.rendered_prompt in
        let create =
          create_thread (thread_id_of random) project title selection random.thread_command now in
        let start =
          start_turn (thread_id_of random) req.rendered_prompt title selection random.turn_command
            random.message now in
        let first = dispatch A B status refresh create w in
        let second = dispatch A B first.0 refresh start first.1 in
        let (v, created, h1) = and_then-ok first _ id h in
        let (u, turned, h2) = and_then-ok second _ id h1 in
        let same_first = dispatch-backend_url status refresh create w ∙ same in
        record {
          named = cc h2;
          created = dispatch-IsDispatched url status refresh create w v same created;
          turned = dispatch-IsDispatched url first.0 refresh start first.1 u same_first turned;
        }

    -- The project that a workspace has, or a new one that was created for it.
    pub data IsProject (projects : List T3Project) (selection : Map Json) (project : T3Project)
        : Type 0 where
      found :
          project_for_workspace projects req.workspace_path ≡ some project
          → IsProject projects selection project
      made :
          project_for_workspace projects req.workspace_path ≡ none
          → project ≡ new_project req random.project
          → IsDispatched url (create_project project selection random.project_command now)
          → IsProject projects selection project

    ensure_project-IsProject :
        (projects : List T3Project) (selection : Map Json) (o : Option T3Project)
        → project_for_workspace projects req.workspace_path ≡ o
        → (status : T3Status) (w : World A) (project : T3Project) → status.backend_url ≡ url
        → (ensure_project A B J refresh req selection random now o status w).2 ≡ ok project
        → IsProject projects selection project
    unfolding ensure_project
    ensure_project-IsProject projects selection (some known) e status w project same h =
        found (cc (e, h))
    ensure_project-IsProject projects selection none e status w project same h =
        let command =
          create_project (new_project req random.project) selection random.project_command now in
        let (v, created, h1) = and_then-ok (dispatch A B status refresh command w) _ project h in
        let new : new_project req random.project ≡ project = cc h1 in
        made e (sym new) (
          subst (λ p. IsDispatched url (create_project p selection random.project_command now)) new
            (dispatch-IsDispatched url status refresh command w v same created))

    and_then-backend_url :
        (project : T3Project) (o : Outcome A B J (Map Json))
        → o.0.backend_url ≡ url
        → (and_then A B J o (λ _ status w. (status, w, ok project))).0.backend_url ≡ url
    and_then-backend_url project (status, w, ok v) same = same
    and_then-backend_url project (status, w, err e) same = same

    ensure_project-backend_url :
        (selection : Map Json) (o : Option T3Project) (status : T3Status) (w : World A)
        → status.backend_url ≡ url
        → (ensure_project A B J refresh req selection random now o status w).0.backend_url ≡ url
    unfolding ensure_project
    ensure_project-backend_url selection (some known) status w same = same
    ensure_project-backend_url selection none status w same =
        let command =
          create_project (new_project req random.project) selection random.project_command now in
        and_then-backend_url (new_project req random.project)
          (dispatch A B status refresh command w)
          (dispatch-backend_url status refresh command w ∙ same)

  -- A stage thread that was opened: its project and its commands, after a snapshot.
  pub record IsOpened (refresh : Refresh A) (req : SpawnStageRequest) (random : Randoms) (now : Str)
      (status : T3Status) (id : Str) : Type 0 where
    pub projects : List T3Project
    pub project : T3Project
    pub snapshot :
        IsAnswered A B J.decode_projects
          (json_request A B status (lit "GET") (lit "/api/orchestration/snapshot") none)
          projects
    pub selection : Map Json
    pub selected :
        selection
        ≡ choose_selection J.unmarshal req.agent (project_for_workspace projects req.workspace_path)
    pub ensured : IsProject status.backend_url refresh req random now projects selection project
    pub started : IsStarted status.backend_url refresh req random now project selection id

  -- A thread id that `openStageThread` returns is the new one, and the backend of the container answered with
  -- success to the snapshot, to the creation of the project where the snapshot has none for the
  -- workspace, to the creation of the thread in that project and to the start of its first turn.
  pub open_stage_thread-IsOpened :
      (refresh : Refresh A) (req : SpawnStageRequest) (random : Randoms) (now : Str)
      (status : T3Status) (w : World A) (id : Str)
      → (open_stage_thread A B J refresh req random now status w).2 ≡ ok id
      → IsOpened refresh req random now status id
  unfolding open_stage_thread
  open_stage_thread-IsOpened refresh req random now status w id h =
      let listed =
        backend_json A B J.decode_projects status refresh (lit "GET")
          (lit "/api/orchestration/snapshot") none w in
      let same =
        backend_json-backend_url A B J.decode_projects status refresh (lit "GET")
          (lit "/api/orchestration/snapshot") none w in
      let (projects, answered, h1) = and_then-ok listed _ id h in
      let known = project_for_workspace projects req.workspace_path in
      let selection = choose_selection J.unmarshal req.agent known in
      let ensured = ensure_project A B J refresh req selection random now known listed.0 listed.1 in
      let (project, has, h2) = and_then-ok ensured _ id h1 in
      record {
        projects = projects;
        project = project;
        snapshot =
            backend_json-IsAnswered A B J.decode_projects status refresh (lit "GET")
              (lit "/api/orchestration/snapshot") none w projects answered;
        selection = selection;
        selected = refl;
        ensured =
            ensure_project-IsProject status.backend_url refresh req random now projects selection
              known refl listed.0 listed.1 project same has;
        started =
            open_thread-IsStarted status.backend_url refresh req random now selection project
              ensured.0 ensured.1 id
              (ensure_project-backend_url status.backend_url refresh req random now selection known
                listed.0 listed.1 same)
              h2;
      }
