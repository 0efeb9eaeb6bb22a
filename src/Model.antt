-- ===== src/Model.antt =====
-- internal/model/model.go: what the manager knows of a container, its t3 backend and its sync
-- sessions. A `time.Time` is a number of nanoseconds; 0 is the zero time.
use devcontainer_manager.Base.Map.{Map}
use devcontainer_manager.Base.Json.{Json}
use devcontainer_manager.Config.{Rule}
use devcontainer_manager.Base.{Str, ℕ, Bool, false, Option, none, List, []}

pub record T3Status : Type 0 where
  pub enabled : Bool
  pub environment_id : Str
  pub http_base_url : Str
  pub ws_base_url : Str
  pub status : Str
  pub error : Str
  pub backend_url : Str
  pub backend_token : Str
  pub last_probe : ℕ

pub record SyncSummary : Type 0 where
  pub enabled : Bool
  pub status : Str
  pub sessions : ℕ
  pub error : Str

pub record Container : Type 0 where
  pub id : Str
  pub short_id : Str
  pub name : Str
  pub image : Str
  pub labels : Map Str
  pub status : Str
  pub running : Bool
  pub local_folder : Str
  pub config_file : Str
  pub workspace_folder : Str
  pub metadata : List (Map Json)
  pub compose_service : Str
  pub container_user : Str
  pub container_home : Str
  pub user_source : Str
  pub rule_name : Str
  pub rule : Option Rule
  pub last_seen : ℕ
  pub container_ip : Str
  pub t3 : T3Status
  pub sync : SyncSummary
  pub discovery_reasons : List Str
  pub warnings : List Str

pub record Environment : Type 0 where
  pub id : Str
  pub container_id : Str
  pub name : Str
  pub http_base_url : Str
  pub ws_base_url : Str
  pub status : Str
  pub error : Str
  pub last_probe : ℕ

pub record Session : Type 0 where
  pub id : Str
  pub name : Str
  pub container_id : Str
  pub rule : Str
  pub sync_index : ℕ
  pub mode : Str
  pub alpha : Str
  pub beta : Str
  pub status : Str
  pub error : Str
  pub labels : Map Str
  pub desired : Bool

-- `T3Status{}`, `SyncSummary{}` and `Container{}`
abbrev pub zero_t3 : T3Status
zero_t3 = record {
  enabled = false;
  environment_id = [];
  http_base_url = [];
  ws_base_url = [];
  status = [];
  error = [];
  backend_url = [];
  backend_token = [];
  last_probe = 0;
}

abbrev pub zero_summary : SyncSummary
zero_summary = record { enabled = false; status = []; sessions = 0; error = [] }

abbrev pub zero_container : Container
zero_container = record {
  id = [];
  short_id = [];
  name = [];
  image = [];
  labels = [];
  status = [];
  running = false;
  local_folder = [];
  config_file = [];
  workspace_folder = [];
  metadata = [];
  compose_service = [];
  container_user = [];
  container_home = [];
  user_source = [];
  rule_name = [];
  rule = none;
  last_seen = 0;
  container_ip = [];
  t3 = zero_t3;
  sync = zero_summary;
  discovery_reasons = [];
  warnings = [];
}
