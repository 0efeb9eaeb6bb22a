-- ===== src/Tests/Samples.antt =====
-- A small machine: one container on one network, a Mutagen daemon without sessions, a t3 server that
-- answers 200, and a table of tokens in memory.
use devcontainer_manager.Base.Map
use devcontainer_manager.Base.Map.{Map}
use devcontainer_manager.Base.Int.{pos}
use devcontainer_manager.Base.Json.{string}
use devcontainer_manager.Config.{Config, Rule, SyncEntry, named_rule}
use devcontainer_manager.Config.Matching.{Patterns}
use devcontainer_manager.Config.Defaults.{default}
use devcontainer_manager.Model.{Container, Environment, zero_container, zero_t3}
use devcontainer_manager.Dockerx
use devcontainer_manager.Dockerx.{Endpoint, NetworkSettings, Inspect}
use devcontainer_manager.Dockerx.Discovery.{Decoder}
use devcontainer_manager.Syncx.Daemon.{Library, valid}
use devcontainer_manager.Syncx.Daemon
use devcontainer_manager.Syncx.Controller.{Machine, directory}
use devcontainer_manager.T3.{TokenStore}
use devcontainer_manager.T3.Store.{Database, Row, Scan, row, no_rows, postgres_store}
use devcontainer_manager.T3.Backend.{Backend, HttpResponse}
use devcontainer_manager.T3.Proxy.{Web, Incoming}
use devcontainer_manager.T3.Stage.{Codec, Randoms}
use devcontainer_manager.T3.Titles.{SpawnStageRequest}
use devcontainer_manager.App.Reconcile.{Outside}
use devcontainer_manager.Base.{
  if◌then◌else◌, Str, lit, ◌==◌, ok, err, true, false, Option, none, some, List, [], ◌∷◌, ◌++◌,
}

-- A pattern matches itself.
abbrev pub patterns : Patterns
patterns = record {
  path_match = λ glob value. ok (glob == value);
  compile = λ regex. ok tt;
  match_string = λ regex value. ok (regex == value);
}

abbrev pub endpoint : Endpoint
endpoint = record { ip_address = lit "10.0.0.2"; network_id = lit "n1" }

abbrev pub network_settings : NetworkSettings
network_settings = record { ip_address = []; networks = (lit "web", some endpoint) ∷ [] }

abbrev pub inspect : Inspect
inspect = record {
  id = lit "c1";
  name = lit "/auth";
  image = lit "go";
  user = [];
  labels = (lit "devcontainer.local_folder", lit "/src/auth") ∷ [];
  state = some true;
  network_settings = some network_settings;
}

abbrev pub docker : Dockerx.Daemon
docker = record {
  container_list = ok (record { id = lit "c1"; status = lit "Up" } ∷ []);
  container_inspect = λ cs id. ok inspect;
  network_inspect = λ cs name. ok (lit "n2");
  network_connect = λ cs call. ok tt;
  exec_create = λ id config. ok (lit "e1");
  exec_attach = λ id. ok tt;
  exec_write = λ id input. ok tt;
  exec_close_write = λ id. ok tt;
  exec_output = λ id. lit "/home/dev";
  exec_inspect = λ id. ok (pos 0);
}

abbrev pub decoder : Decoder
decoder = record { array = λ text. err (lit "no array"); single = λ text. err (lit "no object") }

abbrev pub machine : Machine
machine = record {
  sha1 = λ text. text;
  stat = λ path. directory;
  path_kind = λ id path. ok (lit "directory");
}

abbrev pub library : Library
library = record {
  Url = Str;
  Mode = Str;
  parse_url = λ text first. ok text;
  parse_mode = λ text. ok text;
  parse_file_mode = λ text. ok 420;
  peel = λ e. e;
  version = record { major = 0; minor = 18; patch = 1; tag = [] };
}

abbrev pub mutagen : Daemon.Daemon library
mutagen = record {
  endpoint_path = λ trace. ok (lit "/run/mutagen.sock");
  dial = λ trace path. ok tt;
  version = λ trace. ok (record { major = 0; minor = 18; patch = 1; tag = [] });
  host = λ trace allow. ok (lit "p1");
  list = λ trace. valid [];
  create = λ trace prompter specification. valid tt;
  pause = λ trace prompter specification. valid tt;
  resume = λ trace prompter specification. valid tt;
  terminate = λ trace prompter specification. valid tt;
  ensure_valid = λ configuration. ok tt;
}

-- A table in memory.
abbrev pub find_row : Option Row → Scan
find_row none = no_rows
find_row (some r) = row r

abbrev pub database : Database
database = record {
  State = Map Row;
  upsert = λ s id token expires. (
    Map.insert id (record { token = token; devcontainer_id = id; expires_at = expires }) s,
    ok tt,
  );
  select = λ s id. find_row (Map.lookup id s);
  remove = λ s id. (Map.delete id s, ok tt);
  create = λ s. (s, ok tt);
}

abbrev pub store : TokenStore
store = postgres_store database

abbrev pub ok_response : HttpResponse
ok_response = record { status_code = 200; status = lit "200 OK"; header = []; body = lit "{}" }

abbrev pub unauthorized_response : HttpResponse
unauthorized_response = record ok_response { status_code = 401; status = lit "401 Unauthorized" }

-- A server that wants the token "new".
abbrev pub answer_of : Option (List Str) → HttpResponse
answer_of none = unauthorized_response
answer_of (some values) = elim values [
  | [] ↦ unauthorized_response
  | v ∷ _ ↦ if v == lit "Bearer new" then ok_response else unauthorized_response
]

abbrev pub backend : Backend
backend = record {
  do_request = λ events req. ok (answer_of (Map.lookup (lit "Authorization") req.header));
  new_request = λ method url. ok tt;
  exec = λ events id cmd. ok (lit "new\n");
  exec_with_stdin = λ events id cmd user input. ok tt;
  marshal = λ input. lit "{}";
  decode = λ text. ok ((lit "id", string (lit "env1")) ∷ []);
}

-- A server that answers everything.
abbrev pub open_backend : Backend
open_backend = record backend { do_request = λ events req. ok ok_response }

abbrev pub web : Web
web = record {
  parse_url = λ text.
      ok (record {
        scheme = lit "http";
        authority = lit "10.0.0.2:3773";
        path = [];
        raw_query = [];
      });
  url_string = λ url. url.scheme ++ (lit "://" ++ (url.authority ++ url.path));
  set_query = λ query key value. key ++ (lit "=" ++ value);
  upgrades = true;
  dial = λ url. ok tt;
}

abbrev pub spawn_request : SpawnStageRequest
spawn_request = record {
  agent = lit "codex";
  rendered_prompt = lit "Fix it";
  workspace_path = lit "/workspace/auth";
  scope = record { bank_id = lit "b1"; tags = [] };
}

abbrev pub codec : Codec
codec = record {
  decode_request = λ text. ok spawn_request;
  decode_projects = λ text. ok [];
  unmarshal = λ text. ok [];
  marshal_scope = λ scope. ok (lit "{}");
}

abbrev pub randoms : Randoms
randoms = record {
  project = lit "a";
  project_command = lit "b";
  thread = lit "c";
  thread_command = lit "d";
  turn_command = lit "e";
  message = lit "f";
}

abbrev pub outside : Outside
outside = record {
  docker = docker;
  patterns = patterns;
  decoder = decoder;
  machine = machine;
  library = library;
  mutagen = mutagen;
  backend = open_backend;
  seen = λ id. 1;
  probed = λ id. 2;
}

abbrev pub sync_entry : SyncEntry
sync_entry = record {
  mode = lit "two-way";
  manager = lit "/src/auth";
  container = lit "/workspace/auth";
  replica = false;
  ignore_vcs = none;
  ignores = [];
  permissions = record { default_file_mode = []; default_directory_mode = [] };
}

abbrev pub rule : Rule
rule = record (named_rule (lit "auth")) { syncs = sync_entry ∷ [] }

abbrev pub config : Config
config = record default { rules = rule ∷ [] }

abbrev pub container : Container
container = record zero_container {
  id = lit "c1";
  short_id = lit "c1";
  name = lit "auth";
  running = true;
  container_ip = lit "10.0.0.2";
  rule = some rule;
  t3 = record zero_t3 {
    enabled = true;
    environment_id = lit "env1";
    status = lit "ready";
    backend_url = lit "http://10.0.0.2:3773";
    backend_token = lit "old";
  };
}

abbrev pub env : Environment
env = record {
  id = lit "env1";
  container_id = lit "c1";
  name = lit "auth";
  http_base_url = [];
  ws_base_url = [];
  status = lit "ready";
  error = [];
  last_probe = 0;
}

abbrev pub incoming : Incoming
incoming = record {
  method = lit "GET";
  path = lit "/env/env1/api/x";
  raw_query = [];
  header = (lit "Authorization", lit "Bearer t" ∷ []) ∷ (lit "Accept", lit "text/html" ∷ []) ∷ [];
  body = ok [];
  is_websocket = false;
}
