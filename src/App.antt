-- ===== src/App.antt =====
-- internal/app/service.go: the service, which keeps the containers and the sessions of the last
-- reconciliation and serves the HTTP API from them.
--
-- `Service` is its state, with that of its Docker client (the networks that it connected), of its
-- sync client and of its HTTP client (the events). Map iteration goes through a map in an
-- order that Go leaves open, which is the order of the list here.
pub mod Summaries
pub mod Lookup
pub mod Start
pub mod Reconcile
pub mod Loops
pub mod Routes
pub mod Proxy
pub mod Mux
pub mod Handler
use devcontainer_manager.Base.Map.{Map}
use devcontainer_manager.Config.{Config}
use devcontainer_manager.Model.{Container, Session}
use devcontainer_manager.Dockerx.{Connections}
use devcontainer_manager.Syncx.Client.{Client, new_client}
use devcontainer_manager.T3.Backend.{Event}
use devcontainer_manager.Base.{List, []}

pub record Service : Type 0 where
  pub cfg : Config
  pub containers : Map Container
  pub sessions : List Session
  pub connections : Connections
  pub client : Client
  pub trace : List Event

-- `New`, after Docker and the token store were opened
abbrev pub new_service : Config → Service
new_service cfg = record {
  cfg = cfg;
  containers = [];
  sessions = [];
  connections = [];
  client = new_client;
  trace = [];
}
