-- ===== src/Dockerx.antt =====
-- internal/dockerx/client.go: what the Docker daemon says of a container, and the daemon itself.
--
-- The daemon is a parameter. Its replies may depend on the networks that were connected before.
pub mod Exec
pub mod Discovery
pub mod Rules
pub mod User
pub mod Network
pub mod Record
pub mod Listing
pub mod Api
use devcontainer_manager.Base.Int.{ℤ}
use devcontainer_manager.Base.Map.{Map}
use devcontainer_manager.Base.{Str, Result, Bool, Option, List}

-- `network.EndpointSettings`
pub record Endpoint : Type 0 where
  pub ip_address : Str
  pub network_id : Str

-- `types.NetworkSettings`; an endpoint is a pointer.
pub record NetworkSettings : Type 0 where
  pub ip_address : Str
  pub networks : Map (Option Endpoint)

-- `types.ContainerJSON`, of which the daemon always fills `Config`. `state` is the flag `Running` of
-- a pointer.
pub record Inspect : Type 0 where
  pub id : Str
  pub name : Str
  pub image : Str
  pub user : Str
  pub labels : Map Str
  pub state : Option Bool
  pub network_settings : Option NetworkSettings

-- `types.Container`
pub record Item : Type 0 where
  pub id : Str
  pub status : Str

-- A call of `NetworkConnect`: the network and the container.
pub record Connection : Type 0 where
  pub network : Str
  pub container : Str

abbrev pub Connections : Type 0
Connections = List Connection

-- `types.ExecConfig`
pub record ExecConfig : Type 0 where
  pub cmd : List Str
  pub user : Str
  pub attach_stdin : Bool

pub record Daemon : Type 0 where
  pub container_list : Result (List Item)
  pub container_inspect : Connections → Str → Result Inspect
  -- the id of a network
  pub network_inspect : Connections → Str → Result Str
  pub network_connect : Connections → Connection → Result (Unit {0})
  -- an exec: its id, the error of attaching to it, that of writing the input and of closing it, all
  -- of its output, and its exit code
  pub exec_create : Str → ExecConfig → Result Str
  pub exec_attach : Str → Result (Unit {0})
  pub exec_write : Str → Str → Result (Unit {0})
  pub exec_close_write : Str → Result (Unit {0})
  pub exec_output : Str → Str
  pub exec_inspect : Str → Result ℤ
