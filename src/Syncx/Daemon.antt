-- ===== src/Syncx/Daemon.antt =====
-- What internal/syncx relies on: the Mutagen library, the daemon behind its gRPC services, and the
-- events by which a run of the client is observed. Nothing here is code of the repository.
--
-- A reply of the daemon may depend on all that was asked of it before, so each is a function of the
-- events so far, the latest first.
use devcontainer_manager.Base.Map.{Map}
use devcontainer_manager.Base.{Str, Result, ℕ, Bool, Option, List}

-- What the client does to the world.
pub data Event : Type 0 where
  -- the outcome of a dial, and a close
  opened dial_failed closed : Event
  -- the outcome of the version check
  version_matched version_refused : Event
  -- requests to the services
  listed : Event
  hosted : Bool → Event
  created paused resumed terminated : Str → Event
  -- the prompter of a request is stopped
  stopped : Event

abbrev pub Trace : Type 0
Trace = List Event

-- The outcome of a remote call: a transport error, a response that `EnsureValid` refuses, or a valid
-- response.
pub data Reply (A : Type 0) : Type 0 where
  rpc_failed invalid : Str → Reply A
  valid : A → Reply A

pub record Version : Type 0 where
  pub major : ℕ
  pub minor : ℕ
  pub patch : ℕ
  pub tag : Str

-- `synchronization.Status`: the two values that the code names, and the name of any other one.
pub data Status : Type 0 where
  watching disconnected : Status
  other : Str → Status

pub record MutagenSession : Type 0 where
  pub identifier : Str
  pub name : Str
  pub paused : Bool

-- `synchronization.State`; `session` is a pointer.
pub record State : Type 0 where
  pub session : Option MutagenSession
  pub last_error : Str
  pub status : Status

pub record Library : Type 1 where
  -- a parsed endpoint, and `core.SynchronizationMode`
  pub Url : Type 0
  pub Mode : Type 0
  -- `mutagenurl.Parse`, of the first endpoint or the second
  pub parse_url : Str → Bool → Result Url
  -- `UnmarshalText` of the two kinds of mode
  pub parse_mode : Str → Result Mode
  pub parse_file_mode : Str → Result ℕ
  -- `grpcutil.PeelAwayRPCErrorLayer`
  pub peel : Str → Str
  -- the version of the library
  pub version : Version

-- `synchronization.Configuration`, of the fields that the code sets
pub record Configuration (L : Library) : Type 0 where
  pub mode : L.Mode
  pub ignores : List Str
  pub ignore_vcs : Bool
  pub default_file_mode : ℕ
  pub default_directory_mode : ℕ

-- `CreationSpecification`, without the two empty configurations of the endpoints
pub record CreationSpecification (L : Library) : Type 0 where
  pub alpha : L.Url
  pub beta : L.Url
  pub configuration : Configuration L
  pub name : Str
  pub labels : Map Str

pub record Daemon (L : Library) : Type 0 where
  pub endpoint_path : Trace → Result Str
  pub dial : Trace → Str → Result (Unit {0})
  pub version : Trace → Result Version
  pub host : Trace → Bool → Result Str
  pub list : Trace → Reply (List State)
  pub create : Trace → Str → CreationSpecification L → Reply (Unit {0})
  pub pause : Trace → Str → Str → Reply (Unit {0})
  pub resume : Trace → Str → Str → Reply (Unit {0})
  pub terminate : Trace → Str → Str → Reply (Unit {0})
  -- `Configuration.EnsureValid(false)`
  pub ensure_valid : Configuration L → Result (Unit {0})
