-- ===== src/Syncx/Client.antt =====
-- internal/syncx/mutagen.go: the client of the Mutagen daemon.
--
-- `conn`, `sync` and `prompt` are set and cleared together, so they are one flag. The events of the
-- client are kept with it. `defer` is written out where it runs. Contexts and timeouts enter by the
-- replies of the daemon, which may fail at any time.
pub mod Link
pub mod Effects
use devcontainer_manager.Base.Map
use devcontainer_manager.Base.Map.{Map}
use devcontainer_manager.Go.Strings.{itoa, trim_prefix, to_lower}
use devcontainer_manager.Config.{SyncEntry, SyncDefaults}
use devcontainer_manager.Model.{Session}
use devcontainer_manager.Syncx.Daemon.{
  Event, opened, dial_failed, closed, version_matched, version_refused, listed, hosted, created,
  paused, resumed, terminated, stopped, Trace, Reply, rpc_failed, invalid, valid, Version, Status,
  watching, disconnected, other, State, Library, Daemon, CreationSpecification,
}
use devcontainer_manager.Syncx.Specification.{creation_specification}
use devcontainer_manager.Base.{
  nat_eq, if◌then◌else◌, Str, lit, is_empty, ◌==◌, Result, ok, err, Bool, true, false, not, ◌&&◌,
  none, some, List, [], ◌∷◌, ◌++◌, map,
}

pub record Client : Type 0 where
  pub connected : Bool
  pub trace : Trace

-- `newMutagenClient`
abbrev pub new_client : Client
new_client = record { connected = false; trace = [] }

abbrev pub emit : Event → Client → Client
emit e c = record c { trace = e ∷ c.trace }

-- `liveSession`
pub record LiveSession : Type 0 where
  pub id : Str
  pub name : Str
  pub status : Str

-- The code that follows a call, where the call succeeded.
abbrev pub and_then {ℓ κ} :
    {A : Type ℓ} {B : Type κ}
    → Client × Result A
    → (A → Client → Client × Result B)
    → Client × Result B
and_then (c, ok a) f = f a c
and_then (c, err e) f = (c, err e)

-- `reset`
unfoldable pub reset : Client → Client
reset c = if c.connected then record { connected = false; trace = closed ∷ c.trace } else c

-- `strings.ReplaceAll(s, "_", "-")`
abbrev dashes : Str → Str
dashes = map (λ c. if nat_eq c b'_' then b'-' else c)

unfoldable pub status_text : Status → Str
status_text watching = lit "ready"
status_text disconnected = lit "disconnected"
status_text (other name) = to_lower (dashes (trim_prefix name (lit "Status_")))

-- `mutagenStatus`, of a state that is not nil
unfoldable pub mutagen_status : State → Str
unfolding status_text
mutagen_status state = elim state.session [
  | none ↦ lit "unknown"
  | some session ↦
      if session.paused
      then lit "paused"
      else if not (is_empty state.last_error)
      then lit "error"
      else status_text state.status
]

-- One round of the loop of `listOwned`.
unfoldable pub add_live : State → Map LiveSession → Map LiveSession
add_live state live = elim state.session [
  | none ↦ live
  | some session ↦
      let name = if is_empty session.name then session.identifier else session.name in
      Map.insert name
        (record { id = session.identifier; name = name; status = mutagen_status state }) live
]

unfoldable pub live_sessions : List State → Map LiveSession → Map LiveSession
unfolding add_live
live_sessions [] live = live
live_sessions (state ∷ states) live = live_sessions states (add_live state live)

abbrev same_version : Version → Version → Bool
same_version v w =
    nat_eq v.major w.major && nat_eq v.minor w.minor && nat_eq v.patch w.patch && v.tag == w.tag

-- `fmt.Sprintf("%d.%d.%d%s", …)`
abbrev version_text : Version → Str
version_text v = itoa v.major ++ (lit "." ++ (itoa v.minor ++ (lit "." ++ (itoa v.patch ++ v.tag))))

module _ (L : Library) (D : Daemon L) where
  -- `verifyDaemonVersion`, from the response
  unfoldable pub check_version : Result Version → Result (Unit {0})
  check_version (err e) = err (lit "unable to query daemon version: " ++ L.peel e)
  check_version (ok v) =
      if same_version v L.version
      then ok tt
      else err (
          lit "client/daemon version mismatch: client="
          ++ (version_text L.version ++ (lit " daemon=" ++ version_text v)))

  -- The end of `ensureConnected`, over the new connection.
  unfoldable pub adopt : Result (Unit {0}) → Client → Client × Result (Unit {0})
  adopt (ok _) c = (record { connected = true; trace = version_matched ∷ c.trace }, ok tt)
  adopt (err e) c = (emit closed (emit version_refused c), err e)

  unfoldable pub dialed : Result (Unit {0}) → Client → Client × Result (Unit {0})
  unfolding check_version adopt
  dialed (err e) c = (emit dial_failed c, err e)
  dialed (ok _) c = adopt (check_version (D.version (opened ∷ c.trace))) (emit opened c)

  unfoldable pub dial_endpoint : Result Str → Client → Client × Result (Unit {0})
  unfolding dialed
  dial_endpoint (err e) c = (c, err (lit "unable to compute daemon endpoint path: " ++ e))
  dial_endpoint (ok endpoint) c = dialed (D.dial c.trace endpoint) c

  -- `ensureConnected`, from the test of `c.conn`
  unfoldable pub connect_unless : Bool → Client → Client × Result (Unit {0})
  unfolding dial_endpoint
  connect_unless true c = (c, ok tt)
  connect_unless false c = dial_endpoint (D.endpoint_path c.trace) c

  unfoldable pub ensure_connected : Client → Client × Result (Unit {0})
  unfolding connect_unless
  ensure_connected c = connect_unless c.connected c

  -- What follows a remote call: a transport error resets the client.
  unfoldable pub settle : {A : Type 0} → Reply A → Client → Client × Result A
  unfolding reset
  settle (rpc_failed e) c = (reset c, err (L.peel e))
  settle (invalid e) c = (c, err e)
  settle (valid a) c = (c, ok a)

  unfoldable pub collect : Client × Result (List State) → Client × Result (Map LiveSession)
  unfolding live_sessions
  collect (c, ok states) = (c, ok (live_sessions states []))
  collect (c, err e) = (c, err e)

  unfoldable pub list_owned : Client → Client × Result (Map LiveSession)
  unfolding ensure_connected settle collect
  list_owned c =
      and_then (ensure_connected c) λ _ c. collect (settle (D.list c.trace) (emit listed c))

  -- The call of a remote method, under a prompter.
  abbrev pub Call : Type 0
  Call = Str → Client → Client × Result (Unit {0})

  abbrev pub stop_prompting : Client × Result (Unit {0}) → Client × Result (Unit {0})
  stop_prompting (c, r) = (emit stopped c, r)

  unfoldable pub under_prompter : Bool → Call → Result Str → Client → Client × Result (Unit {0})
  under_prompter allow call (err e) c = (c, err (lit "unable to host mutagen prompter: " ++ e))
  under_prompter allow call (ok prompter) c = stop_prompting (call prompter (emit (hosted allow) c))

  -- `hostPrompter`, the call and the deferred stop. Without a prompter there is no call.
  unfoldable pub with_prompter : Bool → Call → Client → Client × Result (Unit {0})
  unfolding under_prompter
  with_prompter allow call c = under_prompter allow call (D.host c.trace allow) c

  unfoldable pub create_call : Session → CreationSpecification L → Call
  unfolding settle
  create_call session specification prompter c =
      settle (D.create c.trace prompter specification) (emit (created session.name) c)

  unfoldable pub pause_call : Str → Call
  unfolding settle
  pause_call specification prompter c =
      settle (D.pause c.trace prompter specification) (emit (paused specification) c)

  unfoldable pub resume_call : Str → Call
  unfolding settle
  resume_call specification prompter c =
      settle (D.resume c.trace prompter specification) (emit (resumed specification) c)

  unfoldable pub terminate_call : Str → Call
  unfolding settle
  terminate_call specification prompter c =
      settle (D.terminate c.trace prompter specification) (emit (terminated specification) c)

  unfoldable pub create_specified :
      Session → Result (CreationSpecification L) → Client → Client × Result (Unit {0})
  unfolding with_prompter create_call
  create_specified session (err e) c = (c, err e)
  create_specified session (ok specification) c =
      with_prompter true (create_call session specification) c

  unfoldable pub create : Session → SyncEntry → SyncDefaults → Client → Client × Result (Unit {0})
  unfolding ensure_connected create_specified
  create session sync_entry defaults c =
      and_then (ensure_connected c)
        λ _ c. create_specified session (creation_specification L D session sync_entry defaults) c

  unfoldable pub pause : Str → Client → Client × Result (Unit {0})
  unfolding ensure_connected with_prompter pause_call
  pause specification c =
      and_then (ensure_connected c) λ _ c. with_prompter false (pause_call specification) c

  unfoldable pub resume : Str → Client → Client × Result (Unit {0})
  unfolding ensure_connected with_prompter resume_call
  resume specification c =
      and_then (ensure_connected c) λ _ c. with_prompter true (resume_call specification) c

  unfoldable pub terminate : Str → Client → Client × Result (Unit {0})
  unfolding ensure_connected with_prompter terminate_call
  terminate specification c =
      and_then (ensure_connected c) λ _ c. with_prompter false (terminate_call specification) c
