-- ===== src/Syncx/Client/Link.antt =====
-- internal/syncx/mutagen.go: the discipline of the connection. A trace of the client is read by an
-- automaton, which stops where a request has no verified connection under it.
pub mod Operations
use devcontainer_manager.Model.{Session}
use devcontainer_manager.Syncx.Daemon.{
  Event, opened, dial_failed, closed, version_matched, version_refused, listed, hosted, created,
  paused, resumed, terminated, stopped, Trace, Reply, rpc_failed, invalid, valid, State, Library,
  Daemon,
}
use devcontainer_manager.Syncx.Client.{
  Client, emit, and_then, reset, adopt, dialed, dial_endpoint, ensure_connected, settle, collect,
  list_owned, with_prompter, create, pause, resume, terminate, connect_unless, Call, create_call,
  under_prompter, pause_call, resume_call, terminate_call, CreationSpecification,
}
use devcontainer_manager.Base.{
  Str, Result, ok, err, ◌≡◌, refl, ◌∙◌, Bool, true, false, Option, none, some, List, [], ◌∷◌, arith,
}

-- The connection: none, one whose daemon is not verified yet, and one that may carry requests.
pub data Link : Type 0 where
  down fresh ready : Link

-- Requests need a verified connection, and a dial needs that there is none.
abbrev pub follow : Event → Link → Option Link
follow opened down = some fresh
follow opened _ = none
follow dial_failed down = some down
follow dial_failed _ = none
follow version_matched fresh = some ready
follow version_matched _ = none
follow version_refused fresh = some fresh
follow version_refused _ = none
follow closed down = none
follow closed _ = some down
follow stopped link = some link
follow _ ready = some ready
follow _ _ = none

abbrev pub follow? : Event → Option Link → Option Link
follow? e none = none
follow? e (some link) = follow e link

pub replay : Trace → Option Link
replay [] = some down
replay (e ∷ t) = follow? e (replay t)

abbrev link_of : Bool → Link
link_of true = ready
link_of false = down

-- The trace is in order, and ends with the connection that the client believes to have.
abbrev pub IsLinked : Client → Type 0
IsLinked c = replay c.trace ≡ some (link_of c.connected)

abbrev is_request : Event → Bool
is_request listed = true
is_request (hosted _) = true
is_request (created _) = true
is_request (paused _) = true
is_request (resumed _) = true
is_request (terminated _) = true
is_request _ = false

follow-request : (e : Event) → is_request e ≡ true → follow e ready ≡ some ready
follow-request listed h = refl
follow-request (hosted _) h = refl
follow-request (created _) h = refl
follow-request (paused _) h = refl
follow-request (resumed _) h = refl
follow-request (terminated _) h = refl
follow-request opened h = cc
follow-request dial_failed h = cc
follow-request closed h = cc
follow-request version_matched h = cc
follow-request version_refused h = cc
follow-request stopped h = cc

request-IsLinked :
    (e : Event) (c : Client)
    → is_request e ≡ true
    → c.connected ≡ true
    → IsLinked c
    → IsLinked (emit e c)
unfolding replay
request-IsLinked e c h up l =
    let on : replay c.trace ≡ some ready = l ∙ rw up refl in rw on (rw up (follow-request e h))

stopped-IsLinked : (c : Client) → IsLinked c → IsLinked (emit stopped c)
unfolding replay
stopped-IsLinked c l = rw l refl

reset-IsLinked : (c : Client) → IsLinked c → IsLinked (reset c)
unfolding reset replay
reset-IsLinked c l = ground arith

settle-IsLinked :
    {A : Type 0} (L : Library) (D : Daemon L) (r : Reply A) (c : Client)
    → IsLinked c
    → IsLinked (settle L D r c).0
unfolding settle
settle-IsLinked L D (rpc_failed e) c l = reset-IsLinked c l
settle-IsLinked L D (invalid e) c l = l
settle-IsLinked L D (valid a) c l = l

-- What a part of an operation does: it keeps the trace in order, and where it succeeds there is a
-- verified connection.
abbrev Connects {ℓ} : {A : Type ℓ} → Client × Result A → Type 0
Connects (c, ok _) = IsLinked c × (c.connected ≡ true)
Connects (c, err _) = IsLinked c

pub Connects-IsLinked {ℓ} : {A : Type ℓ} (p : Client × Result A) → Connects p → IsLinked p.0
Connects-IsLinked (c, ok a) h = h.0
Connects-IsLinked (c, err e) h = h

and_then-IsLinked {ℓ κ} :
    {A : Type ℓ} {B : Type κ} (p : Client × Result A) (f : A → Client → Client × Result B)
    → Connects p
    → ((a : A) (c : Client) → IsLinked c → c.connected ≡ true → IsLinked (f a c).0)
    → IsLinked (and_then p f).0
and_then-IsLinked (c, ok a) f h k = k a c h.0 h.1
and_then-IsLinked (c, err e) f h k = h

module _ (L : Library) (D : Daemon L) where
  adopt-Connects :
      (r : Result (Unit {0})) (c : Client)
      → replay c.trace ≡ some fresh
      → c.connected ≡ false
      → Connects (adopt L D r c)
  unfolding adopt replay
  adopt-Connects (ok u) c h off = (rw h refl, refl)
  adopt-Connects (err e) c h off = rw (h, off) refl

  dialed-Connects :
      (r : Result (Unit {0})) (c : Client)
      → replay c.trace ≡ some down
      → c.connected ≡ false
      → Connects (dialed L D r c)
  unfolding dialed replay
  dialed-Connects (err e) c h off = rw (h, off) refl
  dialed-Connects (ok u) c h off = adopt-Connects _ (emit opened c) (rw h refl) off

  dial_endpoint-Connects :
      (r : Result Str) (c : Client)
      → IsLinked c
      → c.connected ≡ false
      → Connects (dial_endpoint L D r c)
  unfolding dial_endpoint
  dial_endpoint-Connects (err e) c l off = l
  dial_endpoint-Connects (ok endpoint) c l off = dialed-Connects _ c (l ∙ rw off refl) off

  connect_unless-Connects :
      (b : Bool) (c : Client) → IsLinked c → c.connected ≡ b → Connects (connect_unless L D b c)
  unfolding connect_unless
  connect_unless-Connects true c l up = (l, up)
  connect_unless-Connects false c l off = dial_endpoint-Connects (D.endpoint_path c.trace) c l off

  pub ensure_connected-Connects : (c : Client) → IsLinked c → Connects (ensure_connected L D c)
  unfolding ensure_connected
  ensure_connected-Connects c l = connect_unless-Connects c.connected c l refl

  -- A call keeps the trace in order over a verified connection.
  abbrev KeepsLink : Call L D → Type 0
  KeepsLink call = (p : Str) (c : Client) → IsLinked c → c.connected ≡ true → IsLinked (call p c).0

  under_prompter-IsLinked :
      (allow : Bool) (call : Call L D) (host : Result Str) (c : Client)
      → KeepsLink call
      → IsLinked c
      → c.connected ≡ true
      → IsLinked (under_prompter L D allow call host c).0
  unfolding under_prompter
  under_prompter-IsLinked allow call (err e) c k l up = l
  under_prompter-IsLinked allow call (ok p) c k l up =
      stopped-IsLinked _
        (k p (emit (hosted allow) c) (request-IsLinked (hosted allow) c refl up l) up)

  pub with_prompter-IsLinked :
      (allow : Bool) (call : Call L D) (c : Client)
      → KeepsLink call
      → IsLinked c
      → c.connected ≡ true
      → IsLinked (with_prompter L D allow call c).0
  unfolding with_prompter
  with_prompter-IsLinked allow call c k l up =
      under_prompter-IsLinked allow call (D.host c.trace allow) c k l up

  -- An operation that connects first, and then goes on over a verified connection.
  abbrev connected_first :
      (Client → Client × Result (Unit {0})) → Client → Client × Result (Unit {0})
  connected_first run c = and_then (ensure_connected L D c) λ _ c. run c

  pub connected_first-IsLinked :
      (run : Client → Client × Result (Unit {0}))
      → ((c : Client) → IsLinked c → c.connected ≡ true → IsLinked (run c).0)
      → (c : Client) → IsLinked c
      → IsLinked (connected_first run c).0
  connected_first-IsLinked run k c l =
      and_then-IsLinked (ensure_connected L D c) _ (ensure_connected-Connects c l) (λ _. k)

  request_settled :
      {A : Type 0} (r : Reply A) (e : Event) (c : Client)
      → is_request e ≡ true
      → c.connected ≡ true
      → IsLinked c
      → IsLinked (settle L D r (emit e c)).0
  request_settled r e c h up l = settle-IsLinked L D r (emit e c) (request-IsLinked e c h up l)

  collect-IsLinked : (p : Client × Result (List State)) → IsLinked p.0 → IsLinked (collect L D p).0
  unfolding collect
  collect-IsLinked (c, ok states) h = h
  collect-IsLinked (c, err e) h = h

  pub list_owned-IsLinked : (c : Client) → IsLinked c → IsLinked (list_owned L D c).0
  unfolding list_owned
  list_owned-IsLinked c l =
      and_then-IsLinked (ensure_connected L D c) _ (ensure_connected-Connects c l) λ _ c l up.
        collect-IsLinked (settle L D (D.list c.trace) (emit listed c))
          (request_settled (D.list c.trace) listed c refl up l)

  pub create_call-KeepsLink :
      (s : Session) (spec : CreationSpecification L) → KeepsLink (create_call L D s spec)
  unfolding create_call
  create_call-KeepsLink s spec p c l up =
      request_settled (D.create c.trace p spec) (created s.name) c refl up l

  pub pause_call-KeepsLink : (s : Str) → KeepsLink (pause_call L D s)
  unfolding pause_call
  pause_call-KeepsLink s p c l up = request_settled (D.pause c.trace p s) (paused s) c refl up l

  pub resume_call-KeepsLink : (s : Str) → KeepsLink (resume_call L D s)
  unfolding resume_call
  resume_call-KeepsLink s p c l up = request_settled (D.resume c.trace p s) (resumed s) c refl up l

  pub terminate_call-KeepsLink : (s : Str) → KeepsLink (terminate_call L D s)
  unfolding terminate_call
  terminate_call-KeepsLink s p c l up =
      request_settled (D.terminate c.trace p s) (terminated s) c refl up l
