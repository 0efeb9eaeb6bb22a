-- ===== src/Syncx/Client/Effects.antt =====
-- internal/syncx/mutagen.go: which requests an operation can make. The four predicates say of which
-- sessions the requests may be; an operation emits its own kind, and else only such events as
-- connecting and listing make.
use mathlib.Core.List.{append_assoc}
use devcontainer_manager.Config.{SyncEntry, SyncDefaults}
use devcontainer_manager.Model.{Session}
use devcontainer_manager.Syncx.Daemon.{
  Event, opened, dial_failed, closed, version_matched, version_refused, listed, hosted, created,
  paused, resumed, terminated, stopped, Trace, Reply, rpc_failed, invalid, valid, State, Library,
  Daemon, CreationSpecification,
}
use devcontainer_manager.Syncx.Specification.{creation_specification}
use devcontainer_manager.Syncx.Client.{
  Client, emit, and_then, reset, adopt, dialed, dial_endpoint, connect_unless, ensure_connected,
  settle, collect, list_owned, Call, under_prompter, with_prompter, create_call, pause_call,
  resume_call, terminate_call, create_specified, create, pause, resume, terminate,
}
use devcontainer_manager.Base.{
  Bool-cases, All, All-append, Str, Result, ok, err, ◌≡◌, refl, sym, ◌∙◌, inl, inr, Bool, true,
  false, List, [], ◌∷◌, ◌++◌, arith,
}

module _ (MayCreate MayPause MayResume MayTerminate : Str → Type 0) where
  abbrev pub Allowed : Event → Type 0
  Allowed (created name) = MayCreate name
  Allowed (paused name) = MayPause name
  Allowed (resumed name) = MayResume name
  Allowed (terminated name) = MayTerminate name
  Allowed _ = Unit

  -- From the one client to the other, only allowed events were emitted.
  pub record Emits (c c' : Client) : Type 0 where
    pub new : Trace
    pub trace : c'.trace ≡ new ++ c.trace
    pub allowed : All Allowed new

  pub Emits-refl : (c : Client) → Emits c c
  Emits-refl c = record { new = []; trace = refl; allowed = tt }

  pub Emits-trans : {a b c : Client} → Emits a b → Emits b c → Emits a c
  Emits-trans h k = record {
    new = k.new ++ h.new;
    trace = k.trace ∙ rw h.trace (sym (append_assoc k.new h.new _));
    allowed = All-append Allowed k.new h.new k.allowed h.allowed;
  }

  Emits-one : (e : Event) (c : Client) → Allowed e → Emits c (emit e c)
  Emits-one e c a = record { new = e ∷ []; trace = refl; allowed = (a, tt) }

  -- The same from a client and an event that it emits, and up to one.
  Emits-emit : (e : Event) (c : Client) {c' : Client} → Allowed e → Emits (emit e c) c' → Emits c c'
  Emits-emit e c a h = Emits-trans (Emits-one e c a) h

  Emits-after : (e : Event) (c : Client) {b : Client} → Allowed e → Emits b c → Emits b (emit e c)
  Emits-after e c a h = Emits-trans h (Emits-one e c a)

  reset-Emits : (c : Client) → Emits c (reset c)
  unfolding reset
  reset-Emits c = elim (Bool-cases c.connected) [
    | inl up ↦ record { new = closed ∷ []; trace = ground arith; allowed = (tt, tt) }
    | inr off ↦ record { new = []; trace = ground arith; allowed = tt }
  ]

  and_then-Emits {ℓ κ} :
      {A : Type ℓ} {B : Type κ} (c : Client) (p : Client × Result A)
      (f : A → Client → Client × Result B)
      → Emits c p.0
      → ((a : A) (b : Client) → Emits b (f a b).0)
      → Emits c (and_then p f).0
  and_then-Emits c (b, ok a) f h k = Emits-trans h (k a b)
  and_then-Emits c (b, err e) f h k = h

  module _ (L : Library) (D : Daemon L) where
    settle-Emits : {A : Type 0} (r : Reply A) (c : Client) → Emits c (settle L D r c).0
    unfolding settle
    settle-Emits (rpc_failed e) c = reset-Emits c
    settle-Emits (invalid e) c = Emits-refl c
    settle-Emits (valid a) c = Emits-refl c

    adopt-Emits : (r : Result (Unit {0})) (c : Client) → Emits c (adopt L D r c).0
    unfolding adopt
    adopt-Emits (ok u) c = record { new = version_matched ∷ []; trace = refl; allowed = (tt, tt) }
    adopt-Emits (err e) c = Emits-after closed _ tt (Emits-one version_refused c tt)

    dialed-Emits : (r : Result (Unit {0})) (c : Client) → Emits c (dialed L D r c).0
    unfolding dialed
    dialed-Emits (err e) c = Emits-one dial_failed c tt
    dialed-Emits (ok u) c = Emits-emit opened c tt (adopt-Emits _ (emit opened c))

    dial_endpoint-Emits : (r : Result Str) (c : Client) → Emits c (dial_endpoint L D r c).0
    unfolding dial_endpoint
    dial_endpoint-Emits (err e) c = Emits-refl c
    dial_endpoint-Emits (ok endpoint) c = dialed-Emits (D.dial c.trace endpoint) c

    connect_unless-Emits : (b : Bool) (c : Client) → Emits c (connect_unless L D b c).0
    unfolding connect_unless
    connect_unless-Emits true c = Emits-refl c
    connect_unless-Emits false c = dial_endpoint-Emits (D.endpoint_path c.trace) c

    pub ensure_connected-Emits : (c : Client) → Emits c (ensure_connected L D c).0
    unfolding ensure_connected
    ensure_connected-Emits c = connect_unless-Emits c.connected c

    collect-Emits :
        (c : Client) (p : Client × Result (List State)) → Emits c p.0 → Emits c (collect L D p).0
    unfolding collect
    collect-Emits c (b, ok states) h = h
    collect-Emits c (b, err e) h = h

    pub list_owned-Emits : (c : Client) → Emits c (list_owned L D c).0
    unfolding list_owned
    list_owned-Emits c =
        and_then-Emits c (ensure_connected L D c) _ (ensure_connected-Emits c) λ _ b.
          collect-Emits b (settle L D (D.list b.trace) (emit listed b))
            (Emits-emit listed b tt (settle-Emits (D.list b.trace) (emit listed b)))

    under_prompter-Emits :
        (allow : Bool) (call : Call L D) (host : Result Str) (c : Client)
        → ((p : Str) (b : Client) → Emits b (call p b).0)
        → Emits c (under_prompter L D allow call host c).0
    unfolding under_prompter
    under_prompter-Emits allow call (err e) c k = Emits-refl c
    under_prompter-Emits allow call (ok p) c k =
        Emits-after stopped _ tt (Emits-emit (hosted allow) c tt (k p (emit (hosted allow) c)))

    -- An operation that connects, hosts a prompter and makes its call.
    prompted-Emits :
        (allow : Bool) (call : Call L D) (c : Client)
        → ((p : Str) (b : Client) → Emits b (call p b).0)
        → Emits c (and_then (ensure_connected L D c) λ _ b. with_prompter L D allow call b).0
    unfolding with_prompter
    prompted-Emits allow call c k =
        and_then-Emits c (ensure_connected L D c) _ (ensure_connected-Emits c)
          λ _ b. under_prompter-Emits allow call (D.host b.trace allow) b k

    pub pause-Emits : (name : Str) (c : Client) → MayPause name → Emits c (pause L D name c).0
    unfolding pause pause_call
    pause-Emits name c a = prompted-Emits false (pause_call L D name) c λ p b.
        Emits-emit (paused name) b a (settle-Emits (D.pause b.trace p name) (emit (paused name) b))

    pub resume-Emits : (name : Str) (c : Client) → MayResume name → Emits c (resume L D name c).0
    unfolding resume resume_call
    resume-Emits name c a = prompted-Emits true (resume_call L D name) c λ p b.
        Emits-emit (resumed name) b a
          (settle-Emits (D.resume b.trace p name) (emit (resumed name) b))

    pub terminate-Emits :
        (name : Str) (c : Client) → MayTerminate name → Emits c (terminate L D name c).0
    unfolding terminate terminate_call
    terminate-Emits name c a = prompted-Emits false (terminate_call L D name) c λ p b.
        Emits-emit (terminated name) b a
          (settle-Emits (D.terminate b.trace p name) (emit (terminated name) b))

    create_specified-Emits :
        (s : Session) (r : Result (CreationSpecification L)) (c : Client)
        → MayCreate s.name
        → Emits c (create_specified L D s r c).0
    unfolding create_specified with_prompter create_call
    create_specified-Emits s (err e) c a = Emits-refl c
    create_specified-Emits s (ok spec) c a =
        under_prompter-Emits true (create_call L D s spec) (D.host c.trace true) c λ p b.
          Emits-emit (created s.name) b a
            (settle-Emits (D.create b.trace p spec) (emit (created s.name) b))

    pub create-Emits :
        (s : Session) (e : SyncEntry) (d : SyncDefaults) (c : Client)
        → MayCreate s.name
        → Emits c (create L D s e d c).0
    unfolding create
    create-Emits s e d c a =
        and_then-Emits c (ensure_connected L D c) _ (ensure_connected-Emits c)
          λ _ b. create_specified-Emits s (creation_specification L D s e d) b a
