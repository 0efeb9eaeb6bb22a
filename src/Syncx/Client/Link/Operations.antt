-- ===== src/Syncx/Client/Link/Operations.antt =====
-- internal/syncx/mutagen.go: the operations of the client under the discipline of the connection.
use devcontainer_manager.Config.{SyncEntry, SyncDefaults}
use devcontainer_manager.Model.{Session}
use devcontainer_manager.Syncx.Daemon.{Library, Daemon}
use devcontainer_manager.Syncx.Specification.{creation_specification}
use devcontainer_manager.Syncx.Client.{
  Client, new_client, ensure_connected, list_owned, with_prompter, create, pause, resume, terminate,
  create_call, pause_call, resume_call, terminate_call, create_specified, CreationSpecification,
}
use devcontainer_manager.Base.{Str, Result, ok, err, ◌≡◌, refl, true, false, List, [], ◌∷◌}
use devcontainer_manager.Syncx.Client.Link.{
  IsLinked, replay, Connects-IsLinked, with_prompter-IsLinked, create_call-KeepsLink,
  pause_call-KeepsLink, resume_call-KeepsLink, terminate_call-KeepsLink, connected_first-IsLinked,
  ensure_connected-Connects, list_owned-IsLinked,
}

module _ (L : Library) (D : Daemon L) where
  create_specified-IsLinked :
      (s : Session) (r : Result (CreationSpecification L)) (c : Client)
      → IsLinked c
      → c.connected ≡ true
      → IsLinked (create_specified L D s r c).0
  unfolding create_specified
  create_specified-IsLinked s (err e) c l up = l
  create_specified-IsLinked s (ok spec) c l up =
      with_prompter-IsLinked L D true (create_call L D s spec) c (create_call-KeepsLink L D s spec)
        l up

  create-IsLinked :
      (s : Session) (e : SyncEntry) (d : SyncDefaults) (c : Client)
      → IsLinked c
      → IsLinked (create L D s e d c).0
  unfolding create
  create-IsLinked s e d =
      connected_first-IsLinked L D (create_specified L D s (creation_specification L D s e d))
        (create_specified-IsLinked s (creation_specification L D s e d))

  pause-IsLinked : (s : Str) (c : Client) → IsLinked c → IsLinked (pause L D s c).0
  unfolding pause
  pause-IsLinked s =
      connected_first-IsLinked L D (with_prompter L D false (pause_call L D s)) λ c l up.
        with_prompter-IsLinked L D false (pause_call L D s) c (pause_call-KeepsLink L D s) l up

  resume-IsLinked : (s : Str) (c : Client) → IsLinked c → IsLinked (resume L D s c).0
  unfolding resume
  resume-IsLinked s =
      connected_first-IsLinked L D (with_prompter L D true (resume_call L D s)) λ c l up.
        with_prompter-IsLinked L D true (resume_call L D s) c (resume_call-KeepsLink L D s) l up

  terminate-IsLinked : (s : Str) (c : Client) → IsLinked c → IsLinked (terminate L D s c).0
  unfolding terminate
  terminate-IsLinked s =
      connected_first-IsLinked L D (with_prompter L D false (terminate_call L D s)) λ c l up.
        with_prompter-IsLinked L D false (terminate_call L D s) c (terminate_call-KeepsLink L D s) l
          up

  -- The operations of the client.
  pub data Operation : Type 0 where
    connect list : Operation
    create_session : Session → SyncEntry → SyncDefaults → Operation
    pause_session resume_session terminate_session : Str → Operation

  pub perform : Operation → Client → Client
  perform connect c = (ensure_connected L D c).0
  perform list c = (list_owned L D c).0
  perform (create_session s e d) c = (create L D s e d c).0
  perform (pause_session s) c = (pause L D s c).0
  perform (resume_session s) c = (resume L D s c).0
  perform (terminate_session s) c = (terminate L D s c).0

  pub perform_all : List Operation → Client → Client
  perform_all [] c = c
  perform_all (o ∷ os) c = perform_all os (perform o c)

  perform-IsLinked : (o : Operation) (c : Client) → IsLinked c → IsLinked (perform o c)
  unfolding perform
  perform-IsLinked connect c l = Connects-IsLinked _ (ensure_connected-Connects L D c l)
  perform-IsLinked list c l = list_owned-IsLinked L D c l
  perform-IsLinked (create_session s e d) c l = create-IsLinked s e d c l
  perform-IsLinked (pause_session s) c l = pause-IsLinked s c l
  perform-IsLinked (resume_session s) c l = resume-IsLinked s c l
  perform-IsLinked (terminate_session s) c l = terminate-IsLinked s c l

  perform_all-IsLinked_from :
      (os : List Operation) (c : Client) → IsLinked c → IsLinked (perform_all os c)
  unfolding perform_all
  perform_all-IsLinked_from [] c l = l
  perform_all-IsLinked_from (o ∷ os) c l =
      perform_all-IsLinked_from os (perform o c) (perform-IsLinked o c l)

  -- Whatever the daemon replies, and whatever is asked of a new client, its events are in order: it
  -- dials only when it has no connection, closes what it opened, sends no request but over a
  -- connection whose daemon version was verified, and knows at the end which connection it has.
  pub perform_all-IsLinked : (os : List Operation) → IsLinked (perform_all os new_client)
  unfolding replay
  perform_all-IsLinked os = perform_all-IsLinked_from os new_client refl
