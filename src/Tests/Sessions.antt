-- ===== src/Tests/Sessions.antt =====
-- internal/syncx at concrete inputs: a daemon without sessions and one container with a sync entry.
use devcontainer_manager.Syncx.Client.{new_client}
use devcontainer_manager.Syncx.Client.Link.{IsLinked}
use devcontainer_manager.Syncx.Client.Link.Operations.{
  connect, list, pause_session, perform_all, perform_all-IsLinked,
}
use devcontainer_manager.Syncx.Controller.{find_live, reconcile}
use devcontainer_manager.Syncx.Controller.Visits.{wanted}
use devcontainer_manager.Syncx.Controller.Effects.{reconcile-Justified}
use devcontainer_manager.Syncx.Controller.Requests.{Justified}
use devcontainer_manager.Syncx.Controller.Reports.{AllReport, reconcile-AllReport}
use devcontainer_manager.Config.Defaults.{default}
use devcontainer_manager.Syncx.Naming.{Wanted, short_id, desired_session-distinct}
use devcontainer_manager.Tests.Samples.{sync_entry, machine, library, mutagen, config, container}
use devcontainer_manager.Base.{lit, ℕ, ◌≡◌, refl, [], ◌∷◌}

perform_all-IsLinked_example :
    IsLinked
      (perform_all library mutagen (connect ∷ list ∷ pause_session (lit "s") ∷ []) new_client)
perform_all-IsLinked_example =
    perform_all-IsLinked library mutagen (connect ∷ list ∷ pause_session (lit "s") ∷ [])

reconcile-Justified_example :
    Justified machine library mutagen config
      (find_live machine library mutagen new_client).1
      (wanted (container ∷ []))
      new_client
      (reconcile machine library mutagen (container ∷ []) config new_client).0
reconcile-Justified_example =
    reconcile-Justified machine library mutagen config (container ∷ []) new_client

reconcile-AllReport_example :
    AllReport machine library mutagen config
      (find_live machine library mutagen new_client).1
      (wanted (container ∷ []))
      (find_live machine library mutagen new_client).0
      (reconcile machine library mutagen (container ∷ []) config new_client).1
unfolding default
reconcile-AllReport_example =
    reconcile-AllReport machine library mutagen (container ∷ []) config new_client refl

-- Two places in the rule of one container.
abbrev first_entry : Wanted
first_entry = record { container = container; rule = lit "auth"; index = 10; sync = sync_entry }

desired_session-distinct_example :
    (short_id container.id ≡ short_id container.id) × (◌≡◌ {A = ℕ} 10 10)
desired_session-distinct_example =
    desired_session-distinct machine.sha1 first_entry first_entry refl refl
