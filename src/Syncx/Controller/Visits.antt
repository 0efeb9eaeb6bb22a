-- ===== src/Syncx/Controller/Visits.antt =====
-- internal/syncx/controller.go: the sync entries that `Reconcile` visits, as one list, and what its
-- loops make of that list.
use devcontainer_manager.Base.Map
use devcontainer_manager.Base.Map.{Map, lookup-insert}
use devcontainer_manager.Config.{Config, Rule, SyncEntry}
use devcontainer_manager.Model.{Container}
use devcontainer_manager.Syncx.Daemon.{Library, Daemon}
use devcontainer_manager.Syncx.Client.{LiveSession}
use devcontainer_manager.Syncx.Naming.{Wanted, desired_session}
use devcontainer_manager.Syncx.Controller.{
  Machine, Progress, reconcile_entry, reconcile_syncs, reconcile_rule, reconcile_containers,
}
use devcontainer_manager.Base.{
  In, here, there, Str, eq_refl, ℕ, suc, ◌≡◌, refl, sym, ap, ◌∙◌, subst, true, Option, none, some,
  List, [], ◌∷◌, ◌++◌, arith,
}

unfoldable pub wanted_syncs : Container → Str → ℕ → List SyncEntry → List Wanted
wanted_syncs container rule index [] = []
wanted_syncs container rule index (sync ∷ syncs) =
    record { container = container; rule = rule; index = index; sync = sync }
    ∷ wanted_syncs container rule (suc index) syncs

unfoldable pub wanted_rule : Container → Option Rule → List Wanted
wanted_rule container none = []
wanted_rule container (some rule) = wanted_syncs container rule.name 0 rule.syncs

-- Each entry of the rule of each container, in order.
unfoldable pub wanted : List Container → List Wanted
wanted [] = []
wanted (container ∷ containers) = wanted_rule container container.rule ++ wanted containers

module _ (M : Machine) (L : Library) (D : Daemon L) (cfg : Config)
    (live : Option (Map LiveSession)) where
  unfoldable pub serve_all : List Wanted → Progress → Progress
  serve_all [] p = p
  serve_all (w ∷ ws) p = serve_all ws (reconcile_entry M L D cfg live w p)

  serve_all-append :
      (vs ws : List Wanted) (p : Progress) → serve_all (vs ++ ws) p ≡ serve_all ws (serve_all vs p)
  unfolding serve_all
  serve_all-append [] ws p = refl
  serve_all-append (v ∷ vs) ws p = serve_all-append vs ws (reconcile_entry M L D cfg live v p)

  reconcile_syncs-serve_all :
      (container : Container) (rule : Str) (index : ℕ) (syncs : List SyncEntry) (p : Progress)
      → reconcile_syncs M L D cfg live container rule index syncs p
        ≡ serve_all (wanted_syncs container rule index syncs) p
  unfolding reconcile_syncs serve_all wanted_syncs
  reconcile_syncs-serve_all container rule index [] p = refl
  reconcile_syncs-serve_all container rule index (s ∷ ss) p =
      reconcile_syncs-serve_all container rule (suc index) ss _

  reconcile_rule-serve_all :
      (container : Container) (rule : Option Rule) (p : Progress)
      → reconcile_rule M L D cfg live container rule p ≡ serve_all (wanted_rule container rule) p
  unfolding reconcile_rule serve_all wanted_rule
  reconcile_rule-serve_all container none p = refl
  reconcile_rule-serve_all container (some rule) p =
      reconcile_syncs-serve_all container rule.name 0 rule.syncs p

  -- The two nested loops are one loop over the list.
  pub reconcile_containers-serve_all :
      (cs : List Container) (p : Progress)
      → reconcile_containers M L D cfg live cs p ≡ serve_all (wanted cs) p
  unfolding reconcile_containers serve_all wanted
  reconcile_containers-serve_all [] p = refl
  reconcile_containers-serve_all (c ∷ cs) p =
      reconcile_containers-serve_all cs _
      ∙ ap (serve_all (wanted cs)) (reconcile_rule-serve_all c c.rule p)
      ∙ sym (serve_all-append (wanted_rule c c.rule) (wanted cs) p)

  abbrev pub wanted_name : Wanted → Str
  wanted_name w = (desired_session M.sha1 w).name

  entry_keeps_desired :
      (w : Wanted) (p : Progress) (n : Str)
      → Map.lookup n p.desired ≡ some true
      → Map.lookup n (reconcile_entry M L D cfg live w p).desired ≡ some true
  unfolding reconcile_entry
  entry_keeps_desired w p n h = ground (arith, lookup-insert (wanted_name w) n true p.desired)

  serve_all_keeps_desired :
      (ws : List Wanted) (p : Progress) (n : Str)
      → Map.lookup n p.desired ≡ some true
      → Map.lookup n (serve_all ws p).desired ≡ some true
  unfolding serve_all
  serve_all_keeps_desired [] p n h = h
  serve_all_keeps_desired (w ∷ ws) p n h =
      serve_all_keeps_desired ws _ n (entry_keeps_desired w p n h)

  entry_is_desired :
      (w : Wanted) (p : Progress)
      → Map.lookup (wanted_name w) (reconcile_entry M L D cfg live w p).desired ≡ some true
  unfolding reconcile_entry
  entry_is_desired w p =
      lookup-insert (wanted_name w) (wanted_name w) true p.desired
      ∙ rw (eq_refl (wanted_name w)) refl

  -- The name of every visited entry is noted as desired.
  pub serve_all-desired :
      (ws : List Wanted) (p : Progress) (w : Wanted)
      → In w ws
      → Map.lookup (wanted_name w) (serve_all ws p).desired ≡ some true
  unfolding serve_all
  serve_all-desired [] p w i = elim i [ ]
  serve_all-desired (v ∷ ws) p w (here e) = serve_all_keeps_desired ws _ (wanted_name w) (
      subst
        (λ u. Map.lookup (wanted_name u) (reconcile_entry M L D cfg live v p).desired ≡ some true)
        (sym e) (entry_is_desired v p))
  serve_all-desired (v ∷ ws) p w (there i) = serve_all-desired ws _ w i
