-- ===== src/App/Loops/Debounce.antt =====
-- internal/app/service.go: when `watchConfig` loads the configuration.
use devcontainer_manager.Config.{Config}
use devcontainer_manager.Config.Matching.{Patterns}
use devcontainer_manager.Config.Validation.{ReadFile, LoadError, load}
use devcontainer_manager.Go.Path.{clean}
use devcontainer_manager.Dockerx.{Connections}
use devcontainer_manager.Model.{Container}
use devcontainer_manager.App.Loops.{
  settling, Owner, idle, Received, event, closed, failed, System, Label, other, changed, reloaded,
  on_received, on_ticked, on_file_event, after_list, list_containers, on_loaded, Step, receives,
  ticks, lists, finishes, watches, fires, cancels, stops, refreshes, Run, begin, next,
}
use devcontainer_manager.Base.{
  Bool-cases, Str, ◌==◌, Result, ok, err, ℕ, ◌+◌, ◌≤◌, ◌≡◌, refl, sym, ◌∙◌, ◌↔◌, inl, inr, Option,
  none, some, List, [], ◌∷◌, arith,
}

-- The deadline that the last change leaves, if the file was not loaded since.
pending : List Label → Option ℕ
pending [] = none
pending (other ∷ ls) = pending ls
pending (changed t ∷ ls) = some (t + settling)
pending (reloaded t ∷ ls) = none

-- The last change was at this time, and the file was not loaded since.
pub data LastChange (t : ℕ) : List Label → Type 0 where
  now : {ls : List Label} → LastChange t (changed t ∷ ls)
  before : {ls : List Label} → LastChange t ls → LastChange t (other ∷ ls)

pending-LastChange :
    (ls : List Label) (d : ℕ) → pending ls ≡ some d → (t : ℕ) × LastChange t ls × (d ≡ t + settling)
unfolding pending
pending-LastChange [] d h = cc
pending-LastChange (other ∷ ls) d h =
    let (t, last, e) = pending-LastChange ls d h in (t, before last, e)
pending-LastChange (changed t ∷ ls) d h = (t, now, ground arith)
pending-LastChange (reloaded t ∷ ls) d h = cc

LastChange-pending : {t : ℕ} {ls : List Label} → LastChange t ls → pending ls ≡ some (t + settling)
unfolding pending
LastChange-pending now = refl
LastChange-pending (before last) = LastChange-pending last

received-timer : (r : Received) (s : System) → (on_received r s).timer ≡ s.timer
unfolding on_received
received-timer event s = refl
received-timer closed s = ground arith
received-timer (failed none) s = refl
received-timer (failed (some canceled)) s = ground arith

after_list-timer :
    (o : Owner) (cfg : Config) (r : Result (Option (Connections × List Container))) (s u : System)
    → after_list o cfg r s ≡ some u
    → u.timer ≡ s.timer
unfolding after_list
after_list-timer o cfg (err e) s u h = ground arith
after_list-timer o cfg (ok none) s u h = cc
after_list-timer o cfg (ok (some (cs, listed))) s u h = ground arith

loaded-timer : (r : Config × Option LoadError) (s : System) → (on_loaded r s).timer ≡ none
unfolding on_loaded
loaded-timer (cfg, none) s = refl
loaded-timer (cfg, some e) s = refl

module _ (path : Str) (P : Patterns) (unmarshal : Str → Config → Result Config) where
  file_event-timer :
      (name : Str) (at : ℕ) (s : System) (ls : List Label)
      → s.timer ≡ pending ls
      → (on_file_event path name at s).1.timer ≡ pending ((on_file_event path name at s).0 ∷ ls)
  unfolding on_file_event pending
  file_event-timer name at s ls h = elim (Bool-cases (clean name == clean path)) [
    | inl own ↦ rw own refl
    | inr foreign ↦ rw foreign h
  ]

  Step-timer :
      {s u : System} {l : Label} (ls : List Label)
      → Step path P unmarshal s l u
      → s.timer ≡ pending ls
      → u.timer ≡ pending (l ∷ ls)
  unfolding pending on_ticked list_containers
  Step-timer {s} ls (receives r free) h = received-timer r s ∙ h
  Step-timer {s} ls (ticks free) h = h
  Step-timer {s} ls (lists o O cfg u at listed) h = after_list-timer o cfg _ s u listed ∙ h
  Step-timer {s} ls (finishes o O cfg previous cs listed at) h = h
  Step-timer {s} ls (watches name at free) h = file_event-timer name at s ls h
  Step-timer {s} ls (fires deadline at file free has over) h =
      loaded-timer (load P unmarshal file) s
  Step-timer {s} ls cancels h = h
  Step-timer {s} ls (stops o free done) h = h
  Step-timer {s} ls (refreshes B c) h = h

  Run-timer :
      {s u : System} {ls : List Label}
      → Run path P unmarshal s ls u
      → s.timer ≡ none
      → u.timer ≡ pending ls
  unfolding pending
  Run-timer begin h = h
  Run-timer (next {ls = ls} run step) h = Step-timer ls step (Run-timer run h)

  fired :
      {s u : System} {l : Label} (at : ℕ)
      → Step path P unmarshal s l u
      → l ≡ reloaded at
      → (deadline : ℕ) × (s.timer ≡ some deadline) × (deadline ≤ at)
  unfolding on_file_event
  fired at (receives r free) h = cc
  fired at (ticks free) h = cc
  fired at (lists o O cfg u at_list listed) h = cc
  fired at (finishes o O cfg previous cs listed at_end) h = cc
  fired {s} at (watches name seen free) h = absurd (ground arith)
  fired at (fires deadline seen file free has over) h = (deadline, has, ground arith)
  fired at cancels h = cc
  fired at (stops o free done) h = cc
  fired at (refreshes B c) h = cc

  -- Changes are debounced, and none is missed. However the loops and the handlers interleave, while
  -- `watchConfig` waits, it can load the file at a time exactly if the file has changed since it was
  -- last loaded, and the last change was at least 250 ms before.
  pub reloaded_iff :
      {s u : System} {ls : List Label} (at : ℕ) (file : ReadFile)
      → Run path P unmarshal s ls u
      → s.timer ≡ none
      → u.loops.config ≡ idle
      → ((v : System) × Step path P unmarshal u (reloaded at) v)
        ↔ ((t : ℕ) × LastChange t ls × (t + settling ≤ at))
  reloaded_iff {ls = ls} at file run clear free = (
    λ (v, step).
        let (deadline, has, over) = fired at step refl in
        let (t, last, same) = pending-LastChange ls deadline (sym (Run-timer run clear) ∙ has) in
        (t, last, omega arith),
    λ (t, last, over).
        (_, fires (t + settling) at file free (Run-timer run clear ∙ LastChange-pending last) over),
  )
