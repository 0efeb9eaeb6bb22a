-- ===== src/App/Loops/Shutdown.antt =====
-- internal/app/service.go: the end of the three loops.
use devcontainer_manager.Config.{Config}
use devcontainer_manager.Config.Matching.{Patterns}
use devcontainer_manager.Dockerx.Listing.{list_devcontainers}
use devcontainer_manager.App.Reconcile.{Outside}
use devcontainer_manager.App.Loops.{
  Owner, docker, config, tick, Loop, Loops, idle, stopped, listing, probing, loop, set_loop, System,
  Label, other, after_list, list_containers, Step, lists, finishes, stops, Run, begin, next,
}
use devcontainer_manager.Base.{
  length, length-append, Str, Result, err, ◌≤◌, ◌≡◌, refl, ap, ◌∙◌, true, some, List, [], ◌∷◌, ◌++◌,
  arith,
}

loop-set_loop : (o : Owner) (l : Loop) (ls : Loops) → loop o (set_loop o l ls) ≡ l
loop-set_loop docker l ls = refl
loop-set_loop config l ls = refl
loop-set_loop tick l ls = refl

set_loop_twice :
    (o : Owner) (l m : Loop) (ls : Loops) → set_loop o l (set_loop o m ls) ≡ set_loop o l ls
set_loop_twice docker l m ls = refl
set_loop_twice config l m ls = refl
set_loop_twice tick l m ls = refl

set_loop_same : (o : Owner) (l : Loop) (ls : Loops) → loop o ls ≡ l → ls ≡ set_loop o l ls
set_loop_same docker l ls e = cc
set_loop_same config l ls e = cc
set_loop_same tick l ls e = cc

module _ (path : Str) (P : Patterns) (unmarshal : Str → Config → Result Config) where
  abbrev R : System → List Label → System → Type 1
  R = Run path P unmarshal

  Run-append : {s t u : System} {ls ms : List Label} → R s ls t → R t ms u → R s (ms ++ ls) u
  Run-append r begin = r
  Run-append r (next q step) = next (Run-append r q) step

  -- A run of at most three steps after which this loop has returned, and the others stand where they
  -- stood.
  record Stops (o : Owner) (s : System) : Type 1 where
    last : System
    labels : List Label
    run : R s labels last
    done : last.done ≡ true
    loops : last.loops ≡ set_loop o stopped s.loops
    few : length labels ≤ 3

  module _ (O : Outside) (e : Str) (fails : O.docker.container_list ≡ err e) where
    list_fails :
        (o : Owner) (cfg : Config) (s : System)
        → list_containers O o cfg s ≡ some (record s { loops = set_loop o idle s.loops })
    unfolding list_containers list_devcontainers after_list
    list_fails o cfg s = rw fails refl

    idle-Stops : (o : Owner) (s : System) → s.done ≡ true → loop o s.loops ≡ idle → Stops o s
    idle-Stops o s h at = record {
      last = record s { loops = set_loop o stopped s.loops };
      labels = other ∷ [];
      run = next begin (stops o at h);
      done = h;
      loops = refl;
      few = omega arith;
    }

    -- Of a step that makes the loop idle.
    after_step :
        (o : Owner) (s t : System)
        → Step path P unmarshal s other t
        → t.done ≡ true
        → t.loops ≡ set_loop o idle s.loops
        → Stops o s
    after_step o s t step h at = record {
      last = record t { loops = set_loop o stopped t.loops };
      labels = other ∷ other ∷ [];
      run = next (next begin step) (stops o (ap (loop o) at ∙ loop-set_loop o idle s.loops) h);
      done = h;
      loops = ap (set_loop o stopped) at ∙ set_loop_twice o stopped idle s.loops;
      few = omega arith;
    }

    stop_at : (o : Owner) (s : System) (l : Loop) → loop o s.loops ≡ l → s.done ≡ true → Stops o s
    stop_at o s stopped at h = record {
      last = s;
      labels = [];
      run = begin;
      done = h;
      loops = set_loop_same o stopped s.loops at;
      few = omega arith;
    }
    stop_at o s idle at h = idle-Stops o s h at
    stop_at o s (listing cfg) at h =
        after_step o s (record s { loops = set_loop o idle s.loops })
          (lists o O cfg _ at (list_fails o cfg s)) h refl
    stop_at o s (probing cfg previous cs listed) at h =
        after_step o s _ (finishes o O cfg previous cs listed at) h refl

    -- Once the context is done, so that listing the containers fails, the three loops can all return,
    -- whatever they are doing, in at most nine steps.
    pub shutdown_ends :
        (s : System)
        → s.done ≡ true
        → (u : System) × (ls : List Label) × Run path P unmarshal s ls u
          × (length ls ≤ 9)
          × (u.loops ≡ record { docker = stopped; config = stopped; tick = stopped })
    shutdown_ends s h =
        let a = stop_at docker s s.loops.docker refl h in
        let b = stop_at config a.last a.last.loops.config refl a.done in
        let c = stop_at tick b.last b.last.loops.tick refl b.done in
        (
          c.last,
          c.labels ++ (b.labels ++ a.labels),
          Run-append (Run-append a.run b.run) c.run,
          omega (
            arith,
            length-append c.labels (b.labels ++ a.labels),
            length-append b.labels a.labels,
            a.few,
            b.few,
            c.few,
          ),
          c.loops ∙ rw (b.loops, a.loops) refl,
        )
