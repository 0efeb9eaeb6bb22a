-- ===== src/Dockerx/Listing.antt =====
-- internal/dockerx/client.go: `ListDevcontainers`.
--
-- `none` is a panic, which a nil endpoint causes. `now` is the clock as each record is made.
use devcontainer_manager.Go.Strings.{trim_space}
use devcontainer_manager.Config.{Config}
use devcontainer_manager.Config.Matching.{Patterns}
use devcontainer_manager.Model.{Container}
use devcontainer_manager.Dockerx.{Inspect, Item, Connections, Daemon}
use devcontainer_manager.Dockerx.Discovery.{Decoder}
use devcontainer_manager.Dockerx.Network.{Ensured, container_ip, ensure_connected_to_network}
use devcontainer_manager.Dockerx.Record.{
  record_from_inspect, IsRecord, IsRecordOf, record_from_inspect-IsRecord, IsRecord-update,
}
use devcontainer_manager.Base.{
  if◌then◌else◌, Bool-cases, All, All-append, Str, lit, is_empty, Result, ok, err, ◌>>=◌, >>=-eq-ok,
  ℕ, ◌≡◌, subst, inl, inr, not, ◌&&◌, Option, none, some, List, [], ◌∷◌, ◌++◌, arith, In-append,
}

module _ (D : Daemon) (P : Patterns) (J : Decoder) (now : Str → ℕ) (cfg : Config) where
  -- What the loop makes of one item: the connections so far and at most one record.
  abbrev pub Visit : Type 0
  Visit = Option (Connections × List Container)

  abbrev with_fresh_ip : Connections → Container → Option Str → Visit
  with_fresh_ip cs r none = none
  with_fresh_ip cs r (some ip) = some (cs, record r { container_ip = ip } ∷ [])

  unfoldable pub after_error : Container → Str → Connections → Inspect → Option Str → Visit
  after_error r network cs inspect (some m) = some (
    cs,
    record r {
      warnings =
          r.warnings
          ++ (lit "failed to connect to docker network " ++ (network ++ (lit ": " ++ m))) ∷ [];
    }
        ∷ [],
  )
  after_error r network cs inspect none = with_fresh_ip cs r (container_ip inspect network)

  unfoldable pub attached : Container → Str → Connections × Ensured → Visit
  unfolding after_error
  attached r network (cs, e) = after_error r network cs e.inspect e.error

  unfoldable pub attach : Inspect → Connections → Container → Visit
  unfolding attached
  attach inspect cs r =
      let network = trim_space cfg.discovery.connect_to_network in
      if not (is_empty network) && r.running
      then attached r network (ensure_connected_to_network D inspect network cs)
      else some (cs, r ∷ [])

  unfoldable pub keep : Inspect → Connections → Option (Option Container) → Visit
  unfolding attach
  keep inspect cs none = none
  keep inspect cs (some none) = some (cs, [])
  keep inspect cs (some (some r)) = attach inspect cs r

  unfoldable pub visit_inspected : Item → Connections → Result Inspect → Visit
  unfolding record_from_inspect keep
  visit_inspected item cs (err e) = some (cs, [])
  visit_inspected item cs (ok inspect) =
      keep inspect cs (record_from_inspect D P J now cfg inspect item)

  unfoldable pub visit : Item → Connections → Visit
  unfolding visit_inspected
  visit item cs = visit_inspected item cs (D.container_inspect cs item.id)

  abbrev prepend : List Container → Visit → Visit
  prepend found none = none
  prepend found (some (cs, more)) = some (cs, found ++ more)

  abbrev and_visit : Visit → (Connections → Visit) → Visit
  and_visit none rest = none
  and_visit (some (cs, found)) rest = prepend found (rest cs)

  unfoldable pub visit_all : List Item → Connections → Visit
  unfolding visit
  visit_all [] cs = some (cs, [])
  visit_all (item ∷ items) cs = and_visit (visit item cs) (visit_all items)

  unfoldable pub list_devcontainers : Connections → Result Visit
  unfolding visit_all
  list_devcontainers cs = D.container_list >>= λ items. ok (visit_all items cs)

  abbrev AreRecords : Visit → Type 0
  AreRecords none = Unit
  AreRecords (some (cs, found)) = All (IsRecord P cfg.rules) found

  fresh-AreRecords :
      (cs : Connections) (r : Container) (ip : Option Str)
      → IsRecord P cfg.rules r
      → AreRecords (with_fresh_ip cs r ip)
  fresh-AreRecords cs r none h = tt
  fresh-AreRecords cs r (some ip) h = (IsRecord-update P cfg.rules r ip r.warnings (λ x i. i) h, tt)

  after_error-AreRecords :
      (r : Container) (network : Str) (cs : Connections) (inspect : Inspect) (e : Option Str)
      → IsRecord P cfg.rules r
      → AreRecords (after_error r network cs inspect e)
  unfolding after_error
  after_error-AreRecords r network cs inspect (some m) h =
      (IsRecord-update P cfg.rules r r.container_ip _ (λ x i. In-append x r.warnings _ i) h, tt)
  after_error-AreRecords r network cs inspect none h =
      fresh-AreRecords cs r (container_ip inspect network) h

  attached-AreRecords :
      (r : Container) (network : Str) (p : Connections × Ensured)
      → IsRecord P cfg.rules r
      → AreRecords (attached r network p)
  unfolding attached
  attached-AreRecords r network (cs, e) h = after_error-AreRecords r network cs e.inspect e.error h

  abbrev network : Str
  network = trim_space cfg.discovery.connect_to_network

  attach-AreRecords :
      (inspect : Inspect) (cs : Connections) (r : Container)
      → IsRecord P cfg.rules r
      → AreRecords (attach inspect cs r)
  unfolding attach
  attach-AreRecords inspect cs r h = elim (Bool-cases (not (is_empty network) && r.running)) [
    | inl on ↦
        simp on (attached-AreRecords r network (ensure_connected_to_network D inspect network cs) h)
    | inr off ↦ simp off (h, tt)
  ]

  keep-AreRecords :
      (inspect : Inspect) (cs : Connections) (o : Option (Option Container))
      → IsRecordOf D P J now cfg o
      → AreRecords (keep inspect cs o)
  unfolding keep
  keep-AreRecords inspect cs none h = tt
  keep-AreRecords inspect cs (some none) h = tt
  keep-AreRecords inspect cs (some (some r)) h = attach-AreRecords inspect cs r h

  visit_inspected-AreRecords :
      (item : Item) (cs : Connections) (r : Result Inspect) → AreRecords (visit_inspected item cs r)
  unfolding visit_inspected
  visit_inspected-AreRecords item cs (err e) = tt
  visit_inspected-AreRecords item cs (ok inspect) =
      keep-AreRecords inspect cs _ (record_from_inspect-IsRecord D P J now cfg inspect item)

  prepend-AreRecords :
      (found : List Container) (v : Visit)
      → All (IsRecord P cfg.rules) found
      → AreRecords v
      → AreRecords (prepend found v)
  prepend-AreRecords found none h k = tt
  prepend-AreRecords found (some (cs, more)) h k = All-append (IsRecord P cfg.rules) found more h k

  and_visit-AreRecords :
      (v : Visit) (rest : Connections → Visit)
      → AreRecords v
      → ((cs : Connections) → AreRecords (rest cs))
      → AreRecords (and_visit v rest)
  and_visit-AreRecords none rest h k = tt
  and_visit-AreRecords (some (cs, found)) rest h k = prepend-AreRecords found (rest cs) h (k cs)

  visit_all-AreRecords : (items : List Item) (cs : Connections) → AreRecords (visit_all items cs)
  unfolding visit_all visit
  visit_all-AreRecords [] cs = tt
  visit_all-AreRecords (item ∷ items) cs =
      and_visit-AreRecords (visit item cs) (visit_all items)
        (visit_inspected-AreRecords item cs (D.container_inspect cs item.id))
        (visit_all-AreRecords items)

  -- Every container that is listed was detected for some reason and has a user and a home. It carries
  -- the rule that `MatchRule` picks for it, with the name of that rule, and a warning where its user
  -- is root and that rule, if any, sets no user.
  pub list_devcontainers-AreRecords :
      (cs cs' : Connections) (found : List Container)
      → list_devcontainers cs ≡ ok (some (cs', found))
      → All (IsRecord P cfg.rules) found
  unfolding list_devcontainers
  list_devcontainers-AreRecords cs cs' found h =
      let (items, listed, same) = >>=-eq-ok D.container_list _ h in
      let visits : visit_all items cs ≡ some (cs', found) = ground arith in
      subst AreRecords visits (visit_all-AreRecords items cs)
