-- ===== src/T3/Reconcile.antt =====
-- internal/t3/gateway.go: `ReconcileContainer`. The reading of the clock is an argument.
use devcontainer_manager.Go.Strings.{trim_right, replace_first, itoa_int}
use devcontainer_manager.Base.Int.{pos, is_zero}
use devcontainer_manager.Config.{Config, Rule}
use devcontainer_manager.Model.{Container, T3Status}
use devcontainer_manager.T3.Backend.{World, Backend}
use devcontainer_manager.T3.Endpoints.{probe, issue_backend_token}
use devcontainer_manager.Base.{
  if◌then◌else◌, Bool-cases, Str, lit, is_empty, Result, ok, err, ℕ, ◌≡◌, refl, sym, ap, ◌∙◌, subst,
  ◌≢◌, inl, inr, Bool, true, false, not, ◌&&◌, Option, none, some, [], ◌++◌,
}

-- Whether t3 is enabled for a container of this rule.
unfoldable pub t3_enabled : Config → Option Rule → Bool
t3_enabled cfg none = cfg.t3.enabled
t3_enabled cfg (some rule) = elim rule.t3.enabled [ none ↦ cfg.t3.enabled | some enabled ↦ enabled ]

unfoldable pub backend_url : Config → Str → Str
backend_url cfg ip =
    let port = if is_zero cfg.t3.port then pos 3773 else cfg.t3.port in
    lit "http://" ++ (ip ++ (lit ":" ++ itoa_int port))

unfoldable pub env_base_url : Str → Str → Str
env_base_url public_base env_id =
    trim_right public_base b'/' ++ (lit "/env/" ++ (env_id ++ lit "/"))

abbrev with_status : Str → Str → Container → Container
with_status status error c = record c { t3 = record c.t3 { status = status; error = error } }

-- A container whose server is about to be asked.
abbrev pub asked : Config → ℕ → Container → Container
asked cfg now c = record c {
  t3 = record c.t3 { backend_url = backend_url cfg c.container_ip; last_probe = now };
}

-- The status of a container whose t3 server answered.
unfoldable pub ready_status : Str → Str → T3Status → T3Status
ready_status public_base env_id status =
    let http = env_base_url public_base env_id in
    record status {
      environment_id = env_id;
      http_base_url = http;
      ws_base_url = replace_first http (lit "http://") (lit "ws://");
      status = lit "ready";
      error = [];
    }

module _ (A : Type 0) (B : Backend) where
  unfoldable pub issued : Container → World A × Result Str → World A × Container
  issued c (w, err e) = (w, with_status (lit "ready-no-token") e c)
  issued c (w, ok token) = (w, record c { t3 = record c.t3 { backend_token = token } })

  unfoldable pub ensure_token : Config → Container → World A → World A × Container
  unfolding issued
  ensure_token cfg c w =
      if cfg.t3.auto_issue_backend_token && is_empty c.t3.backend_token
      then issued c (issue_backend_token A B c.id c.workspace_folder w)
      else (w, c)

  unfoldable pub probed : Config → Str → Container → World A × Result Str → World A × Container
  unfolding ensure_token ready_status
  probed cfg public_base c (w, err e) = (w, with_status (lit "not-ready") e c)
  probed cfg public_base c (w, ok id) =
      let env_id = if is_empty id then c.short_id else id in
      ensure_token cfg (record c { t3 = ready_status public_base env_id c.t3 }) w

  unfoldable pub reconcile_container : Config → Str → ℕ → Container → World A → World A × Container
  unfolding probed
  reconcile_container cfg public_base now container w =
      let enabled = t3_enabled cfg container.rule in
      let c = record container { t3 = record container.t3 { enabled = enabled } } in
      if not enabled
      then (w, record c { t3 = record c.t3 { status = lit "disabled" } })
      else if not container.running
      then (w, record c { t3 = record c.t3 { status = lit "stopped" } })
      else if is_empty container.container_ip
      then (w, with_status (lit "unreachable") (lit "container has no IP address") c)
      else probed cfg public_base (asked cfg now c)
          (probe A B (backend_url cfg container.container_ip) w)

  -- A container whose t3 server is ready: it runs, its server answered the probe, and the names and
  -- the URLs are those of the answer.
  pub record IsReady (cfg : Config) (public_base : Str) (container : Container) (w : World A)
      (c : Container) : Type 0 where
    pub id : Str
    pub enabled : t3_enabled cfg container.rule ≡ true
    pub running : container.running ≡ true
    pub ip : is_empty container.container_ip ≡ false
    pub answered : (probe A B (backend_url cfg container.container_ip) w).1 ≡ ok id
    pub environment : c.t3.environment_id ≡ (if is_empty id then container.short_id else id)
    pub http : c.t3.http_base_url ≡ env_base_url public_base c.t3.environment_id
    pub no_error : c.t3.error ≡ []

  status_tests :
      (lit "not-ready" ≢ lit "ready")
      × (lit "ready-no-token" ≢ lit "ready")
      × (lit "disabled" ≢ lit "ready")
      × (lit "stopped" ≢ lit "ready")
      × (lit "unreachable" ≢ lit "ready")
  unfolding lit
  status_tests = (λ h. cc, λ h. cc, λ h. cc, λ h. cc, λ h. cc)

  -- Both have the same environment, URL and error.
  abbrev IsSameReady : Container → Container → Type 0
  IsSameReady c c' =
      (c'.t3.environment_id ≡ c.t3.environment_id)
      × (c'.t3.http_base_url ≡ c.t3.http_base_url)
      × (c'.t3.error ≡ c.t3.error)

  issued_ready :
      (c : Container) (w : World A) (r : Result Str)
      → (issued c (w, r)).1.t3.status ≡ lit "ready"
      → IsSameReady c (issued c (w, r)).1
  unfolding issued
  issued_ready c w (err e) h = absurd (status_tests.1 h)
  issued_ready c w (ok token) h = (refl, refl, refl)

  ensure_token_ready :
      (cfg : Config) (c : Container) (w : World A)
      → (ensure_token cfg c w).1.t3.status ≡ lit "ready"
      → IsSameReady c (ensure_token cfg c w).1
  unfolding ensure_token
  ensure_token_ready cfg c w h =
      elim (Bool-cases (cfg.t3.auto_issue_backend_token && is_empty c.t3.backend_token)) [
        | inl e ↦ rw e (
            issued_ready c (issue_backend_token A B c.id c.workspace_folder w).0
              (issue_backend_token A B c.id c.workspace_folder w).1 (rw e at h))
        | inr e ↦ rw e (refl, refl, refl)
      ]

  abbrev AnsweredReady : Str → Container → Result Str → Container → Type 0
  AnsweredReady public_base c r c' =
      (id : Str) × (r ≡ ok id)
      × (c'.t3.environment_id ≡ (if is_empty id then c.short_id else id))
      × (c'.t3.http_base_url ≡ env_base_url public_base (if is_empty id then c.short_id else id))
      × (c'.t3.error ≡ [])

  probed_ready :
      (cfg : Config) (public_base : Str) (c : Container) (w' : World A) (r : Result Str)
      → (probed cfg public_base c (w', r)).1.t3.status ≡ lit "ready"
      → AnsweredReady public_base c r (probed cfg public_base c (w', r)).1
  unfolding probed
  probed_ready cfg public_base c w' (err e) h = absurd (status_tests.0 h)
  probed_ready cfg public_base c w' (ok id) h =
      let env_id = if is_empty id then c.short_id else id in
      let (same_id, same_url, same_error) =
        ensure_token_ready cfg (record c { t3 = ready_status public_base env_id c.t3 }) w' h in
      (id, refl, same_id, same_url, same_error)

  module _ (cfg : Config) (public_base : Str) (now : ℕ) (container : Container) (w : World A) where
    abbrev pub enabled_container : Container
    enabled_container = record container {
      t3 = record container.t3 { enabled = t3_enabled cfg container.rule };
    }

    abbrev pub probe_result : World A × Container
    probe_result =
        probed cfg public_base (asked cfg now enabled_container)
          (probe A B (backend_url cfg container.container_ip) w)

    -- Where the server is asked.
    pub reconcile_container-probed :
        t3_enabled cfg container.rule ≡ true
        → container.running ≡ true
        → is_empty container.container_ip ≡ false
        → reconcile_container cfg public_base now container w ≡ probe_result
    unfolding reconcile_container
    reconcile_container-probed enabled running ip = simp (enabled, running, ip) refl

    reconciled-IsReady :
        t3_enabled cfg container.rule ≡ true
        → container.running ≡ true
        → is_empty container.container_ip ≡ false
        → (reconcile_container cfg public_base now container w).1.t3.status ≡ lit "ready"
        → IsReady cfg public_base container w
            (reconcile_container cfg public_base now container w).1
    unfolding reconcile_container
    reconciled-IsReady enabled running ip h =
        let e = reconcile_container-probed enabled running ip in
        let (id, answered, environment, http, no_error) =
          probed_ready cfg public_base (asked cfg now enabled_container)
            (probe A B (backend_url cfg container.container_ip) w).0
            (probe A B (backend_url cfg container.container_ip) w).1
            (subst (λ p. p.1.t3.status ≡ lit "ready") e h) in
        subst (λ p. IsReady cfg public_base container w p.1) (sym e)
          (record {
            id = id;
            enabled = enabled;
            running = running;
            ip = ip;
            answered = answered;
            environment = environment;
            http = http ∙ ap (env_base_url public_base) (sym environment);
            no_error = no_error;
          })

  -- A container that is "ready" after a reconciliation is enabled, runs and has an address, its server
  -- answered the probe, its environment is the id of the answer or else its own short id, its URL
  -- is that of the environment, and it has no error.
  pub reconcile_container-IsReady :
      (cfg : Config) (public_base : Str) (now : ℕ) (container : Container) (w : World A)
      → (reconcile_container cfg public_base now container w).1.t3.status ≡ lit "ready"
      → IsReady cfg public_base container w (reconcile_container cfg public_base now container w).1
  unfolding reconcile_container
  reconcile_container-IsReady cfg public_base now container w h =
      elim (Bool-cases (t3_enabled cfg container.rule)) [
        | inr e ↦ absurd (status_tests.2 (simp e at h))
        | inl enabled ↦ elim (Bool-cases container.running) [
          | inr e ↦ absurd (status_tests.3 (simp (enabled, e) at h))
          | inl running ↦ elim (Bool-cases (is_empty container.container_ip)) [
            | inl e ↦ absurd (status_tests.4 (simp (enabled, running, e) at h))
            | inr ip ↦ reconciled-IsReady cfg public_base now container w enabled running ip h
          ]
        ]
      ]
