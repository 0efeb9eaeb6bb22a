-- ===== src/App/Mux.antt =====
-- internal/app/service.go: the patterns that `routes` registers, and the choice that `http.ServeMux` makes
-- among them. The paths are those that their URLs do not escape.
use devcontainer_manager.Base.{
  leb, nat_eq, if◌then◌else◌, Bool-cases, length, In, here, there, Str, lit, is_empty, ◌==◌, eq_iff,
  ◌≡◌, refl, sym, ap, ◌∙◌, subst, ◌≢◌, inl, inr, Bool, true, false, not, ◌&&◌, ◌||◌, Option, none,
  some, List, [], ◌∷◌, ◌++◌, arith,
}
use devcontainer_manager.Go.Strings.{has_prefix}
use devcontainer_manager.Go.Path.{clean}

-- The handlers that `routes` registers.
pub data Target : Type 0 where
  healthz containers_api environments_api sessions_api environment_action env_proxy web_page :
      Target
  -- the multiplexer answers by itself, as it redirects to another path
  by_mux : Target

-- A pattern: its method, which is empty for any method, and its path.
pub record Pattern : Type 0 where
  pub method : Str
  pub path : Str
  pub target : Target

unfoldable pub registered : List Pattern
registered =
    (record { method = lit "GET"; path = lit "/healthz"; target = healthz })
    ∷ (record { method = lit "GET"; path = lit "/api/containers"; target = containers_api })
    ∷ (record { method = lit "GET"; path = lit "/api/environments"; target = environments_api })
    ∷ (record { method = lit "GET"; path = lit "/api/sessions"; target = sessions_api })
    ∷ (record { method = lit "POST"; path = lit "/api/environments/"; target = environment_action })
    ∷ (record { method = []; path = lit "/env/"; target = env_proxy })
    ∷ (record { method = []; path = lit "/"; target = web_page })
    ∷ []

ends_in_slash : Str → Bool
ends_in_slash [] = false
ends_in_slash (c ∷ s) = let rest = ends_in_slash s in if is_empty s then nat_eq c b'/' else rest

-- A pattern of GET also matches HEAD.
abbrev method_fits : Pattern → Str → Bool
method_fits p method =
    is_empty p.method || p.method == method || (p.method == lit "GET" && method == lit "HEAD")

-- A path that ends in a slash matches what is below it.
unfoldable path_fits : Pattern → Str → Bool
unfolding ends_in_slash
path_fits p path = if ends_in_slash p.path then has_prefix path p.path else path == p.path

abbrev matches : Pattern → Str → Str → Bool
matches p method path = method_fits p method && path_fits p path

-- Of two patterns that match, the one with the longer path is more specific.
abbrev more_specific : Pattern → Option Pattern → Pattern
more_specific p none = p
more_specific p (some q) = if leb (length q.path) (length p.path) then p else q

unfoldable choose : List Pattern → Str → Str → Option Pattern
unfolding path_fits
choose [] method path = none
choose (p ∷ ps) method path =
    let rest = choose ps method path in
    if matches p method path then some (more_specific p rest) else rest

-- `cleanPath` of net/http, which keeps a slash at the end.
unfoldable pub clean_path : Str → Str
unfolding ends_in_slash
clean_path path =
    let rooted = if has_prefix path (lit "/") then path else b'/' ∷ path in
    let cleaned = clean rooted in
    if is_empty path
    then lit "/"
    else if ends_in_slash path && not (cleaned == lit "/")
    then cleaned ++ lit "/"
    else cleaned

-- Some pattern is this path with a slash after it.
slash_registered : List Pattern → Str → Str → Bool
slash_registered [] method path = false
slash_registered (p ∷ ps) method path =
    let rest = slash_registered ps method path in
    if method_fits p method && p.path == path ++ lit "/" then true else rest

abbrev is_exact : Option Pattern → Bool
is_exact none = false
is_exact (some p) = not (ends_in_slash p.path)

abbrev target_of : Option Pattern → Target
target_of none = by_mux
target_of (some p) = p.target

-- What the multiplexer does, from whether it redirects to a clean path or to the path with a slash.
abbrev answer_by : (unclean no_slash : Bool) → Option Pattern → Target
answer_by true no_slash chosen = by_mux
answer_by false true chosen = by_mux
answer_by false false chosen = target_of chosen

-- The handler for a method and a path.
unfoldable pub mux : Str → Str → Target
unfolding registered choose clean_path slash_registered ends_in_slash
mux method path =
    let chosen = choose registered method path in
    answer_by (not (method == lit "CONNECT") && not (clean_path path == path))
      (not (is_exact chosen) && slash_registered registered method path) chosen

choose-matches :
    (ps : List Pattern) (method path : Str) (p : Pattern)
    → choose ps method path ≡ some p
    → In p ps × (matches p method path ≡ true)
unfolding choose
choose-matches [] method path p h = cc
choose-matches (q ∷ ps) method path p h = elim (Bool-cases (matches q method path)) [
  | inr other ↦ let (i, fits) = choose-matches ps method path p (rw other at h) in (there i, fits)
  | inl fits ↦
      specific (choose-matches ps method path p) fits (choose ps method path) refl (rw fits at h)
]
  where
    own : matches q method path ≡ true → q ≡ p → In p (q ∷ ps) × (matches p method path ≡ true)
    own fits same =
        (here (sym same), subst (λ (x : Pattern). matches x method path ≡ true) same fits)

    specific :
        (choose ps method path ≡ some p → In p ps × (matches p method path ≡ true))
        → matches q method path ≡ true
        → (rest : Option Pattern) → choose ps method path ≡ rest
        → some (more_specific q rest) ≡ some p
        → In p (q ∷ ps) × (matches p method path ≡ true)
    specific later fits none e k = own fits (cc k)
    specific later fits (some r) e k = elim (Bool-cases (leb (length r.path) (length q.path))) [
      | inl longer ↦ own fits (cc (rw longer at k))
      | inr shorter ↦
          let same : r ≡ p = cc (rw shorter at k) in
          let (i, fits_too) = later (e ∙ ap some same) in (there i, fits_too)
    ]

answered :
    (unclean no_slash : Bool) (chosen : Option Pattern) (t : Target)
    → answer_by unclean no_slash chosen ≡ t
    → t ≢ by_mux
    → (p : Pattern) × (chosen ≡ some p) × (p.target ≡ t)
answered true no_slash chosen t h other = absurd (other (sym h))
answered false true chosen t h other = absurd (other (sym h))
answered false false none t h other = absurd (other (sym h))
answered false false (some p) t h other = (p, refl, h)

and-left : (a b : Bool) → (a && b) ≡ true → a ≡ true
and-left true b h = refl
and-left false b h = cc

and-right : (a b : Bool) → (a && b) ≡ true → b ≡ true
and-right true b h = h
and-right false b h = cc

post :
    (method : Str)
    → (lit "POST" == method || (lit "POST" == lit "GET" && method == lit "HEAD")) ≡ true
    → method ≡ lit "POST"
unfolding lit ◌==◌
post method h = sym ((eq_iff (lit "POST") method).0 (ground arith))

mux-chosen :
    (method path : Str) (t : Target)
    → mux method path ≡ t
    → t ≢ by_mux
    → (p : Pattern) × In p registered × (matches p method path ≡ true) × (p.target ≡ t)
unfolding mux
mux-chosen method path t h other =
    let (p, chosen, own) = answered _ _ (choose registered method path) t h other in
    let (i, fits) = choose-matches registered method path p chosen in (p, i, fits, own)

-- A registered pattern with this handler, of those of which no two have the same.
registered-action :
    (p : Pattern)
    → In p registered
    → p.target ≡ environment_action
    → p
      ≡ record { method = lit "POST"; path = lit "/api/environments/"; target = environment_action }
unfolding registered
registered-action p (here e) h = cc
registered-action p (there (here e)) h = cc
registered-action p (there (there (here e))) h = cc
registered-action p (there (there (there (here e)))) h = cc
registered-action p (there (there (there (there (here e))))) h = e
registered-action p (there (there (there (there (there (here e)))))) h = cc
registered-action p (there (there (there (there (there (there (here e))))))) h = cc
registered-action p (there (there (there (there (there (there (there i))))))) h = elim i [ ]

registered-proxy :
    (p : Pattern)
    → In p registered
    → p.target ≡ env_proxy
    → p ≡ record { method = []; path = lit "/env/"; target = env_proxy }
unfolding registered
registered-proxy p (here e) h = cc
registered-proxy p (there (here e)) h = cc
registered-proxy p (there (there (here e))) h = cc
registered-proxy p (there (there (there (here e)))) h = cc
registered-proxy p (there (there (there (there (here e))))) h = cc
registered-proxy p (there (there (there (there (there (here e)))))) h = e
registered-proxy p (there (there (there (there (there (there (here e))))))) h = cc
registered-proxy p (there (there (there (there (there (there (there i))))))) h = elim i [ ]

pub mux-action :
    (method path : Str)
    → mux method path ≡ environment_action
    → (method ≡ lit "POST") × (has_prefix path (lit "/api/environments/") ≡ true)
unfolding path_fits ends_in_slash lit ◌==◌
mux-action method path h =
    let (p, i, fits, own) = mux-chosen method path environment_action h (λ e. cc) in
    let same = registered-action p i own in
    let shown = subst (λ (x : Pattern). matches x method path ≡ true) same fits in
    (post method (and-left _ _ shown), and-right _ _ shown)

pub mux-proxy :
    (method path : Str) → mux method path ≡ env_proxy → has_prefix path (lit "/env/") ≡ true
unfolding path_fits ends_in_slash lit
mux-proxy method path h =
    let (p, i, fits, own) = mux-chosen method path env_proxy h (λ e. cc) in
    let same = registered-proxy p i own in
    subst (λ (x : Pattern). matches x method path ≡ true) same fits
