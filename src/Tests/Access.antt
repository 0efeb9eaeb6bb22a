-- ===== src/Tests/Access.antt =====
-- internal/app at concrete inputs: requests to the service, one after the other.
use devcontainer_manager.T3.Endpoints.{issue_backend_token}
use devcontainer_manager.App.Routes.{handle_environment_action, refresh_token}
use devcontainer_manager.T3.Proxy.{proxy_http, proxied_request}
use devcontainer_manager.T3.Backend.{World, attempt, Event}
use devcontainer_manager.T3.Backend
use devcontainer_manager.App.Handler.{routes}
use devcontainer_manager.T3.Random.{random_token, random_code}
use devcontainer_manager.T3.Pairing.{
  authorized_with_store, bearer_token, payload_code, handle_bootstrap, generate_pairing_code,
}
use devcontainer_manager.T3.Titles.{public_path}
use devcontainer_manager.T3.Serve.{serve_env, is_bootstrap, rest_of}
use devcontainer_manager.App.Proxy.{Request, handle_env_proxy}
use devcontainer_manager.App.Lookup.{values, environment, env_from_container, container_by_env}
use devcontainer_manager.Go.Strings.{
  has_prefix, cut, trim_prefix, to_lower, to_upper, trim_space, trim_right,
}
use devcontainer_manager.Go.Base64
use devcontainer_manager.Go.Path.{clean}
use devcontainer_manager.App.Mux.{mux}
use devcontainer_manager.Base.Map
use devcontainer_manager.Base.{
  here, there, Str, lit, ◌==◌, first_non_empty, ◌≡◌, refl, sym, subst, ◌⊎◌, Bool, true, false, none,
  List, [], ◌∷◌, ◌++◌,
}
use devcontainer_manager.Base.Map.{Map}
use devcontainer_manager.Model.{Container, Session}
use devcontainer_manager.T3.{Gateway, new_gateway}
use devcontainer_manager.App.Handler.History.{Call, IsKeyed, History, answer, begin, next}
use devcontainer_manager.App.Handler.Access.{IsPublic, HasToken, access-HasToken}
use devcontainer_manager.Tests.Samples.{backend, web, codec, store, container}
use devcontainer_manager.Tests.Databases.{store-IsFaithful}
use devcontainer_manager.Tests.Services.{keep_order, request}

-- The container of the environment "1".
abbrev numbered : Container
numbered = record container { t3 = record container.t3 { environment_id = lit "1" } }

abbrev world : World (Map Container)
world = record { trace = []; shared = (lit "c1", numbered) ∷ [] }

abbrev key : Str → Str
key i = b'c' ∷ i

key-injective : (i j : Str) → key i ≡ key j → i ≡ j
key-injective i j h = cc

world-IsKeyed : IsKeyed key world.shared
unfolding first_non_empty lit values
world-IsKeyed c (here e) set =
    subst
      (λ (d : Container).
        first_non_empty (d.id ∷ d.t3.environment_id ∷ []) ≡ key d.t3.environment_id)
      (sym e) refl
world-IsKeyed c (there i) set = elim i [ ]

abbrev keep_sessions : List Session → List Session
keep_sessions ss = ss

abbrev call : Request → Gateway store → Call store
call q g = record {
  request = q;
  bytes = lit "abc";
  now = 5;
  sessions = [];
  gateway = g;
  world = world;
}

abbrev after : Call store → Gateway store
after c = (answer backend web codec store keep_order keep_sessions c).0

-- A POST for a code, the bootstrap with it, and a request with the token.
abbrev pairing : Call store
pairing =
    call
      (record request {
        incoming = record request.incoming {
          method = lit "POST";
          path = lit "/api/environments/1/pairing-code";
        };
      })
      (new_gateway store none)

abbrev bootstrap : Call store
bootstrap =
    call
      (record request {
        incoming = record request.incoming {
          method = lit "POST";
          path = lit "/env/1/api/auth/bootstrap/bearer";
        };
        draw = record request.draw { payload = (lit "code", random_code (lit "abc")) ∷ [] };
      })
      (after pairing)

abbrev access : Call store
access =
    call
      (record request {
        incoming = record request.incoming { path = lit "/env/1/api/x" };
        auth = lit "Bearer " ++ random_token (lit "xyz");
      })
      (after bootstrap)

two_calls :
    History backend web codec store keep_order keep_sessions key none
      (bootstrap ∷ pairing ∷ [])
      (after bootstrap)
two_calls = next (next begin pairing refl world-IsKeyed) bootstrap refl world-IsKeyed

access-HasToken_example :
    ((answer backend web codec store keep_order keep_sessions access).1 ≡ world)
    ⊎ IsPublic backend web codec store keep_order keep_sessions store-IsFaithful
        (λ x xs i. i)
        key
        key-injective
        none
        access
    ⊎ HasToken backend web codec store keep_order keep_sessions store-IsFaithful
        (λ x xs i. i)
        key
        key-injective
        none
        (bootstrap ∷ pairing ∷ [])
        access
access-HasToken_example =
    access-HasToken backend web codec store keep_order keep_sessions store-IsFaithful (λ x xs i. i)
      key key-injective none two_calls access refl world-IsKeyed

reaches : List Event → Bool
reaches [] = false
reaches (_ ∷ _) = true

-- The request above is one that does something.
access-reaches :
    reaches (answer backend web codec store keep_order keep_sessions access).1.trace ≡ true
unfolding reaches routes mux clean ◌==◌ lit has_prefix handle_env_proxy environment
    env_from_container cut trim_prefix container_by_env serve_env is_bootstrap rest_of public_path
    authorized_with_store bearer_token to_lower to_upper trim_space trim_right first_non_empty
    payload_code Base64.encode Map.lookup Map.insert Map.delete Map.delete_where random_code
    random_token handle_bootstrap generate_pairing_code handle_environment_action proxy_http attempt
    Backend.request proxied_request refresh_token issue_backend_token
access-reaches = refl
