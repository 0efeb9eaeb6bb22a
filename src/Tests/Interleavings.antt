-- ===== src/Tests/Interleavings.antt =====
-- internal/t3/gateway.go: calls of the gateway that interleave, at concrete inputs.
use devcontainer_manager.Base.Map
use devcontainer_manager.Base.Map.{Map}
use devcontainer_manager.Go.Strings.{trim_space, to_upper, to_lower, trim_right, has_prefix}
use devcontainer_manager.Go.Base64
use devcontainer_manager.T3.Interleaving
use devcontainer_manager.T3.Interleaving.{
  System, Run, Step, silent, issued, accepted, look, bootstrap_label,
}
use devcontainer_manager.Model.{Environment}
use devcontainer_manager.T3.Interleaving.Revocation.{
  accepted-issued, bootstrapped-revokes, HeldBy, InFlight,
}
use devcontainer_manager.T3.Interleaving.Sequential.{IsRun, authorized_with_store-IsRun}
use devcontainer_manager.T3.Random.{random_token, random_code}
use devcontainer_manager.T3.Pairing.{
  generate_pairing_code, handle_bootstrap, authorized_with_store, bearer_token, payload_code,
  cache_hit,
}
use devcontainer_manager.Tests.Samples.{store, env}
use devcontainer_manager.Base.{In, Str, lit, ◌==◌, first_non_empty, ◌≡◌, refl, ◌⊎◌, some, [], ◌∷◌}
use devcontainer_manager.Tests.Databases.{store-IsLawful, store-IsFaithful}
use devcontainer_manager.Tests.Tokens.{fresh, body, readings, header}

-- Environment "1" has the container "c1".
abbrev key : Str → Str
key i = b'c' ∷ i

key-injective : (i j : Str) → key i ≡ key j → i ≡ j
key-injective i j h = cc

abbrev keyed_env : Environment
keyed_env = record env { id = lit "1" }

-- A code for it was made.
abbrev offered : System store
offered = record {
  gateway = (generate_pairing_code store (lit "1") (lit "abc") 5 fresh).0;
  flights = [];
}

offered-Run : Run store key (Interleaving.start store (some [])) (silent ∷ []) offered
offered-Run = Run.next Run.begin (Interleaving.generate (lit "1") (lit "abc") 5)

-- Its code was used for the token of "xyz".
abbrev granted : System store
granted = record offered {
  gateway = (handle_bootstrap store body keyed_env (lit "xyz") 6 7 offered.gateway).0;
}

abbrev granted_token : Str
granted_token = random_token (lit "xyz")

-- Then a request with this token finds it in the cache.
found_cached :
    (look store (lit "1") (key (lit "1")) granted_token 20 granted).0
    ≡ accepted (lit "1") granted_token
unfolding look cache_hit handle_bootstrap generate_pairing_code random_code random_token lit ◌==◌
    Map.lookup Map.insert to_upper trim_right Base64.encode payload_code Map.delete_where
found_cached = refl

bootstrapped-revokes_example :
    (granted_token ≡ random_token (lit "xyz"))
    ⊎ In (issued (lit "1") granted_token) []
    ⊎ InFlight store store-IsFaithful key key-injective store-IsLawful body keyed_env
        (lit "xyz")
        6
        7
        offered
        granted_token
unfolding handle_bootstrap generate_pairing_code random_code random_token lit ◌==◌ Map.lookup
    Map.insert to_upper trim_right Base64.encode payload_code Map.delete_where first_non_empty
bootstrapped-revokes_example =
    bootstrapped-revokes store store-IsFaithful key key-injective store-IsLawful body keyed_env
      (lit "xyz") 6 7 offered (some []) granted_token offered-Run refl tt Run.begin
      (Step.looks (lit "1") granted_token 20) found_cached

-- The run goes on with the bootstrap and the request.
granted-Run :
    Run store key
      (Interleaving.start store (some []))
      (issued (lit "1") granted_token ∷ silent ∷ [])
      granted
unfolding bootstrap_label handle_bootstrap generate_pairing_code random_code random_token lit ◌==◌
    Map.lookup Map.insert to_upper trim_right Base64.encode payload_code Map.delete_where
    first_non_empty
granted-Run = Run.next offered-Run (Step.bootstrap body keyed_env (lit "xyz") 6 7 refl)

accepted-issued_example :
    In (issued (lit "1") granted_token) (issued (lit "1") granted_token ∷ silent ∷ [])
    ⊎ HeldBy store store-IsFaithful key key-injective (some []) (lit "1") granted_token
accepted-issued_example =
    accepted-issued store store-IsFaithful key key-injective (some []) (lit "1") granted_token
      granted-Run (Step.looks (lit "1") granted_token 20) found_cached

authorized_with_store-IsRun_test :
    IsRun store key
      (lit "1")
      granted_token
      readings
      []
      granted.gateway
      (authorized_with_store store header (lit "1") (key (lit "1")) readings granted.gateway)
unfolding bearer_token random_token lit ◌==◌ Base64.encode has_prefix to_lower trim_space
authorized_with_store-IsRun_test =
    authorized_with_store-IsRun store key (lit "1") granted_token readings [] header granted.gateway
      refl
