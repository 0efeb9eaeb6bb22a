-- ===== src/Tests/Tokens.antt =====
-- internal/t3: pairing codes and tokens at concrete inputs.
use devcontainer_manager.Base.Map
use devcontainer_manager.Base.Map.{Map}
use devcontainer_manager.Go.Strings.{trim_space, to_upper, to_lower, trim_right, has_prefix}
use devcontainer_manager.Go.Base64
use devcontainer_manager.T3.{Gateway, new_gateway}
use devcontainer_manager.Go.Base64.Decoding.{decode}
use devcontainer_manager.T3.Random.{decode-random_token, random_token, random_code}
use devcontainer_manager.Model.{Environment}
use devcontainer_manager.T3.Pairing.Isolation.{bootstrap-isolates}
use devcontainer_manager.T3.Pairing.Bootstrap.{store_id}
use devcontainer_manager.T3.Pairing.{
  Readings, http_error, generate_pairing_code, handle_bootstrap, accepts_code,
  authorized_with_store, bearer_token, pairing_lifetime, payload_code,
}
use devcontainer_manager.T3.Pairing.Authorization.{
  bootstrap-revokes, authorized_with_store_iff, IsAuthorized,
}
use devcontainer_manager.T3.Pairing.Codes.{generate-accepts_code, bootstrap-once}
use devcontainer_manager.T3.Pairing.Sequences.{Call, generate, bootstrap, authorize, perform_all}
use devcontainer_manager.T3.Pairing.Lifetime.{bootstrap-authorizes}
use devcontainer_manager.Tests.Samples.{store, env}
use devcontainer_manager.T3.Pairing.Sequences.{perform}
use devcontainer_manager.T3.Pairing.Bootstrap.{IsGranted}
use devcontainer_manager.Base.{
  sym, inl, inr, List, Str, lit, ◌==◌, eq_iff, first_non_empty, ◌+◌, ◌≤◌, ◌≡◌, refl, ap, ◌≢◌, ◌↔◌,
  Bool, true, false, Option, none, some, [], ◌∷◌, ◌++◌, arith,
}
use devcontainer_manager.Tests.Databases.{store-IsLawful}

abbrev pub fresh : Gateway store
fresh = new_gateway store (some [])

-- A gateway with a code, and a body that has this code.
abbrev pub paired : Gateway store
paired = (generate_pairing_code store (lit "env1") (lit "abc") 5 fresh).0

abbrev pub body : Map Str
body = (lit "code", random_code (lit "abc")) ∷ []

abbrev pub readings : Readings
readings = record { cached = 20; stored = 21; purged = 22 }

-- The gateway after the code was used, and the header of its token.
abbrev pub booted : Gateway store
booted = (handle_bootstrap store body env (lit "xyz") 6 7 paired).0

abbrev pub header : Str
header = lit "Bearer " ++ random_token (lit "xyz")

generate-accepts_code_test :
    (accepts_code store paired (random_code (lit "abc")) (lit "env1") 300 ≡ true)
    ↔ ((lit "env1" ≡ lit "env1") × (300 ≤ 5 + pairing_lifetime))
generate-accepts_code_test =
    generate-accepts_code store (lit "env1") (lit "abc") 5 fresh (lit "env1") 300

authorized_with_store_iff_example :
    ((authorized_with_store store header (lit "env1") (lit "c1") readings booted).1 ≡ true)
    ↔ IsAuthorized store header (lit "env1") (lit "c1") readings booted
authorized_with_store_iff_example =
    authorized_with_store_iff store header (lit "env1") (lit "c1") readings booted

bootstrap-revokes_test : bearer_token header ≡ some (random_token (lit "xyz"))
unfolding handle_bootstrap generate_pairing_code authorized_with_store random_code random_token
    bearer_token lit ◌==◌ Map.lookup Map.insert to_upper trim_right Base64.encode payload_code
    has_prefix to_lower trim_space Map.delete_where
bootstrap-revokes_test =
    bootstrap-revokes store store-IsLawful body env (lit "xyz") 6 7 paired tt header readings refl

decode-random_token_test : decode (random_token (lit "xyz")) ≡ lit "xyz"
unfolding lit
decode-random_token_test =
    decode-random_token (lit "xyz") (omega arith, (omega arith, (omega arith, tt)))

-- Another environment, with a container of its own, pairs after "env1".
abbrev other_env : Environment
other_env = record env { id = lit "env2"; container_id = lit "c2" }

abbrev other_paired : Gateway store
other_paired = (generate_pairing_code store (lit "env2") (lit "def") 8 booted).0

abbrev other_body : Map Str
other_body = (lit "code", random_code (lit "def")) ∷ []

differ : (a b : Str) → a == b ≡ false → a ≢ b
differ a b h p = let same : a == b ≡ true = (eq_iff a b).1 p in cc

is_new : Option Str → Bool
is_new none = false
is_new (some t) = t == random_token (lit "uvw")

other_token : bearer_token header ≢ some (random_token (lit "uvw"))
unfolding is_new bearer_token lit random_token ◌==◌ Base64.encode has_prefix to_lower trim_space
    first_non_empty trim_right
other_token p = let same : false ≡ true = ap is_new p in cc

envs_differ : lit "env1" ≢ lit "env2"
unfolding ◌==◌ lit
envs_differ = differ (lit "env1") (lit "env2") refl

keys_differ : lit "c1" ≢ store_id other_env
unfolding ◌==◌ lit first_non_empty
keys_differ = differ (lit "c1") (lit "c2") refl

bootstrap-isolates_example :
    (authorized_with_store store header
      (lit "env1")
      (lit "c1")
      readings
      (handle_bootstrap store other_body other_env (lit "uvw") 9 10 other_paired).0).1
    ≡ true
unfolding handle_bootstrap generate_pairing_code authorized_with_store random_code random_token
    bearer_token lit ◌==◌ Map.lookup Map.insert to_upper trim_right Base64.encode payload_code
    has_prefix to_lower trim_space Map.delete_where Map.delete first_non_empty
bootstrap-isolates_example =
    bootstrap-isolates store store-IsLawful other_body other_env (lit "uvw") 9 10 other_paired tt
      header (lit "env1") (lit "c1") readings envs_differ keys_differ other_token refl

-- Another code is drawn, and a request without a token of the gateway is checked.
abbrev between : List Call
between =
    generate (lit "env1") (lit "def") 8
    ∷ authorize (lit "Basic x") (lit "env1") (lit "c1") readings
    ∷ []

codes_differ : random_code (lit "def") ≢ random_code (lit "abc")
unfolding ◌==◌ lit random_code to_upper trim_right Base64.encode
codes_differ = differ (random_code (lit "def")) (random_code (lit "abc")) refl

bootstrap-once_example :
    handle_bootstrap store body env (lit "uvw") 8 9 (perform_all store between booted)
    ≡ (perform_all store between booted, http_error 401 (lit "invalid pairing code"))
unfolding accepts_code generate_pairing_code random_code lit ◌==◌ Map.lookup Map.insert to_upper
    trim_right Base64.encode payload_code has_prefix to_lower trim_space
bootstrap-once_example =
    bootstrap-once store body env (lit "xyz") 6 7 paired refl between (codes_differ, (tt, tt)) body
      env (lit "uvw") 8 9 refl

-- A code for "env2" is drawn and used, the used code of "env1" is tried again, and requests are checked:
-- one without a token, and one with the token of "env1".
abbrev meanwhile : List Call
meanwhile =
    generate (lit "env2") (lit "def") 8
    ∷ bootstrap other_body other_env (lit "uvw") 9 10
    ∷ bootstrap body env (lit "rst") 11 12
    ∷ authorize (lit "Basic x") (lit "env1") (lit "c1") readings
    ∷ authorize header (lit "env1") (lit "c1") readings
    ∷ []

is_some : Option Str → Bool
is_some none = false
is_some (some _) = true

no_token : bearer_token (lit "Basic x") ≢ some (random_token (lit "xyz"))
unfolding is_some bearer_token lit has_prefix to_lower
no_token p = let same : false ≡ true = ap is_some p in cc

tokens_differ : random_token (lit "uvw") ≢ random_token (lit "xyz")
unfolding ◌==◌ lit random_token Base64.encode trim_right
tokens_differ = differ (random_token (lit "uvw")) (random_token (lit "xyz")) refl

abbrev used_again : Gateway store
used_again =
    perform_all store
      (generate (lit "env2") (lit "def") 8 ∷ bootstrap other_body other_env (lit "uvw") 9 10 ∷ [])
      booted

again_is_refused : IsGranted (handle_bootstrap store body env (lit "rst") 11 12 used_again).1 → ⊥
unfolding handle_bootstrap generate_pairing_code random_code random_token lit ◌==◌ Map.lookup
    Map.insert to_upper trim_right Base64.encode payload_code Map.delete perform_all
again_is_refused granted = granted

bootstrap-authorizes_example :
    (authorized_with_store store header
      (lit "env1")
      (lit "c1")
      readings
      (perform_all store meanwhile booted)).1
    ≡ true
unfolding handle_bootstrap generate_pairing_code random_code random_token bearer_token lit ◌==◌
    Map.lookup Map.insert to_upper trim_right Base64.encode payload_code has_prefix to_lower
    trim_space perform_all perform
bootstrap-authorizes_example =
    bootstrap-authorizes store body env (lit "xyz") 6 7 paired tt meanwhile
      (
        tt,
        (
          inr ((λ p. envs_differ (sym p)), tokens_differ),
          (inl again_is_refused, (inl no_token, (inr (refl, omega arith), tt))),
        ),
      )
      header (lit "c1") readings refl (omega arith)
