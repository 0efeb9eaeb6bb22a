-- ===== src/T3/Random.antt =====
-- internal/t3/gateway.go: `randomCode`, `randomToken`. The bytes that `crypto/rand` gave are an
-- argument, which replaces the length.
use devcontainer_manager.Go.Strings.{to_upper, trim_right}
use devcontainer_manager.Go.Base64
use devcontainer_manager.Go.Base64.Decoding.{IsByte, decode, decode-encode}
use devcontainer_manager.Base.{Str, All, ◌≡◌}

unfoldable pub random_token : Str → Str
random_token bytes = Base64.encode bytes

unfoldable pub random_code : Str → Str
random_code bytes = to_upper (trim_right (Base64.encode bytes) b'=')

-- A browser token tells all the random bytes that it was made of, in the decoding of its 64 characters, so
-- different bytes give different tokens.
pub decode-random_token : (bytes : Str) → All IsByte bytes → decode (random_token bytes) ≡ bytes
unfolding random_token
decode-random_token bytes h = decode-encode bytes h
