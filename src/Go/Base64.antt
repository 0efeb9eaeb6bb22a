-- ===== src/Go/Base64.antt =====
-- encoding/base64: `RawURLEncoding.EncodeToString`.
pub mod Decoding
use devcontainer_manager.Base.{
  ltb, nat_eq, if◌then◌else◌, Str, lit, ℕ, ◌+◌, ◌-◌, ◌*◌, ◌/◌, ◌%◌, ◌≡◌, refl, [], ◌∷◌,
}

-- The character of a value below 64.
digit : ℕ → ℕ
digit n =
    if ltb n 26
    then b'A' + n
    else if ltb n 52
    then b'a' + (n - 26)
    else if ltb n 62
    then b'0' + (n - 52)
    else if nat_eq n 62
    then b'-'
    else b'_'

unfoldable pub encode : Str → Str
unfolding digit
encode [] = []
encode (a ∷ []) = digit (a / 4) ∷ digit (a % 4 * 16) ∷ []
encode (a ∷ b ∷ []) = digit (a / 4) ∷ digit (a % 4 * 16 + b / 16) ∷ digit (b % 16 * 4) ∷ []
encode (a ∷ b ∷ c ∷ s) =
    digit (a / 4)
    ∷ digit (a % 4 * 16 + b / 16)
    ∷ digit (b % 16 * 4 + c / 64)
    ∷ digit (c % 64)
    ∷ encode s

encode_test : encode (0xfb ∷ 0xff ∷ 0x61 ∷ 0x62 ∷ []) ≡ lit "-_9hYg"
unfolding encode lit
encode_test = refl
