-- ===== src/Go/Base64/Decoding.antt =====
-- encoding/base64: a decoding, which undoes `RawURLEncoding.EncodeToString`.
use devcontainer_manager.Go.Base64
use devcontainer_manager.Base.{
  leb, nat_eq, if◌then◌else◌, All, Str, ℕ, ◌+◌, ◌-◌, ◌*◌, ◌/◌, ◌%◌, ◌<◌, ◌≡◌, refl, ap, ◌&&◌, [],
  ◌∷◌, arith,
}

-- The value of a character.
value : ℕ → ℕ
value c =
    if leb b'a' c && leb c b'z'
    then c - 71
    else if leb b'A' c && leb c b'Z'
    then c - 65
    else if leb b'0' c && leb c b'9'
    then c + 4
    else if nat_eq c b'-'
    then 62
    else 63

-- Of four characters, each of six bits, three bytes; a rest of two or three characters has one or two.
unfoldable pub decode : Str → Str
unfolding value
decode [] = []
decode (p ∷ []) = []
decode (p ∷ q ∷ []) = (value p * 4 + value q / 16) ∷ []
decode (p ∷ q ∷ r ∷ []) = (value p * 4 + value q / 16) ∷ (value q % 16 * 16 + value r / 4) ∷ []
decode (p ∷ q ∷ r ∷ s ∷ t) =
    (value p * 4 + value q / 16)
    ∷ (value q % 16 * 16 + value r / 4)
    ∷ (value r % 4 * 64 + value s)
    ∷ decode t

abbrev pub IsByte : ℕ → Type 0
IsByte b = b < 256

value-digit : (n : ℕ) → n < 64 → value (Base64.digit n) ≡ n
unfolding value Base64.digit
value-digit n h = ground arith

-- The three bytes of a group come back from the values of its characters.
first_byte : (a x : ℕ) → a < 256 → x < 16 → a / 4 * 4 + (a % 4 * 16 + x) / 16 ≡ a
first_byte a x h k = omega arith

second_byte :
    (a b y : ℕ) → b < 256 → y < 4 → (a % 4 * 16 + b / 16) % 16 * 16 + (b % 16 * 4 + y) / 4 ≡ b
second_byte a b y h k = omega arith

second_byte_last : (a b : ℕ) → b < 256 → (a % 4 * 16 + b / 16) % 16 * 16 + b % 16 * 4 / 4 ≡ b
second_byte_last a b h = omega arith

third_byte : (b c : ℕ) → c < 256 → (b % 16 * 4 + c / 64) % 4 * 64 + c % 64 ≡ c
third_byte b c h = omega arith

pub decode-encode : (s : Str) → All IsByte s → decode (Base64.encode s) ≡ s
unfolding decode Base64.encode
decode-encode [] h = refl
decode-encode (a ∷ []) (ha, _) =
    rw (value-digit (a / 4) (omega arith), value-digit (a % 4 * 16) (omega arith))
      (ap (λ x. x ∷ []) (omega arith))
decode-encode (a ∷ b ∷ []) (ha, (hb, _)) =
    rw
      (
        value-digit (a / 4) (omega arith),
        value-digit (a % 4 * 16 + b / 16) (omega arith),
        value-digit (b % 16 * 4) (omega arith),
      )
      (cc (first_byte a (b / 16) ha (omega arith), (second_byte_last a b hb)))
decode-encode (a ∷ b ∷ c ∷ s) (ha, (hb, (hc, hs))) =
    rw
      (
        value-digit (a / 4) (omega arith),
        value-digit (a % 4 * 16 + b / 16) (omega arith),
        value-digit (b % 16 * 4 + c / 64) (omega arith),
        value-digit (c % 64) (omega arith),
      )
      (cc (
        first_byte a (b / 16) ha (omega arith),
        second_byte a b (c / 64) hb (omega arith),
        third_byte b c hc,
        decode-encode s hs,
      ))
