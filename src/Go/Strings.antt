-- ===== src/Go/Strings.antt =====
-- Package strings and strconv, over bytes.
--
-- `trim_space` knows the white space of Unicode in its UTF-8 form. `to_lower` and `to_upper` change
-- ASCII letters only. The program compares their results with "bearer ", "1", "true" and "yes", and
-- no other character has one of those letters as its lower case.
pub mod Digits
use mathlib.Core.List.{reverse-cons}
use devcontainer_manager.Base.Int.{ℤ, pos, negsuc}
use devcontainer_manager.Base.{
  leb, nat_eq, if◌then◌else◌, length, drop, length-append, Str, lit, ℕ, zero, suc, ◌+◌, ◌-◌, ◌/◌,
  ◌%◌, ◌≤◌, ◌≡◌, refl, ap, ◌∙◌, Bool, true, false, ◌&&◌, ◌||◌, [], ◌∷◌, ◌++◌, map, reverse, arith,
}

-- `strings.HasPrefix(s, p)`
unfoldable pub has_prefix : Str → Str → Bool
has_prefix s [] = true
has_prefix [] (_ ∷ _) = false
has_prefix (c ∷ s) (d ∷ p) = nat_eq c d && has_prefix s p

-- `strings.TrimPrefix(s, p)`
unfoldable pub trim_prefix : Str → Str → Str
unfolding has_prefix
trim_prefix s p = if has_prefix s p then drop (length p) s else s

-- The width of the white space character at the front, and 0 if there is none.
space_width : Str → ℕ
space_width (c ∷ []) = if (leb 9 c && leb c 13) || nat_eq c 32 then 1 else 0
space_width (c ∷ d ∷ []) =
    if (leb 9 c && leb c 13) || nat_eq c 32
    then 1
    else if nat_eq c 0xc2 && (nat_eq d 0x85 || nat_eq d 0xa0)
    then 2
    else 0
space_width (c ∷ d ∷ e ∷ _) =
    if (leb 9 c && leb c 13) || nat_eq c 32
    then 1
    else if nat_eq c 0xc2 && (nat_eq d 0x85 || nat_eq d 0xa0)
    then 2
    else if nat_eq c 0xe1 && (nat_eq d 0x9a && nat_eq e 0x80)
    then 3
    else if nat_eq c 0xe2
        && (nat_eq d 0x80
            && ((leb 0x80 e && leb e 0x8a) || nat_eq e 0xa8 || nat_eq e 0xa9 || nat_eq e 0xaf))
    then 3
    else if nat_eq c 0xe2 && (nat_eq d 0x81 && nat_eq e 0x9f)
    then 3
    else if nat_eq c 0xe3 && (nat_eq d 0x80 && nat_eq e 0x80)
    then 3
    else 0
space_width [] = 0

-- The same for a text that is read from its end.
space_width_back : Str → ℕ
unfolding space_width
space_width_back [] = 0
space_width_back (c ∷ []) = space_width (c ∷ [])
space_width_back (c ∷ d ∷ []) =
    if nat_eq (space_width (c ∷ [])) 1 then 1 else space_width (d ∷ c ∷ [])
space_width_back (c ∷ d ∷ e ∷ _) =
    if nat_eq (space_width (c ∷ [])) 1
    then 1
    else if nat_eq (space_width (d ∷ c ∷ [])) 2
    then 2
    else if nat_eq (space_width (e ∷ d ∷ c ∷ [])) 3
    then 3
    else 0

skip_head : ℕ → Str → (ℕ → Str) → ℕ → Str
skip_head c s tails zero = c ∷ s
skip_head c s tails (suc k) = tails k

-- Drops `k` bytes, and then characters as long as the width of the next one is not 0.
unfoldable pub skip : (Str → ℕ) → ℕ → Str → Str
unfolding skip_head
skip width k [] = []
skip width (suc k) (_ ∷ s) = skip width k s
skip width zero (c ∷ s) = skip_head c s (λ k. skip width k s) (width (c ∷ s))

-- `strings.TrimSpace(s)`
unfoldable pub trim_space : Str → Str
unfolding skip space_width space_width_back
trim_space s = reverse (skip space_width_back 0 (reverse (skip space_width 0 s)))

-- `strings.TrimRight(s, string(c))` of a single ASCII character.
unfoldable pub trim_right : Str → ℕ → Str
unfolding skip
trim_right s c =
    reverse (skip (elim [ [] ↦ 0 | d ∷ _ ↦ if nat_eq d c then 1 else 0 ]) 0 (reverse s))

abbrev lower_byte : ℕ → ℕ
lower_byte c = if leb b'A' c && leb c b'Z' then c + 32 else c

abbrev upper_byte : ℕ → ℕ
upper_byte c = if leb b'a' c && leb c b'z' then c - 32 else c

-- `strings.ToLower(s)`
unfoldable pub to_lower : Str → Str
to_lower = map lower_byte

-- `strings.ToUpper(s)`
unfoldable pub to_upper : Str → Str
to_upper = map upper_byte

-- `strings.Cut(s, string(c))`: the part before, the part after, and whether `c` was found.
unfoldable pub cut : Str → ℕ → Str × Str × Bool
cut [] c = ([], [], false)
cut (d ∷ s) c =
    let (before, after, found) = cut s c in
    if nat_eq d c then ([], s, true) else (d ∷ before, (if found then after else []), found)

-- `strings.Replace(s, old, new, 1)` with a non-empty `old`.
unfoldable pub replace_first : Str → Str → Str → Str
unfolding has_prefix
replace_first [] old new = []
replace_first (c ∷ s) old new =
    let rest = replace_first s old new in
    if has_prefix (c ∷ s) old then new ++ drop (length old) (c ∷ s) else c ∷ rest

-- The decimal digits of `n` before `acc`, with one unit of fuel to a digit.
dec_digits : ℕ → ℕ → Str → Str
dec_digits zero n acc = acc
dec_digits (suc fuel) n acc = elim (n / 10) [
  | zero ↦ (b'0' + n % 10) ∷ acc
  | suc q ↦ dec_digits fuel (n / 10) ((b'0' + n % 10) ∷ acc)
]

-- `strconv.Itoa(n)` of a number that is not negative. A number has fewer digits than `n + 1`.
unfoldable pub itoa : ℕ → Str
unfolding dec_digits
itoa n = dec_digits (suc n) n []

-- `strconv.Itoa(n)`
unfoldable pub itoa_int : ℤ → Str
unfolding itoa
itoa_int (pos n) = itoa n
itoa_int (negsuc n) = b'-' ∷ itoa (suc n)

-- A text that has the prefix is at least as long.
pub has_prefix-length : (s p : Str) → has_prefix s p ≡ true → length p ≤ length s
unfolding has_prefix
has_prefix-length s [] h = omega arith
has_prefix-length [] (_ ∷ _) h = cc
has_prefix-length (c ∷ s) (d ∷ p) h = ground (arith, has_prefix-length s p)

pub to_lower-length : (s : Str) → length (to_lower s) ≡ length s
unfolding to_lower
to_lower-length [] = refl
to_lower-length (c ∷ s) = ap suc (to_lower-length s)

skip_head-length :
    (c : ℕ) (s : Str) (tails : ℕ → Str)
    → ((k : ℕ) → length (tails k) ≤ length s)
    → (n : ℕ) → length (skip_head c s tails n) ≤ length (c ∷ s)
unfolding skip_head
skip_head-length c s tails h zero = omega arith
skip_head-length c s tails h (suc k) = omega (arith, h k)

skip-length : (width : Str → ℕ) (k : ℕ) (s : Str) → length (skip width k s) ≤ length s
unfolding skip
skip-length width k [] = omega arith
skip-length width (suc k) (c ∷ s) = omega (arith, skip-length width k s)
skip-length width zero (c ∷ s) =
    skip_head-length c s (λ k. skip width k s) (λ k. skip-length width k s) (width (c ∷ s))

length-reverse : (s : Str) → length (reverse s) ≡ length s
length-reverse [] = refl
length-reverse (c ∷ s) =
    rw reverse-cons (length-append (reverse s) (c ∷ []) ∙ omega (arith, length-reverse s))

-- Trimming makes no text longer.
pub trim_space-length : (s : Str) → length (trim_space s) ≤ length s
unfolding trim_space
trim_space-length s = omega (
  arith,
  length-reverse (skip space_width_back 0 (reverse (skip space_width 0 s))),
  skip-length space_width_back 0 (reverse (skip space_width 0 s)),
  length-reverse (skip space_width 0 s),
  skip-length space_width 0 s,
)

strings_tests :
    (trim_space (lit "  a b\n ") ≡ lit "a b")
    × (trim_space (0xc2 ∷ 0xa0 ∷ b'x' ∷ 0xe2 ∷ 0x80 ∷ 0xa8 ∷ []) ≡ lit "x")
    × (itoa 3773 ≡ lit "3773")
    × (itoa 0 ≡ lit "0")
    × (trim_right (lit "http://a//") b'/' ≡ lit "http://a")
    × (cut (lit "env/rest/x") b'/' ≡ (lit "env", lit "rest/x", true))
    × (replace_first (lit "http://h") (lit "http://") (lit "ws://") ≡ lit "ws://h")
unfolding trim_space itoa trim_right cut replace_first lit
strings_tests = (refl, refl, refl, refl, refl, refl, refl)
