-- ===== src/Go/Path.antt =====
-- Packages path and path/filepath on Unix, over bytes. `clean` works on the parts between slashes:
-- it drops empty parts and ".", and resolves ".." against the part before it.
use mathlib.Core.List.{reverse-cons}
use devcontainer_manager.Base.{
  Bool-cases, inl, inr, nat_eq, nat_eq_iff, if◌then◌else◌, All, All-append, Str, lit, is_empty,
  ◌==◌, eq_iff, ◌≡◌, refl, ◌≢◌, Bool, true, false, ◌||◌, List, [], ◌∷◌, ◌++◌, reverse, arith,
}

-- The parts of a path between its slashes.
unfoldable pub split_slash : Str → List Str
split_slash [] = [] ∷ []
split_slash (c ∷ s) =
    let rest = split_slash s in
    if nat_eq c b'/' then [] ∷ rest else elim rest [ [] ↦ (c ∷ []) ∷ [] | p ∷ ps ↦ (c ∷ p) ∷ ps ]

unfoldable pub join_slash : List Str → Str
join_slash [] = []
join_slash (p ∷ ps) = elim ps [ [] ↦ p | q ∷ qs ↦ p ++ (b'/' ∷ join_slash ps) ]

-- The parts that ".." leaves of those before it, of which the last stands first.
pop_part : Bool → List Str → List Str
pop_part true [] = []
pop_part false [] = lit ".." ∷ []
pop_part rooted (top ∷ below) = if top == lit ".." then lit ".." ∷ top ∷ below else below

-- One part against the parts before it.
unfoldable pub resolve : Bool → List Str → Str → List Str
unfolding pop_part
resolve rooted stack part =
    if is_empty part || part == lit "."
    then stack
    else if part == lit ".."
    then pop_part rooted stack
    else part ∷ stack

unfoldable pub resolve_all : Bool → List Str → List Str → List Str
resolve_all rooted stack [] = reverse stack
resolve_all rooted stack (part ∷ parts) = resolve_all rooted (resolve rooted stack part) parts

-- `path.IsAbs(p)`
unfoldable pub is_abs : Str → Bool
is_abs [] = false
is_abs (c ∷ _) = nat_eq c b'/'

print_path : Bool → List Str → Str
print_path true parts = b'/' ∷ join_slash parts
print_path false [] = lit "."
print_path false (part ∷ parts) = join_slash (part ∷ parts)

-- `path.Clean(p)`
unfoldable pub clean : Str → Str
unfolding split_slash join_slash resolve resolve_all is_abs print_path
clean p =
    if is_empty p
    then lit "."
    else print_path (is_abs p) (resolve_all (is_abs p) [] (split_slash p))

-- The non-empty elements, with slashes between them.
unfoldable pub join_elements : List Str → Str
join_elements [] = []
join_elements (e ∷ es) =
    let rest = join_elements es in
    if is_empty e then rest else if is_empty rest then e else e ++ (b'/' ∷ rest)

-- `path.Join(elements...)`
unfoldable pub join : List Str → Str
unfolding join_elements clean
join es = let all = join_elements es in if is_empty all then [] else clean all

last_part : Str → List Str → Str
last_part p [] = p
last_part p (q ∷ qs) = last_part q qs

unfoldable pub drop_slashes : Str → Str
drop_slashes [] = []
drop_slashes (c ∷ s) = if nat_eq c b'/' then drop_slashes s else c ∷ s

-- `path.Base(p)`
unfoldable pub base : Str → Str
unfolding drop_slashes last_part split_slash
base p =
    let trimmed = reverse (drop_slashes (reverse p)) in
    if is_empty p
    then lit "."
    else if is_empty trimmed
    then lit "/"
    else last_part [] (split_slash trimmed)

abbrev pub HasNoSlash : Str → Type 0
HasNoSlash part = All (λ c. c ≢ b'/') part

-- A part that names an entry of the directory before it: it has no slash, and is not empty, "." or "..".
abbrev pub IsPlain : Str → Type 0
IsPlain part = HasNoSlash part × (part ≢ []) × (part ≢ lit ".") × (part ≢ lit "..")

-- The parts between slashes have none.
split_slash-HasNoSlash : (s : Str) → All HasNoSlash (split_slash s)
unfolding split_slash
split_slash-HasNoSlash [] = (tt, tt)
split_slash-HasNoSlash (c ∷ s) = elim (Bool-cases (nat_eq c b'/')) [
  | inl slash ↦ rw slash (tt, split_slash-HasNoSlash s)
  | inr other ↦
      rw other
        (onto (split_slash s) (λ e. ground (arith, nat_eq_iff c b'/')) (split_slash-HasNoSlash s))
]
  where
    onto :
        (rest : List Str)
        → c ≢ b'/'
        → All HasNoSlash rest
        → All HasNoSlash (elim rest [ [] ↦ (c ∷ []) ∷ [] | p ∷ ps ↦ (c ∷ p) ∷ ps ])
    onto [] plain h = ((plain, tt), tt)
    onto (p ∷ ps) plain (h, hs) = ((plain, h), hs)

All-reverse_onto {ℓ κ} : {A : Type ℓ} (P : A → Type κ) (xs : List A) → All P xs → All P (reverse xs)
All-reverse_onto P [] h = h
All-reverse_onto P (x ∷ xs) (h, hs) =
    rw reverse-cons (All-append P (reverse xs) (x ∷ []) (All-reverse_onto P xs hs) (h, tt))

resolve-IsPlain :
    (stack : List Str) (part : Str)
    → HasNoSlash part
    → All IsPlain stack
    → All IsPlain (resolve true stack part)
unfolding resolve
resolve-IsPlain [] part own h = ground (arith, eq_iff part (lit "."), eq_iff part (lit ".."))
resolve-IsPlain (top ∷ below) part own h =
    ground (arith, eq_iff part (lit "."), eq_iff part (lit ".."), eq_iff top (lit ".."))

resolve_all-IsPlain :
    (stack parts : List Str)
    → All HasNoSlash parts
    → All IsPlain stack
    → All IsPlain (resolve_all true stack parts)
unfolding resolve_all
resolve_all-IsPlain stack [] own h = All-reverse_onto IsPlain stack h
resolve_all-IsPlain stack (part ∷ parts) (own, owns) h =
    resolve_all-IsPlain (resolve true stack part) parts owns (resolve-IsPlain stack part own h)

-- A path that was joined to the root stays below it: no part of it between two slashes is
-- empty, "." or "..".
abbrev pub IsBelowRoot : Str → Type 0
IsBelowRoot p = (parts : List Str) × (p ≡ b'/' ∷ join_slash parts) × All IsPlain parts

pub clean-IsBelowRoot : (s : Str) → IsBelowRoot (clean (b'/' ∷ s))
unfolding clean is_abs
clean-IsBelowRoot s = (
  resolve_all true [] (split_slash (b'/' ∷ s)),
  refl,
  resolve_all-IsPlain [] (split_slash (b'/' ∷ s)) (split_slash-HasNoSlash (b'/' ∷ s)) tt,
)

-- Joining to "/" is cleaning a rooted path.
pub join_root-IsBelowRoot : (a b : Str) → IsBelowRoot (join (lit "/" ∷ a ∷ b ∷ []))
unfolding join lit
join_root-IsBelowRoot a b = elim (Bool-cases (is_empty (join_elements (a ∷ b ∷ [])))) [
  | inl e ↦ rw e (clean-IsBelowRoot [])
  | inr e ↦ rw e (clean-IsBelowRoot (b'/' ∷ join_elements (a ∷ b ∷ [])))
]

path_tests :
    (clean (lit "/a/../../etc//./x/") ≡ lit "/etc/x")
    × (clean (lit "../a/../..") ≡ lit "../..")
    × (clean [] ≡ lit ".")
    × (join (lit "/" ∷ [] ∷ lit "api//x/" ∷ []) ≡ lit "/api/x")
    × (base (lit "/workspace/auth//") ≡ lit "auth")
    × (base (lit "//") ≡ lit "/")
unfolding clean join base lit ◌==◌
path_tests = (refl, refl, refl, refl, refl, refl)
