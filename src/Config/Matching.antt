-- ===== src/Config/Matching.antt =====
-- internal/config/config.go: `Matcher.Empty`, `Match` and `Validate`.
--
-- The glob library (doublestar) and the engine of package regexp are a parameter.
use devcontainer_manager.Config.{Matcher}
use devcontainer_manager.Base.{
  if◌then◌else◌, Bool-cases, Str, is_empty, ◌==◌, eq_iff, Result, ok, err, ◌≡◌, ◌↔◌, ◌⊎◌, inl, inr,
  Bool, true, false, not, ◌&&◌, [], arith,
}

pub record Patterns : Type 0 where
  -- `doublestar.PathMatch(glob, value)`
  pub path_match : Str → Str → Result Bool
  -- `regexp.Compile(regex)`
  pub compile : Str → Result (Unit {0})
  -- `regexp.MatchString(regex, value)`
  pub match_string : Str → Str → Result Bool

-- As documented, `MatchString` compiles its pattern first, and fails as `Compile` does.
abbrev pub CompilesFirst : Patterns → Type 0
CompilesFirst p =
    (regex value : Str) → p.compile regex ≡ ok tt → (b : Bool) × (p.match_string regex value ≡ ok b)

-- `err != nil || !ok` of a call that gives a Boolean and an error, negated.
abbrev pub succeeds : Result Bool → Bool
succeeds (ok b) = b
succeeds (err _) = false

unfoldable pub empty : Matcher → Bool
empty m = is_empty m.literal && is_empty m.glob && is_empty m.regex

module _ (p : Patterns) where
  unfoldable pub match : Matcher → Str → Bool
  unfolding empty
  match m value =
      if empty m
      then true
      else if not (is_empty m.literal) && not (value == m.literal)
      then false
      else if not (is_empty m.glob) && not (succeeds (p.path_match m.glob value))
      then false
      else if not (is_empty m.regex) && not (succeeds (p.match_string m.regex value))
      then false
      else true

  unfoldable pub validate : Matcher → Result (Unit {0})
  validate m = if not (is_empty m.regex) then p.compile m.regex else ok tt

  -- What a matcher means: each of its three conditions that is given holds.
  pub record Matches (m : Matcher) (value : Str) : Type 0 where
    pub literal : (m.literal ≡ []) ⊎ (value ≡ m.literal)
    pub glob : (m.glob ≡ []) ⊎ (p.path_match m.glob value ≡ ok true)
    pub regex : (m.regex ≡ []) ⊎ (p.match_string m.regex value ≡ ok true)

  match-Matches : (m : Matcher) (value : Str) → match m value ≡ true → Matches m value
  unfolding match
  match-Matches m value h = ground (arith, eq_iff value m.literal)

  Matches-match : (m : Matcher) (value : Str) → Matches m value → match m value ≡ true
  unfolding match
  Matches-match m value h = ground (arith, eq_iff value m.literal)

  -- A matcher accepts a value exactly when each of its conditions that is given holds: the literal
  -- is the value, the glob matches it without an error, the regular expression does.
  pub match_iff : (m : Matcher) (value : Str) → (match m value ≡ true) ↔ Matches m value
  match_iff m value = (match-Matches m value, Matches-match m value)

  -- Where `MatchString` fails only as `Compile` does, a validated matcher never turns an error of its regular
  -- expression into a plain mismatch.
  pub validate-match_string :
      CompilesFirst p
      → (m : Matcher) (value : Str) → validate m ≡ ok tt
      → (m.regex ≡ []) ⊎ ((b : Bool) × (p.match_string m.regex value ≡ ok b))
  unfolding validate
  validate-match_string first m value h = elim (Bool-cases (is_empty m.regex)) [
    | inl e ↦ inl (ground arith)
    | inr e ↦ inr (first m.regex value (ground arith))
  ]
