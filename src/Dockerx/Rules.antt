-- ===== src/Dockerx/Rules.antt =====
-- internal/dockerx/client.go: `MatchRule`.
use devcontainer_manager.Base.Map.{Map, index}
use devcontainer_manager.Config.{Rule}
use devcontainer_manager.Config.Matching
use devcontainer_manager.Config.Matching.{Patterns, Matches}
use devcontainer_manager.Model.{Container}
use devcontainer_manager.Base.{
  if◌then◌else◌, Bool-cases, Option-cases, All, Str, ◌==◌, eq_iff, ◌≡◌, refl, ap, ◌↔◌, ◌⊎◌, inl,
  inr, Bool, true, false, not, Option, none, some, List, [], ◌∷◌, ◌++◌, arith,
}

-- `matchesLabels`
unfoldable pub matches_labels : Map Str → Map Str → Bool
matches_labels labels [] = true
matches_labels labels ((key, value) ∷ wanted) =
    if not (index key labels == value) then false else matches_labels labels wanted

module _ (P : Patterns) where
  unfoldable pub rule_fits : Container → Rule → Bool
  unfolding matches_labels
  rule_fits container rule =
      if not (Matching.match P rule.match.local_folder container.local_folder)
      then false
      else if not (Matching.match P rule.match.config_file container.config_file)
      then false
      else if not (Matching.match P rule.match.name container.name)
      then false
      else matches_labels container.labels rule.match.labels

  unfoldable pub match_rule : Container → List Rule → Option Rule
  unfolding rule_fits
  match_rule container [] = none
  match_rule container (rule ∷ rules) =
      let rest = match_rule container rules in if rule_fits container rule then some rule else rest

  -- What it means that a rule is for a container.
  pub record Fits (container : Container) (rule : Rule) : Type 0 where
    pub local_folder : Matches P rule.match.local_folder container.local_folder
    pub config_file : Matches P rule.match.config_file container.config_file
    pub name : Matches P rule.match.name container.name
    pub labels : All (λ (l : Str × Str). index l.0 container.labels ≡ l.1) rule.match.labels

  matches_labels_iff :
      (labels wanted : Map Str)
      → (matches_labels labels wanted ≡ true)
        ↔ All (λ (l : Str × Str). index l.0 labels ≡ l.1) wanted
  unfolding matches_labels
  matches_labels_iff labels [] = (λ _. tt, λ _. refl)
  matches_labels_iff labels ((key, value) ∷ wanted) =
      ground (arith, eq_iff (index key labels) value, matches_labels_iff labels wanted)

  rule_fits-Fits :
      (container : Container) (rule : Rule) → rule_fits container rule ≡ true → Fits container rule
  unfolding rule_fits
  rule_fits-Fits container rule h = record {
    local_folder = (Matching.match_iff P _ _).0 (ground arith);
    config_file = (Matching.match_iff P _ _).0 (ground arith);
    name = (Matching.match_iff P _ _).0 (ground arith);
    labels = (matches_labels_iff container.labels rule.match.labels).0 (ground arith);
  }

  Fits-rule_fits :
      (container : Container) (rule : Rule) → Fits container rule → rule_fits container rule ≡ true
  unfolding rule_fits
  Fits-rule_fits container rule f =
      rw
        (
          (Matching.match_iff P _ _).1 f.local_folder,
          (Matching.match_iff P _ _).1 f.config_file,
          (Matching.match_iff P _ _).1 f.name,
        )
        ((matches_labels_iff container.labels rule.match.labels).1 f.labels)

  -- The chosen rule, between those before it and those after it.
  pub record IsFirst (container : Container) (rules : List Rule) (rule : Rule) : Type 0 where
    pub earlier : List Rule
    pub later : List Rule
    pub split : rules ≡ earlier ++ (rule ∷ later)
    pub fits : Fits container rule
    pub none_before : All (λ r. ¬ Fits container r) earlier

  not_fitting :
      (container : Container) (rule : Rule)
      → rule_fits container rule ≡ false
      → ¬ Fits container rule
  not_fitting container rule h f = cc (Fits-rule_fits container rule f)

  -- The rule that `MatchRule` gives fits the container, and no rule before it does.
  pub match_rule-IsFirst :
      (container : Container) (rules : List Rule) (rule : Rule)
      → match_rule container rules ≡ some rule
      → IsFirst container rules rule
  unfolding match_rule
  match_rule-IsFirst container [] rule h = cc
  match_rule-IsFirst container (r ∷ rules) rule h = elim (Bool-cases (rule_fits container r)) [
    | inl fits ↦
        let same : r ≡ rule = ground arith in
        record {
          earlier = [];
          later = rules;
          split = ap (λ x. x ∷ rules) same;
          fits = rule_fits-Fits container rule (rw (← same) fits);
          none_before = tt;
        }
    | inr other ↦
        let f = match_rule-IsFirst container rules rule (rw other at h) in
        record {
          earlier = r ∷ f.earlier;
          later = f.later;
          split = ap (λ x. r ∷ x) f.split;
          fits = f.fits;
          none_before = (not_fitting container r other, f.none_before);
        }
  ]

  match_rule-eq-none :
      (container : Container) (rules : List Rule)
      → match_rule container rules ≡ none
      → All (λ r. ¬ Fits container r) rules
  unfolding match_rule
  match_rule-eq-none container [] h = tt
  match_rule-eq-none container (r ∷ rules) h = elim (Bool-cases (rule_fits container r)) [
    | inl fits ↦ absurd (ground arith)
    | inr other ↦
        (not_fitting container r other, match_rule-eq-none container rules (rw other at h))
  ]

  -- `MatchRule` is total over the rules: the first one that fits the container, or none where none
  -- of them fits.
  pub match_rule_cases :
      (container : Container) (rules : List Rule)
      → ((rule : Rule) × (match_rule container rules ≡ some rule) × IsFirst container rules rule)
        ⊎ ((match_rule container rules ≡ none) × All (λ r. ¬ Fits container r) rules)
  match_rule_cases container rules = elim (Option-cases (match_rule container rules)) [
    | inl e ↦ inr (e, match_rule-eq-none container rules e)
    | inr (rule, e) ↦ inl (rule, e, match_rule-IsFirst container rules rule e)
  ]

  -- The rule is picked by the labels and three texts of a container.
  pub match_rule-same :
      (c d : Container) (rules : List Rule)
      → c.local_folder ≡ d.local_folder
      → c.config_file ≡ d.config_file
      → c.name ≡ d.name
      → c.labels ≡ d.labels
      → match_rule c rules ≡ match_rule d rules
  unfolding match_rule rule_fits
  match_rule-same c d [] h1 h2 h3 h4 = refl
  match_rule-same c d (rule ∷ rules) h1 h2 h3 h4 =
      rw (h1, h2, h3, h4, match_rule-same c d rules h1 h2 h3 h4) refl
