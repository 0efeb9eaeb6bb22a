-- ===== src/Go/Strings/Digits.antt =====
-- strconv: what the digits of `Itoa` tell.
use devcontainer_manager.Go.Strings.{itoa}
use devcontainer_manager.Go.Strings
use devcontainer_manager.Base.{
  length, All, Str, ℕ, zero, suc, ◌+◌, ◌-◌, ◌*◌, ◌/◌, ◌%◌, ◌≤◌, ◌<◌, ◌≡◌, refl, sym, ap, ◌∙◌, subst,
  ◌⊎◌, inl, inr, [], ◌∷◌, ◌++◌, arith,
}

-- The number that digits stand for after those of `acc`.
value : ℕ → Str → ℕ
value acc [] = acc
value acc (c ∷ s) = value (acc * 10 + (c - b'0')) s

digits_cases : (n : ℕ) → (n ≡ 0) ⊎ ((q : ℕ) × (n ≡ suc q))
digits_cases zero = inl refl
digits_cases (suc q) = inr (q, refl)

module _ (fuel n : ℕ) (acc : Str) where
  last_digit : n / 10 ≡ 0 → Strings.dec_digits (suc fuel) n acc ≡ (b'0' + n % 10) ∷ acc
  unfolding Strings.dec_digits
  last_digit h = ground arith

  more_digits :
      (q : ℕ)
      → n / 10 ≡ suc q
      → Strings.dec_digits (suc fuel) n acc
        ≡ Strings.dec_digits fuel (n / 10) ((b'0' + n % 10) ∷ acc)
  unfolding Strings.dec_digits
  more_digits q h = ground arith

value-dec_digits :
    (fuel n : ℕ) (acc : Str) → n < fuel → value 0 (Strings.dec_digits fuel n acc) ≡ value n acc
unfolding value
value-dec_digits zero n acc h = absurd (omega arith)
value-dec_digits (suc fuel) n acc h = elim (digits_cases (n / 10)) [
  | inl last ↦ ap (value 0) (last_digit fuel n acc last) ∙ ap (λ k. value k acc) (omega arith)
  | inr (q, more) ↦
      ap (value 0) (more_digits fuel n acc q more)
      ∙ value-dec_digits fuel (n / 10) ((b'0' + n % 10) ∷ acc) (omega arith)
      ∙ ap (λ k. value k acc) (omega arith)
]

-- A number is told by its digits.
pub itoa-injective : (m n : ℕ) → itoa m ≡ itoa n → m ≡ n
unfolding itoa value
itoa-injective m n h =
    sym (value-dec_digits (suc m) m [] (omega arith))
    ∙ ap (value 0) h
    ∙ value-dec_digits (suc n) n [] (omega arith)

-- A character from "0" on, so no "-".
abbrev pub FromZero : ℕ → Type 0
FromZero c = b'0' ≤ c

dec_digits-FromZero :
    (fuel n : ℕ) (acc : Str) → All FromZero acc → All FromZero (Strings.dec_digits fuel n acc)
unfolding Strings.dec_digits
dec_digits-FromZero zero n acc h = h
dec_digits-FromZero (suc fuel) n acc h = elim (digits_cases (n / 10)) [
  | inl last ↦ subst (All FromZero) (sym (last_digit fuel n acc last)) (omega arith, h)
  | inr (q, more) ↦
      subst (All FromZero) (sym (more_digits fuel n acc q more))
        (dec_digits-FromZero fuel (n / 10) ((b'0' + n % 10) ∷ acc) (omega arith, h))
]

pub itoa-FromZero : (n : ℕ) → All FromZero (itoa n)
unfolding itoa
itoa-FromZero n = dec_digits-FromZero (suc n) n [] tt

head_or_zero : Str → ℕ
head_or_zero [] = 0
head_or_zero (c ∷ s) = c

tail_of : Str → Str
tail_of [] = []
tail_of (c ∷ s) = s

-- What stands before the first "-" is told by the whole.
pub before_dash :
    (s t u v : Str) → All FromZero s → All FromZero t → s ++ b'-' ∷ u ≡ t ++ b'-' ∷ v → s ≡ t
unfolding head_or_zero tail_of
before_dash [] [] u v hs ht h = refl
before_dash [] (d ∷ t) u v hs (hd, ht) h = absurd (omega (arith, ap head_or_zero h))
before_dash (c ∷ s) [] u v (hc, hs) ht h = absurd (omega (arith, ap head_or_zero h))
before_dash (c ∷ s) (d ∷ t) u v (hc, hs) (hd, ht) h =
    let same : c ≡ d = ap head_or_zero h in cc (same, before_dash s t u v hs ht (ap tail_of h))

-- Of two texts that go on after beginnings of the same length, the beginnings and the rests agree.
pub same_length : (s t u v : Str) → length s ≡ length t → s ++ u ≡ t ++ v → (s ≡ t) × (u ≡ v)
unfolding head_or_zero tail_of
same_length [] [] u v n h = (refl, h)
same_length [] (d ∷ t) u v n h = absurd (omega (arith, n))
same_length (c ∷ s) [] u v n h = absurd (omega (arith, n))
same_length (c ∷ s) (d ∷ t) u v n h =
    let same : c ≡ d = ap head_or_zero h in
    let (front, back) = same_length s t u v (omega (arith, n)) (ap tail_of h) in
    (cc (same, front), back)
