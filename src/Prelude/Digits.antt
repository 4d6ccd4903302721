-- ===== src/Prelude/Digits.antt =====
-- The decimal digits of a number can be read back, and are digits.
use cognition_devin_automati.Prelude.Texts.{Text, show_digits, show_nat}
use cognition_devin_automati.Prelude.Lists.{All}
use cognition_devin_automati.Prelude.{
  ◌++◌, ℕ, ◌∷◌, ◌<◌, ◌≡◌, ◌≢◌, suc, ◌*◌, arith, sym, inl, [], ◌+◌, ap, ◌∙◌, inr, refl, ◌-◌, ◌⊎◌,
  ◌/◌, ◌≤◌, ◌%◌, zero,
}

-- The number that digits continue.
abbrev pub read_from : ℕ → Text → ℕ
read_from v [] = v
read_from v (c ∷ s) = read_from (v * 10 + (c - 48)) s

show_digits-step :
    (fuel n : ℕ) (acc : Text)
    → (n < 10) × (show_digits (suc fuel) n acc ≡ (48 + n) ∷ acc)
      ⊎ ((10 ≤ n)
          × (show_digits (suc fuel) n acc ≡ show_digits fuel (n / 10) ((48 + n % 10) ∷ acc)))
unfolding show_digits
show_digits-step fuel n acc = ground arith

read_from-show_digits :
    (fuel n : ℕ) (acc : Text) → n < fuel → read_from 0 (show_digits fuel n acc) ≡ read_from n acc
read_from-show_digits zero n acc h = absurd (omega arith)
read_from-show_digits (suc fuel) n acc h = elim (show_digits-step fuel n acc) [
  | inl (one, e) ↦ rw e (ap (λ (v : ℕ). read_from v acc) (omega arith))
  | inr (more, e) ↦ rw e (
      read_from-show_digits fuel (n / 10) ((48 + n % 10) ∷ acc) (omega arith)
      ∙ ap (λ (v : ℕ). read_from v acc) (omega arith))
]

-- Two numbers with the same text are the same.
pub show_nat_injective : (m n : ℕ) → show_nat m ≡ show_nat n → m ≡ n
unfolding show_nat
show_nat_injective m n h =
    sym (read_from-show_digits (suc m) m [] (omega arith))
    ∙ ap (read_from 0) h
    ∙ read_from-show_digits (suc n) n [] (omega arith)

-- A text without a colon.
abbrev pub NoColon : Text → Type 0
NoColon s = All (λ c. c ≢ 58) s

show_digits-NoColon : (fuel n : ℕ) (acc : Text) → NoColon acc → NoColon (show_digits fuel n acc)
unfolding show_digits
show_digits-NoColon zero n acc h = h
show_digits-NoColon (suc fuel) n acc h = elim (show_digits-step fuel n acc) [
  | inl (one, e) ↦ rw e (λ c. omega arith, h)
  | inr (more, e) ↦
      rw e (show_digits-NoColon fuel (n / 10) ((48 + n % 10) ∷ acc) (λ c. omega arith, h))
]

pub show_nat-NoColon : (n : ℕ) → NoColon (show_nat n)
unfolding show_nat
show_nat-NoColon n = show_digits-NoColon (suc n) n [] tt

-- Two texts split at their first colon.
pub split_colon :
    (a b x y : Text) → NoColon a → NoColon b → a ++ 58 ∷ x ≡ b ++ 58 ∷ y → (a ≡ b) × (x ≡ y)
split_colon [] [] x y ha hb h = (refl, cc)
split_colon [] (d ∷ b) x y ha hb h = absurd (hb.0 (cc))
split_colon (c ∷ a) [] x y ha hb h = absurd (ha.0 (cc))
split_colon (c ∷ a) (d ∷ b) x y ha hb h =
    let rest = split_colon a b x y ha.1 hb.1 (cc) in (cc, rest.1)
