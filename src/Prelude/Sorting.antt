-- ===== src/Prelude/Sorting.antt =====
-- What sorting and taking keep of a list.
use cognition_devin_automati.Prelude.Lists.{All, insert_by, sort_by, take, length, any_by}
use cognition_devin_automati.Prelude.{
  ℕ, Bool, List, ◌∷◌, suc, ◌≡◌, ◌<◌, Bool-cases, arith, ◌∙◌, [], zero, inl, ap, refl, inr,
}

module _ {ℓ κ} {A : Type ℓ} (P : A → Type κ) where
  insert_by-All :
      (le : A → A → Bool) (x : A) (xs : List A) → P x → All P xs → All P (insert_by le x xs)
  unfolding insert_by
  insert_by-All le x [] h k = (h, tt)
  insert_by-All le x (y ∷ ys) h k = elim (Bool-cases (le x y)) [
    | inl before ↦ rw (before, All) (h, k)
    | inr behind ↦ rw (behind, All) (k.0, insert_by-All le x ys h k.1)
  ]

  pub sort_by-All : (le : A → A → Bool) (xs : List A) → All P xs → All P (sort_by le xs)
  unfolding sort_by
  sort_by-All le [] h = tt
  sort_by-All le (x ∷ xs) h = insert_by-All le x (sort_by le xs) h.0 (sort_by-All le xs h.1)

  pub take-All : (n : ℕ) (xs : List A) → All P xs → All P (take n xs)
  take-All zero xs h = tt
  take-All (suc n) [] h = tt
  take-All (suc n) (x ∷ xs) h = (h.0, take-All n xs h.1)

length-insert_by {ℓ} :
    {A : Type ℓ} (le : A → A → Bool) (x : A) (xs : List A)
    → length (insert_by le x xs) ≡ suc (length xs)
unfolding insert_by
length-insert_by le x [] = refl
length-insert_by le x (y ∷ ys) = ground (arith, length-insert_by le x ys)

pub length-sort_by {ℓ} :
    {A : Type ℓ} (le : A → A → Bool) (xs : List A) → length (sort_by le xs) ≡ length xs
unfolding sort_by
length-sort_by le [] = refl
length-sort_by le (x ∷ xs) = length-insert_by le x (sort_by le xs) ∙ ap suc (length-sort_by le xs)

pub take_some {ℓ} :
    {A : Type ℓ} (n : ℕ) (xs : List A) → 0 < n → 0 < length xs → 0 < length (take n xs)
take_some zero xs h k = absurd (omega arith)
take_some (suc n) [] h k = k
take_some (suc n) (x ∷ xs) h k = omega arith

module _ {ℓ} {A : Type ℓ} where
  any_by-insert_by :
      (p : A → Bool) (le : A → A → Bool) (x : A) (xs : List A)
      → any_by p (insert_by le x xs) ≡ any_by p (x ∷ xs)
  unfolding any_by insert_by
  any_by-insert_by p le x [] = refl
  any_by-insert_by p le x (y ∷ ys) = ground (arith, any_by-insert_by p le x ys)

  pub any_by-sort_by :
      (p : A → Bool) (le : A → A → Bool) (xs : List A) → any_by p (sort_by le xs) ≡ any_by p xs
  unfolding any_by sort_by
  any_by-sort_by p le [] = refl
  any_by-sort_by p le (x ∷ xs) =
      ground (arith, any_by-insert_by p le x (sort_by le xs), any_by-sort_by p le xs)
