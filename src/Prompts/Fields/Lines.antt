-- ===== src/Prompts/Fields/Lines.antt =====
-- What the search finds in a text of lines of the form "- **Name:** value".
use cognition_devin_automati.Prompts.Fields.{
  Found, line_end, value_then_end, spaces_then, after_name, name_then, one_char, literal_then,
  is_name_char, add_name, add_char,
}
use cognition_devin_automati.Prelude.Texts.{
  Text, text, is_space, in_range, rstrip, lstrip, strip, nonempty, drop_blank,
}
use cognition_devin_automati.Prelude.{
  ◌∷◌, ℕ, ◌≡◌, ◌≢◌, Option, [], ◌++◌, false, none, some, true, ◌==◌, arith, Bool-cases, refl, inl,
  inr,
}
use cognition_devin_automati.Prelude.Lists.{All}

-- No newline in it, and no white space at its end.
abbrev pub IsInk : Text → Type 0
IsInk [] = ⊥
IsInk (c ∷ []) = is_space c ≡ false
IsInk (c ∷ d ∷ v) = (c ≢ 10) × IsInk (d ∷ v)

abbrev pub StartsInk : Text → Type 0
StartsInk [] = ⊥
StartsInk (c ∷ v) = is_space c ≡ false

-- A text that a field's value can hold: one line, with no white space around it.
pub record OneLine (v : Text) : Type 0 where
  pub starts : StartsInk v
  pub ink : IsInk v

abbrev pub NoNewline : Text → Type 0
NoNewline v = All (λ c. c ≢ 10) v

pub not_newline : (c : ℕ) → is_space c ≡ false → c ≢ 10
unfolding is_space in_range
not_newline c h e = cc (rw e at h)

pub IsInk-NoNewline : (v : Text) → IsInk v → NoNewline v
IsInk-NoNewline [] h = tt
IsInk-NoNewline (c ∷ []) h = (not_newline c h, tt)
IsInk-NoNewline (c ∷ d ∷ v) h = (h.0, IsInk-NoNewline (d ∷ v) h.1)

pub ==_newline : (c : ℕ) → c ≢ 10 → (c == 10) ≡ false
==_newline c h = ground arith

line_end-none : (v x : Text) → IsInk v → line_end (v ++ x) ≡ none
unfolding line_end
line_end-none [] x h = absurd h
line_end-none (c ∷ []) x h = rw h refl
line_end-none (c ∷ d ∷ v) x h = elim (Bool-cases (is_space c)) [
  | inl blank ↦ rw blank (rw (line_end-none (d ∷ v) x h.1) (rw (==_newline c h.0) refl))
  | inr ink ↦ rw ink refl
]

value_then_end-IsInk :
    (v x behind : Text)
    → IsInk v
    → line_end x ≡ some behind
    → value_then_end (v ++ x) ≡ some (record { name = []; value = v; behind = behind })
unfolding value_then_end one_char add_char
value_then_end-IsInk [] x behind h e = absurd h
value_then_end-IsInk (c ∷ []) x behind h e = rw (==_newline c (not_newline c h)) (rw e refl)
value_then_end-IsInk (c ∷ d ∷ v) x behind h e =
    rw (==_newline c h.0)
      (rw (line_end-none (d ∷ v) x h.1) (rw (value_then_end-IsInk (d ∷ v) x behind h.1 e) refl))

spaces_then-StartsInk :
    (p : Text → Option Found) (v x : Text) → StartsInk v → spaces_then p (v ++ x) ≡ p (v ++ x)
unfolding spaces_then
spaces_then-StartsInk p [] x h = absurd h
spaces_then-StartsInk p (c ∷ v) x h = rw h refl

pub after_name-OneLine :
    (v x behind : Text)
    → OneLine v
    → line_end x ≡ some behind
    → after_name (text ":** " ++ (v ++ x)) ≡ some (record { name = []; value = v; behind = behind })
unfolding after_name literal_then text spaces_then
after_name-OneLine v x behind h e =
    rw (spaces_then-StartsInk value_then_end v x h.starts)
      (rw (value_then_end-IsInk v x behind h.ink e) (unfold is_space in_range in refl))

-- Letters and blanks.
abbrev pub IsName : Text → Type 0
IsName [] = Unit
IsName (c ∷ s) = (is_name_char c ≡ true) × IsName s

pub name_then-IsName :
    (c : ℕ) (n s : Text) (f : Found)
    → IsName (c ∷ n)
    → name_then s ≡ none
    → after_name s ≡ some f
    → name_then (c ∷ (n ++ s)) ≡ some (record f { name = c ∷ (n ++ f.name) })
unfolding name_then add_name
name_then-IsName c [] s f h stop e = rw h.0 (rw stop (rw e refl))
name_then-IsName c (d ∷ n) s f h stop e = rw h.0 (rw (name_then-IsName d n s f h.1 stop e) refl)

rstrip-IsInk : (v : Text) → IsInk v → rstrip v ≡ v
unfolding rstrip
rstrip-IsInk [] h = absurd h
rstrip-IsInk (c ∷ []) h = rw (h, drop_blank) refl
rstrip-IsInk (c ∷ d ∷ v) h = rw (rstrip-IsInk (d ∷ v) h.1) (unfold drop_blank in refl)

lstrip-StartsInk : (v : Text) → StartsInk v → lstrip v ≡ v
unfolding lstrip
lstrip-StartsInk [] h = absurd h
lstrip-StartsInk (c ∷ v) h = rw (h, lstrip) refl

pub strip-OneLine : (v : Text) → OneLine v → strip v ≡ v
unfolding strip
strip-OneLine v h = rw (rstrip-IsInk v h.ink) (lstrip-StartsInk v h.starts)

pub nonempty-OneLine : (v : Text) → OneLine v → nonempty v ≡ true
nonempty-OneLine [] h = absurd h.starts
nonempty-OneLine (c ∷ v) h = refl
