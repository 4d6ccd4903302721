-- ===== src/Prelude/Texts.antt =====
-- Python's `str` as a list of code points: literals, comparison, prefixes, `str(n)` of a number,
-- `lower` and `strip`.
use Prim.Native.Char.{code}
use Prim.Native.Nat.{ℕ, zero, suc, ◌+◌, ◌/◌, ◌%◌, compare, Ordering}
use Prim.Native.String.{String}
use mathlib.Core.Path.{◌≡◌, refl}
use mathlib.Core.Bool.{Bool, true, false, ◌||◌}
use mathlib.Core.Option.{Option, none, some}
use mathlib.Core.List.{List, [], ◌∷◌, ◌++◌}
use native.Mathlib.Omega.{arith}
use cognition_devin_automati.Prelude.{not, ◌&&◌}

abbrev pub Text : Type 0
Text = List ℕ

-- The code points of a literal. `String` has its own `[]` and `∷`.
unfoldable pub text : String → Text
text String.[] = []
text (String.◌∷◌ c s) = code c ∷ text s

unfoldable pub text_eq : Text → Text → Bool
text_eq [] [] = true
text_eq [] (y ∷ t) = false
text_eq (x ∷ s) [] = false
text_eq (x ∷ s) (y ∷ t) = elim (compare x y) [ Ordering.eq ↦ text_eq s t | _ ↦ false ]

pub text_eq_refl : (s : Text) → text_eq s s ≡ true
unfolding text_eq
text_eq_refl [] = refl
text_eq_refl (x ∷ s) = ground (arith, text_eq_refl s)

pub eq_of_text_eq : (s t : Text) → text_eq s t ≡ true → s ≡ t
unfolding text_eq
eq_of_text_eq [] [] h = refl
eq_of_text_eq [] (y ∷ t) h = cc
eq_of_text_eq (x ∷ s) [] h = cc
eq_of_text_eq (x ∷ s) (y ∷ t) h = ground (arith, eq_of_text_eq s t)

pub text_eq_of_eq : (s t : Text) → s ≡ t → text_eq s t ≡ true
text_eq_of_eq s t h = rw h (text_eq_refl t)

-- s.startswith(p)
unfoldable pub starts_with : Text → Text → Bool
starts_with [] t = true
starts_with (x ∷ p) [] = false
starts_with (x ∷ p) (y ∷ t) = elim (compare x y) [ Ordering.eq ↦ starts_with p t | _ ↦ false ]

-- s[len(p):], which is s.removeprefix(p) where s starts with p
unfoldable pub drop_prefix : Text → Text → Text
drop_prefix [] t = t
drop_prefix (x ∷ p) [] = []
drop_prefix (x ∷ p) (y ∷ t) = drop_prefix p t

pub starts_with-append : (p t : Text) → starts_with p (p ++ t) ≡ true
unfolding starts_with
starts_with-append [] t = refl
starts_with-append (x ∷ p) t = ground (arith, starts_with-append p t)

pub drop_prefix-append : (p t : Text) → drop_prefix p (p ++ t) ≡ t
unfolding drop_prefix
drop_prefix-append [] t = refl
drop_prefix-append (x ∷ p) t = drop_prefix-append p t

pub append-drop_prefix : (p t : Text) → starts_with p t ≡ true → p ++ drop_prefix p t ≡ t
unfolding starts_with drop_prefix
append-drop_prefix [] t h = refl
append-drop_prefix (x ∷ p) [] h = cc
append-drop_prefix (x ∷ p) (y ∷ t) h = ground (arith, append-drop_prefix p t)

-- `if s:` of a text
abbrev pub nonempty : Text → Bool
nonempty [] = false
nonempty (c ∷ s) = true

-- `if s:` of a text or None
abbrev pub truthy : Option Text → Bool
truthy none = false
truthy (some s) = nonempty s

-- `a == b` in SQL and in Python's tests, where None equals no text
abbrev pub holds_text : Option Text → Text → Bool
holds_text none t = false
holds_text (some s) t = text_eq s t

unfoldable pub member : Text → List Text → Bool
member t [] = false
member t (s ∷ ss) = text_eq t s || member t ss

-- No text stands twice.
abbrev pub distinct : List Text → Bool
distinct [] = true
distinct (t ∷ ts) = not (member t ts) && distinct ts

-- `s in t`
unfoldable pub contains : Text → Text → Bool
contains s [] = starts_with s []
contains s (c ∷ t) = starts_with s (c ∷ t) || contains s t

-- "\n".join(lines)
unfoldable pub join_lines : List Text → Text
join_lines [] = []
join_lines (l ∷ []) = l
join_lines (l ∷ m ∷ ls) = l ++ 10 ∷ join_lines (m ∷ ls)

-- The decimal digits of a number in front of a text; the fuel is above the number.
unfoldable pub show_digits : ℕ → ℕ → Text → Text
show_digits zero n acc = acc
show_digits (suc fuel) n acc =
    let more = show_digits fuel (n / 10) ((48 + n % 10) ∷ acc) in
    elim (compare n 10) [ Ordering.lt ↦ (48 + n) ∷ acc | _ ↦ more ]

-- str(n)
unfoldable pub show_nat : ℕ → Text
unfolding show_digits
show_nat n = show_digits (suc n) n []

-- str(x) of a number or None, and of a text or None
unfoldable pub show_opt_nat : Option ℕ → Text
unfolding show_nat text
show_opt_nat none = text "None"
show_opt_nat (some n) = show_nat n

unfoldable pub show_opt : Option Text → Text
unfolding text
show_opt none = text "None"
show_opt (some s) = s

-- ','.join(ts)
unfoldable pub join_comma : List Text → Text
join_comma [] = []
join_comma (t ∷ []) = t
join_comma (t ∷ u ∷ ts) = t ++ 44 ∷ join_comma (u ∷ ts)

unfoldable pub in_range : ℕ → ℕ → ℕ → Bool
in_range lo hi c = elim (compare lo c) [
  | Ordering.gt ↦ false
  | _ ↦ elim (compare c hi) [ Ordering.gt ↦ false | _ ↦ true ]
]

-- s.lower(), on ASCII letters
unfoldable pub lower : Text → Text
unfolding in_range
lower [] = []
lower (c ∷ s) = elim (in_range 65 90 c) [ true ↦ c + 32 | false ↦ c ] ∷ lower s

-- c.isspace(): the white space of s.strip() and of the pattern \s
unfoldable pub is_space : ℕ → Bool
unfolding in_range
is_space c =
    in_range 9 13 c
    || (in_range 28 32 c
        || (in_range 0x2000 0x200a c
            || (in_range 0x2028 0x2029 c
                || (in_range 0x85 0x85 c
                    || (in_range 0xa0 0xa0 c
                        || (in_range 0x1680 0x1680 c
                            || (in_range 0x202f 0x202f c
                                || (in_range 0x205f 0x205f c || in_range 0x3000 0x3000 c))))))))

unfoldable pub lstrip : Text → Text
unfolding is_space
lstrip [] = []
lstrip (c ∷ s) = let rest = lstrip s in elim (is_space c) [ true ↦ rest | false ↦ c ∷ s ]

unfoldable pub drop_blank : ℕ → Text → Text
unfolding is_space
drop_blank c [] = elim (is_space c) [ true ↦ [] | false ↦ c ∷ [] ]
drop_blank c (d ∷ t) = c ∷ d ∷ t

unfoldable pub rstrip : Text → Text
unfolding drop_blank
rstrip [] = []
rstrip (c ∷ s) = drop_blank c (rstrip s)

unfoldable pub strip : Text → Text
unfolding lstrip rstrip
strip s = lstrip (rstrip s)
