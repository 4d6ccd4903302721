-- ===== src/Prompts/Fields.antt =====
-- `_FIELD.finditer(body)` of app/prompts/cve.py: the pattern
-- `^\s*-\s*\*\*([A-Za-z ]+):\*\*\s*(.+?)\s*$` under re.MULTILINE, as Python's backtracking matcher
-- reads it: a greedy repetition tries the longest match first, a lazy one the shortest.
pub mod Lines
pub mod Matches
use cognition_devin_automati.Prelude.Texts.{Text, text, in_range, is_space}
use cognition_devin_automati.Prelude.{
  first_of, ℕ, List, Option, ◌∷◌, some, none, Bool, zero, if◌then◌else◌, [], ◌==◌, suc, true, ◌||◌,
  ◌-◌, false,
}
use cognition_devin_automati.Prelude.Lists.{length}

-- What a match leaves: its two groups, and the text behind it.
pub record Found : Type 0 where
  pub name : Text
  pub value : Text
  pub behind : Text

-- `\s*`, and then the rest of the pattern
unfoldable pub spaces_then : (Text → Option Found) → Text → Option Found
spaces_then p [] = p []
spaces_then p (c ∷ s) =
    let longer = spaces_then p s in if is_space c then first_of longer (p (c ∷ s)) else p (c ∷ s)

-- some characters, and then the rest of the pattern
unfoldable pub literal_then : Text → (Text → Option Found) → Text → Option Found
literal_then [] p s = p s
literal_then (x ∷ xs) p [] = none
literal_then (x ∷ xs) p (c ∷ s) = if c == x then literal_then xs p s else none

-- `\s*$`: the text behind it
unfoldable pub line_end : Text → Option Text
line_end [] = some []
line_end (c ∷ s) =
    let longer = line_end s in
    if is_space c then first_of longer (if c == 10 then some (c ∷ s) else none) else none

unfoldable pub add_char : ℕ → Option Found → Option Found
add_char c none = none
add_char c (some f) = some (record f { value = c ∷ f.value })

unfoldable pub one_char : ℕ → Option Text → Option Found
one_char c none = none
one_char c (some behind) = some (record { name = []; value = c ∷ []; behind = behind })

-- `(.+?)\s*$`
unfoldable pub value_then_end : Text → Option Found
unfolding add_char one_char
value_then_end [] = none
value_then_end (c ∷ s) =
    let longer = value_then_end s in
    if c == 10 then none else first_of (one_char c (line_end s)) (add_char c longer)

unfoldable pub is_name_char : ℕ → Bool
unfolding in_range
is_name_char c = c == 32 || (in_range 65 90 c || in_range 97 122 c)

unfoldable pub add_name : ℕ → Option Found → Option Found
add_name c none = none
add_name c (some f) = some (record f { name = c ∷ f.name })

-- `:\*\*\s*(.+?)\s*$`
unfoldable pub after_name : Text → Option Found
unfolding text
after_name = literal_then (text ":**") (spaces_then value_then_end)

-- `([A-Za-z ]+)`, and then the rest
unfoldable pub name_then : Text → Option Found
unfolding add_name after_name
name_then [] = none
name_then (c ∷ s) =
    let longer = name_then s in
    if is_name_char c then add_name c (first_of longer (after_name s)) else none

-- The pattern behind `^`.
unfoldable pub match_field : Text → Option Found
unfolding text name_then
match_field =
    spaces_then (literal_then (text "-") (spaces_then (literal_then (text "**") name_then)))

-- The search: `skip` characters belong to the last match, and `bol` says that `^` holds here.
unfoldable pub find_from : ℕ → Bool → Text → List (Text × Text)
unfolding match_field
find_from skip bol [] = []
find_from (suc skip) bol (c ∷ s) = find_from skip (c == 10) s
find_from zero false (c ∷ s) = find_from zero (c == 10) s
find_from zero true (c ∷ s) = elim (match_field (c ∷ s)) [
  | none ↦ find_from zero (c == 10) s
  | some f ↦ (f.name, f.value) ∷ find_from (length s - length f.behind) (c == 10) s
]

-- The groups of each match.
unfoldable pub finditer : Text → List (Text × Text)
unfolding find_from
finditer body = find_from zero true body
