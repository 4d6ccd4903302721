-- ===== src/Prompts/Fields/Matches.antt =====
-- One step of the search: a line that is a field, and a line that is none.
use mathlib.Core.List.{append_assoc, append-nil}
use cognition_devin_automati.Prompts.Fields.{
  find_from, match_field, name_then, is_name_char, spaces_then, literal_then, line_end,
}
use cognition_devin_automati.Prelude.Texts.{Text, text, in_range, is_space}
use cognition_devin_automati.Prelude.{
  first_of, ◌++◌, Bool, ℕ, ◌∷◌, zero, ◌≡◌, some, none, false, ◌==◌, true, refl, [], ◌-◌, arith, ap,
  List, ◌∙◌, Option, sym,
}
use cognition_devin_automati.Prompts.Fields.Lines.{
  NoNewline, IsInk, IsName, OneLine, ==_newline, name_then-IsName, not_newline, after_name-OneLine,
}
use cognition_devin_automati.Prelude.Lists.{length, length-append}

-- "- **Name:** value"
abbrev pub field_line : Text → Text → Text
field_line name value = text "- **" ++ (name ++ (text ":** " ++ value))

-- Whether `^` holds behind a text.
abbrev pub newline_last : Bool → Text → Bool
newline_last bol [] = bol
newline_last bol (c ∷ s) = newline_last (c == 10) s

find_from-skip :
    (u r : Text) (bol : Bool)
    → find_from (length u) bol (u ++ r) ≡ find_from zero (newline_last bol u) r
unfolding find_from
find_from-skip [] r bol = refl
find_from-skip (c ∷ u) r bol = find_from-skip u r (c == 10)

-- A match is reported, and the search goes on behind it.
pub find_from-match :
    (c : ℕ) (u r name value : Text)
    → match_field (c ∷ (u ++ r)) ≡ some (record { name = name; value = value; behind = r })
    → find_from zero true (c ∷ (u ++ r))
      ≡ (name, value) ∷ find_from zero (newline_last (c == 10) u) r
unfolding find_from
find_from-match c u r name value e =
    let left : length (u ++ r) - length r ≡ length u = omega (arith, length-append u r) in
    rw (e, find_from)
      (rw left (ap (λ (l : List (Text × Text)). (name, value) ∷ l) (find_from-skip u r (c == 10))))

-- Where nothing matches, the search goes on behind the character.
pub find_from-none :
    (c : ℕ) (s : Text)
    → match_field (c ∷ s) ≡ none
    → find_from zero true (c ∷ s) ≡ find_from zero (c == 10) s
unfolding find_from
find_from-none c s e = rw (e, find_from) refl

-- In the middle of a line nothing is found up to its end.
pub find_from-line :
    (v x : Text) → NoNewline v → find_from zero false (v ++ x) ≡ find_from zero false x
unfolding find_from
find_from-line [] x h = refl
find_from-line (c ∷ v) x h = rw (==_newline c h.0, find_from) (find_from-line v x h.1)

newline_last-IsInk : (bol : Bool) (v : Text) → IsInk v → newline_last bol v ≡ false
newline_last-IsInk bol [] h = absurd h
newline_last-IsInk bol (c ∷ []) h = ==_newline c (not_newline c h)
newline_last-IsInk bol (c ∷ d ∷ v) h = newline_last-IsInk (c == 10) (d ∷ v) h.1

newline_last-append :
    (bol : Bool) (u v : Text) → newline_last bol (u ++ v) ≡ newline_last (newline_last bol u) v
newline_last-append bol [] v = refl
newline_last-append bol (c ∷ u) v = newline_last-append (c == 10) u v

name_then-colon : (s : Text) → name_then (text ":** " ++ s) ≡ none
unfolding name_then is_name_char in_range text
name_then-colon s = refl

first_of-none : {A : Type 0} (o : Option A) → first_of o none ≡ o
first_of-none none = refl
first_of-none (some a) = refl

match_field-dash : (s : Text) → match_field (text "- **" ++ s) ≡ name_then s
unfolding match_field spaces_then literal_then text is_space in_range
match_field-dash s = first_of-none (name_then s)

match_field-line :
    (c : ℕ) (name v x behind : Text)
    → IsName (c ∷ name)
    → OneLine v
    → line_end x ≡ some behind
    → match_field (text "- **" ++ ((c ∷ name) ++ (text ":** " ++ (v ++ x))))
      ≡ some (record { name = c ∷ name; value = v; behind = behind })
match_field-line c name v x behind h one e =
    let named =
      name_then-IsName c name (text ":** " ++ (v ++ x)) _ h (name_then-colon (v ++ x))
        (after_name-OneLine v x behind one e) in
    match_field-dash ((c ∷ name) ++ (text ":** " ++ (v ++ x)))
    ∙ named
    ∙ ap (λ (n : Text). some (record { name = c ∷ n; value = v; behind = behind }))
        (append-nil name)

-- What stands behind the dash.
abbrev tail : Text → Text → Text
tail name v = text " **" ++ (name ++ (text ":** " ++ v))

find_from-field_line :
    (c : ℕ) (name v w behind : Text)
    → IsName (c ∷ name)
    → OneLine v
    → line_end (w ++ behind) ≡ some behind
    → find_from zero true (field_line (c ∷ name) v ++ (w ++ behind))
      ≡ (c ∷ name, v) ∷ find_from zero (newline_last false (tail (c ∷ name) v ++ w)) behind
unfolding text
find_from-field_line c name v w behind h one e =
    let split = sym (append_assoc (tail (c ∷ name) v) w behind) in
    ap (λ (s : Text). find_from zero true (45 ∷ s)) split
    ∙ find_from-match 45 (tail (c ∷ name) v ++ w) behind (c ∷ name) v (
        ap (λ (s : Text). match_field (45 ∷ s)) (sym split)
        ∙ ap (λ (s : Text). match_field (text "- **" ++ s))
            (append_assoc (c ∷ name) (text ":** " ++ v) (w ++ behind))
        ∙ match_field-line c name v (w ++ behind) behind h one e)

newline_last-tail :
    (name v w : Text)
    → newline_last false (tail name v ++ w) ≡ newline_last (newline_last false v) w
unfolding text
newline_last-tail name v w =
    newline_last-append false (tail name v) w
    ∙ ap (λ (b : Bool). newline_last b w) (newline_last-append false name (text ":** " ++ v))

line_end-newline :
    (d : ℕ) (rest : Text) → is_space d ≡ false → line_end (10 ∷ d ∷ rest) ≡ some (10 ∷ d ∷ rest)
unfolding line_end
line_end-newline d rest ink = rw (ink, line_end) (unfold is_space in_range in refl)

line_end-blank_line :
    (d : ℕ) (rest : Text)
    → is_space d ≡ false
    → line_end (10 ∷ 10 ∷ d ∷ rest) ≡ some (10 ∷ d ∷ rest)
unfolding line_end
line_end-blank_line d rest ink =
    rw (line_end-newline d rest ink, line_end) (unfold is_space in_range in refl)

-- A field's line with a line behind it that does not start with white space.
pub find_from-field :
    (c d : ℕ) (name v rest : Text)
    → IsName (c ∷ name)
    → OneLine v
    → is_space d ≡ false
    → find_from zero true (field_line (c ∷ name) v ++ 10 ∷ d ∷ rest)
      ≡ (c ∷ name, v) ∷ find_from zero true (d ∷ rest)
unfolding find_from
find_from-field c d name v rest h one ink =
    find_from-field_line c name v [] (10 ∷ d ∷ rest) h one (line_end-newline d rest ink)
    ∙ ap (λ (b : Bool). (c ∷ name, v) ∷ find_from zero b (10 ∷ d ∷ rest))
        (newline_last-tail (c ∷ name) v [] ∙ newline_last-IsInk false v one.ink)

-- A field's line with an empty line behind it.
pub find_from-last_field :
    (c d : ℕ) (name v rest : Text)
    → IsName (c ∷ name)
    → OneLine v
    → is_space d ≡ false
    → find_from zero true (field_line (c ∷ name) v ++ 10 ∷ 10 ∷ d ∷ rest)
      ≡ (c ∷ name, v) ∷ find_from zero true (10 ∷ d ∷ rest)
find_from-last_field c d name v rest h one ink =
    find_from-field_line c name v (10 ∷ []) (10 ∷ d ∷ rest) h one (line_end-blank_line d rest ink)
    ∙ ap (λ (b : Bool). (c ∷ name, v) ∷ find_from zero b (10 ∷ d ∷ rest))
        (newline_last-tail (c ∷ name) v (10 ∷ []))
