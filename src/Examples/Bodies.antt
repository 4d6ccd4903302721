-- ===== src/Examples/Bodies.antt =====
-- The field pattern on short bodies.
use cognition_devin_automati.Prompts.Fields.{
  finditer, find_from, match_field, spaces_then, literal_then, name_then, after_name,
  value_then_end, line_end, is_name_char, add_name, add_char, one_char,
}
use cognition_devin_automati.Prelude.Texts.{text, is_space, in_range}
use cognition_devin_automati.Prelude.{◌≡◌, ◌∷◌, [], refl}

two_lines :
    finditer (text "## V\n- **CVE:** C-1\n  -  **Fix version:**   2 0 \n\n- x")
    ≡ (text "CVE", text "C-1") ∷ (text "Fix version", text "2 0") ∷ []
unfolding finditer find_from match_field spaces_then literal_then name_then after_name
    value_then_end line_end is_name_char add_name add_char one_char is_space in_range text
two_lines = refl

-- An empty value takes the next line.
next_line_taken :
    finditer (text "- **CVE:**\n- **Package:** flask")
    ≡ (text "CVE", text "- **Package:** flask") ∷ []
unfolding finditer find_from match_field spaces_then literal_then name_then after_name
    value_then_end line_end is_name_char add_name add_char one_char is_space in_range text
next_line_taken = refl
