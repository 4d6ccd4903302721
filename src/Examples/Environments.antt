-- ===== src/Examples/Environments.antt =====
-- The logins of Devin's bots, with and without the variable.
use cognition_devin_automati.Settings.Environment.{
  read_logins, read_enabled, split_comma, stripped_pieces, add_piece, default_logins,
}
use cognition_devin_automati.Prelude.Texts.{
  text, is_space, lower, in_range, strip, text_eq, lstrip, rstrip, drop_blank,
}
use cognition_devin_automati.Prelude.{some, ◌≡◌, true, none, ◌∷◌, refl, []}

logins_by_default :
    read_logins none
    ≡ text "devin-ai-integration[bot]" ∷ text "devin-ai[bot]" ∷ text "devin[bot]" ∷ []
unfolding read_logins split_comma add_piece stripped_pieces default_logins text is_space in_range
    strip lstrip rstrip drop_blank
logins_by_default = refl

logins_given : read_logins (some (text " a ,,b, ")) ≡ text "a" ∷ text "b" ∷ []
unfolding read_logins split_comma add_piece stripped_pieces text is_space in_range strip lstrip
    rstrip drop_blank
logins_given = refl

-- TRUE and true are alike.
admin_routes_on : read_enabled (some (text "TRUE")) ≡ true
unfolding read_enabled text lower in_range text_eq
admin_routes_on = refl
