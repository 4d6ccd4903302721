-- ===== src/Findings/Filing/Forged.antt =====
-- What a summary of several lines does to the fields of an issue's body.
use mathlib.Core.List.{append_assoc}
use cognition_devin_automati.Findings.{Finding}
use cognition_devin_automati.Prompts.Fields.{find_from, finditer, is_name_char}
use cognition_devin_automati.Prelude.Texts.{
  Text, text, join_lines, is_space, in_range, text_eq, lower, strip, rstrip, lstrip, drop_blank,
}
use cognition_devin_automati.Prompts.Fields.Lines.{
  OneLine, strip-OneLine, nonempty-OneLine, IsInk-NoNewline,
}
use cognition_devin_automati.Prelude.{◌∷◌, ◌≡◌, some, ◌++◌, [], zero, true, List, refl, ap, ◌∙◌, ℕ}
use cognition_devin_automati.Prompts.Fields.Matches.{
  field_line, find_from-field, find_from-last_field,
}
use cognition_devin_automati.Prompts.{context_of_fields, field}
use cognition_devin_automati.Handlers.Security.{parse_issue_to_cve_context, issue_url, issue_number}
use cognition_devin_automati.Findings.Filing.{issue_body, shown_summary}
use cognition_devin_automati.World.{Issue}
use cognition_devin_automati.Findings.Filing.Parsed.{
  ending_tail, Plain, footer, found, found_five, context, find_from-footer, issue_body-five,
  finditer-five,
}

-- A summary of two lines, the second of which looks like the package's field.
abbrev pub forged : Text → Text → Text
forged first other = first ++ 10 ∷ field_line (text "Package") other

abbrev forged_tail : Text → Text → Text
forged_tail other cve_id = text " **Package:** " ++ other ++ 10 ∷ 10 ∷ footer cve_id

ending-forged :
    (first other cve_id : Text)
    → ending_tail (forged first other) cve_id
      ≡ text " **Summary:** " ++ first ++ 10 ∷ 45 ∷ forged_tail other cve_id
unfolding text
ending-forged first other cve_id =
    ap (λ (s : Text). text " **Summary:** " ++ s)
      (append_assoc first (10 ∷ field_line (text "Package") other) (10 ∷ 10 ∷ footer cve_id))

find_from-forged :
    (f : Finding) (fix first other : Text)
    → Plain f fix
    → OneLine first
    → OneLine other
    → find_from zero true (45 ∷ ending_tail (forged first other) f.cve_id)
      ≡ (text "Summary", first) ∷ (text "Package", other) ∷ []
unfolding text is_name_char in_range is_space join_lines
find_from-forged f fix first other h one two =
    ap (λ (s : Text). find_from zero true (45 ∷ s)) (ending-forged first other f.cve_id)
    ∙ find_from-field 83 45 (text "ummary") first _
        (refl, (refl, (refl, (refl, (refl, (refl, (refl, tt))))))) one refl
    ∙ found _ (
        find_from-last_field 80 35 (text "ackage") other _
          (refl, (refl, (refl, (refl, (refl, (refl, (refl, tt))))))) two refl
        ∙ found _ (find_from-footer f.cve_id (IsInk-NoNewline f.cve_id h.cve_line.ink)))

context_of_forged :
    (f : Finding) (fix first other url : Text) (number : ℕ)
    → Plain f fix
    → OneLine first
    → OneLine other
    → context_of_fields
        (found_five f fix ((text "Summary", first) ∷ (text "Package", other) ∷ []))
        url
        number
      ≡ some (record (context f fix first url number) { package_name = other })
unfolding context_of_fields field text text_eq lower in_range strip rstrip lstrip drop_blank
    is_space
context_of_forged f fix first other url number h one two = rw (strip-OneLine f.cve_id h.cve_line) (
    rw (strip-OneLine other two) (
      rw (strip-OneLine f.installed_version h.installed_line) (
        rw (strip-OneLine fix h.fix_line) (
          rw (strip-OneLine f.severity h.severity_line) (
            rw (strip-OneLine first one) (
              rw (nonempty-OneLine f.cve_id h.cve_line) (rw (nonempty-OneLine other two) refl)))))))

-- The summary, which is not trusted, can replace the package, which the prompt calls trusted: where
-- the shown summary is a line, a line break and the field of another package, the parser gives that
-- package, and the first line as the summary.
pub parse-forged :
    (f : Finding) (fix first other : Text) (issue : Issue)
    → Plain f fix
    → OneLine first
    → OneLine other
    → shown_summary f ≡ forged first other
    → issue.body ≡ some (issue_body f)
    → parse_issue_to_cve_context issue
      ≡ some (record (context f fix first (issue_url issue) (issue_number issue)) {
        package_name = other;
      })
unfolding parse_issue_to_cve_context issue_url issue_number
parse-forged f fix first other issue h one two shown body = rw body (
    ap (λ (ms : List (Text × Text)). context_of_fields ms (issue_url issue) (issue_number issue))
      (ap finditer (issue_body-five f fix h)
        ∙ finditer-five f fix _ h
        ∙ ap (found_five f fix) (
            ap (λ (t : Text). find_from zero true (45 ∷ ending_tail t f.cve_id)) shown
            ∙ find_from-forged f fix first other h one two))
    ∙ context_of_forged f fix first other (issue_url issue) (issue_number issue) h one two)
