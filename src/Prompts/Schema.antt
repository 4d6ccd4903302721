-- ===== src/Prompts/Schema.antt =====
-- app/prompts/structured.py: the shape that Devin's report on a CVE is to have.
use cognition_devin_automati.Prelude.Json.{
  Json, Items, Members, no_items, item, string, boolean, array, object, no_members, entry, lookup,
}
use cognition_devin_automati.Prelude.{
  ℕ, ◌&&◌, ◌+◌, leb, List, Bool, ◌∷◌, true, Option, [], false, none, some, is_some,
}
use cognition_devin_automati.Prelude.Texts.{Text, text, member, text_eq}
use cognition_devin_automati.Prelude.Lists.{length}

-- {"type": "string", "maxLength": n}, {"type": "string", "enum": names}, {"type": "boolean"} and
-- {"type": "array", "items": {"type": "string"}, "maxItems": n}
pub data Shape : Type 0 where
  text_up_to : ℕ → Shape
  one_of : List Text → Shape
  flag : Shape
  texts_up_to : ℕ → Shape

pub record Property : Type 0 where
  pub name : Text
  pub shape : Shape
  pub description : Text

-- {"type": "object", …}
pub record Schema : Type 0 where
  pub properties : List Property
  pub required : List Text
  pub additional_properties : Bool

unfoldable pub risk_levels : List Text
unfolding text
risk_levels = text "low" ∷ text "medium" ∷ text "high" ∷ []

unfoldable pub cve_remediation_schema : Schema
unfolding text risk_levels
cve_remediation_schema = record {
  properties =
      record {
        name = text "summary";
        shape = text_up_to 500;
        description = text "One-sentence summary of what was changed.";
      }
      ∷ record {
        name = text "files_changed";
        shape = texts_up_to 50;
        description = text "Relative paths of files modified in the PR.";
      }
      ∷ record {
        name = text "tests_run";
        shape = flag;
        description = text "Whether the repo's test suite was executed locally.";
      }
      ∷ record {
        name = text "tests_passing";
        shape = flag;
        description = text "Whether the executed tests passed. Set to false if tests_run is false.";
      }
      ∷ record {
        name = text "risk_level";
        shape = one_of risk_levels;
        description =
            text
              "Risk assessment: low = patch-only, medium = minor version bump or non-breaking refactor, high = major version bump or breaking-change adjacent.";
      }
      ∷ record {
        name = text "needs_human_review";
        shape = flag;
        description =
            text
              "True if the PR has caveats a reviewer must check beyond the standard PR review (e.g. test was skipped, fallback used, compatibility uncertain).";
      }
      ∷ record {
        name = text "blockers";
        shape = texts_up_to 10;
        description =
            text
              "Anything that prevented the task from completing fully. Empty array if task completed.";
      }
      ∷ [];
  required = text "summary" ∷ text "tests_run" ∷ text "risk_level" ∷ text "needs_human_review" ∷ [];
  additional_properties = false;
}

-- What JSON Schema lets through.
unfoldable pub all_strings : Items → Bool
all_strings no_items = true
all_strings (item (string s) vs) = all_strings vs
all_strings (item _ vs) = false

unfoldable pub count_items : Items → ℕ
count_items no_items = 0
count_items (item v vs) = count_items vs + 1

unfoldable pub fits : Shape → Json → Bool
unfolding all_strings count_items
fits (text_up_to n) (string s) = leb (length s) n
fits (one_of names) (string s) = member s names
fits flag (boolean b) = true
fits (texts_up_to n) (array vs) = all_strings vs && leb (count_items vs) n
fits _ _ = false

unfoldable pub shape_of : Text → List Property → Option Shape
shape_of name [] = none
shape_of name (p ∷ ps) = elim (text_eq p.name name) [
  | true ↦ some p.shape
  | false ↦ shape_of name ps
]

unfoldable pub fits_known : Bool → Option Shape → Json → Bool
fits_known additional none v = additional
fits_known additional (some shape) v = fits shape v

unfoldable pub all_fit : Schema → Members → Bool
unfolding fits_known
all_fit schema no_members = true
all_fit schema (entry k v ms) =
    fits_known schema.additional_properties (shape_of k schema.properties) v && all_fit schema ms

unfoldable pub has_all : List Text → Members → Bool
has_all [] ms = true
has_all (name ∷ names) ms = is_some (lookup name ms) && has_all names ms

unfoldable pub conforms : Schema → Json → Bool
unfolding all_fit has_all
conforms schema (object ms) = all_fit schema ms && has_all schema.required ms
conforms schema _ = false
