-- ===== src/Github.antt =====
-- app/github_client.py: the guard on who pushed to a branch.
pub mod Fetch
pub mod Tails
use cognition_devin_automati.Prelude.{
  Bool, true, false, ◌&&◌, not, Option, none, some, List, [], ◌∷◌, if◌then◌else◌,
}
use cognition_devin_automati.Prelude.Texts.{Text, nonempty, member}
use cognition_devin_automati.World.{Commit}

-- `login and login not in allowed`
unfoldable pub is_foreign : List Text → Option Text → Bool
is_foreign allowed none = false
is_foreign allowed (some login) = nonempty login && not (member login allowed)

unfoldable pub has_non_devin_commits : List Text → List Commit → Bool
has_non_devin_commits allowed [] = false
has_non_devin_commits allowed (c ∷ cs) =
    if is_foreign allowed c.committer_login
    then true
    else if is_foreign allowed c.author_login
    then true
    else has_non_devin_commits allowed cs
