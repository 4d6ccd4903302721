-- ===== src/Findings/Scan/Shapes.antt =====
-- What every finding of a scan looks like.
use mathlib.Core.Option.{some-injective}
use cognition_devin_automati.Prelude.Texts.{
  Text, is_space, in_range, starts_with, text, nonempty, lstrip,
}
use cognition_devin_automati.Prelude.Lists.{All, length, length-take}
use cognition_devin_automati.Prompts.Fields.Lines.{OneLine, IsInk, not_newline}
use cognition_devin_automati.Prelude.{
  ◌≡◌, ℕ, false, Bool, ◌<◌, true, ◌∷◌, ◌≤◌, Bool-cases, arith, refl, [], is_some, inl, inr, some,
  Option, List, not, none, ◌||◌, ap, subst, map, ◌++◌,
}
use cognition_devin_automati.Findings.{Finding}
use cognition_devin_automati.Findings.Scan.{
  take_while, is_req_version, is_req_name, is_alnum, pinned, match_version, match_requirement,
  requirement_of, add_requirement, parse_requirements, finding_of, Vulnerability, drop_while,
  uncommented, add_finding, findings_of_package, scan,
}

-- The finding's package and version each stand on one line with no white space around them, its
-- summary is short, and it is fixable exactly when it has a fixed version.
pub record IsShaped (f : Finding) : Type 0 where
  pub package_line : OneLine f.package_name
  pub installed_line : OneLine f.installed_version
  pub short : length f.summary ≤ 200
  pub fixable : f.fixable ≡ is_some f.fix_version

AreLines : Text × Text → Type 0
AreLines p = OneLine p.0 × OneLine p.1

NoSpace : Text → Type 0
NoSpace s = All (λ c. is_space c ≡ false) s

NoSpace-IsInk : (c : ℕ) (s : Text) → NoSpace (c ∷ s) → IsInk (c ∷ s)
unfolding NoSpace
NoSpace-IsInk c [] h = h.0
NoSpace-IsInk c (d ∷ s) h = (not_newline c h.0, NoSpace-IsInk d s h.1)

NoSpace-OneLine : (c : ℕ) (s : Text) → NoSpace (c ∷ s) → OneLine (c ∷ s)
unfolding NoSpace
NoSpace-OneLine c s h = record { starts = h.0; ink = NoSpace-IsInk c s h }

take_while-All :
    (p : ℕ → Bool) (Q : ℕ → Type 0)
    → ((c : ℕ) → p c ≡ true → Q c)
    → (s : Text) → All Q (take_while p s)
unfolding take_while
take_while-All p Q h [] = tt
take_while-All p Q h (c ∷ s) = elim (Bool-cases (p c)) [
  | inl fits ↦ rw fits (h c fits, take_while-All p Q h s)
  | inr other ↦ rw other tt
]

high_of_space : (c : ℕ) → 32 < c → c < 128 → is_space c ≡ false
unfolding is_space in_range
high_of_space c h l = ground arith

is_req_name-range : (c : ℕ) → is_req_name c ≡ true → (32 < c) × (c < 128)
unfolding is_req_name is_alnum in_range
is_req_name-range c h = ground arith

is_req_name-space : (c : ℕ) → is_req_name c ≡ true → is_space c ≡ false
is_req_name-space c h = let r = is_req_name-range c h in high_of_space c r.0 r.1

is_req_version-space : (c : ℕ) → is_req_version c ≡ true → is_space c ≡ false
unfolding is_req_version
is_req_version-space c h = ground arith

is_alnum-space : (c : ℕ) → is_alnum c ≡ true → is_space c ≡ false
is_alnum-space c h = is_req_name-space c (unfold is_req_name in rw h refl)

pinned-AreLines :
    (name version : Text)
    → OneLine name
    → NoSpace version
    → (p : Text × Text) → pinned name version ≡ some p
    → AreLines p
unfolding pinned AreLines
pinned-AreLines name [] one h p e = cc
pinned-AreLines name (c ∷ v) one h p e = rw (← some-injective _ _ e) (one, NoSpace-OneLine c v h)

match_version-AreLines :
    (name s : Text) (p : Text × Text) → OneLine name → match_version name s ≡ some p → AreLines p
unfolding match_version NoSpace
match_version-AreLines name s p one e = elim (Bool-cases (starts_with (text "==") (lstrip s))) [
  | inl pin ↦
      pinned-AreLines name _ one (take_while-All is_req_version _ is_req_version-space _) p
        (rw pin at e)
  | inr other ↦ cc (rw other at e)
]

match_requirement-AreLines :
    (s : Text) (p : Text × Text) → match_requirement s ≡ some p → AreLines p
unfolding match_requirement NoSpace
match_requirement-AreLines [] p e = cc
match_requirement-AreLines (c ∷ s) p e = elim (Bool-cases (is_alnum c)) [
  | inl alnum ↦
      match_version-AreLines _ (drop_while is_req_name s) p
        (NoSpace-OneLine c _
          (is_alnum-space c alnum, take_while-All is_req_name _ is_req_name-space s))
        (rw alnum at e)
  | inr other ↦ cc (rw other at e)
]

requirement_of-AreLines :
    (line : Text) (p : Text × Text) → requirement_of line ≡ some p → AreLines p
unfolding requirement_of
requirement_of-AreLines line p e =
    elim (Bool-cases (not (nonempty line) || starts_with (text "-") line)) [
      | inl skip ↦ cc (rw skip at e)
      | inr line_read ↦ match_requirement-AreLines line p (rw line_read at e)
    ]

add_requirement-All :
    (r : Option (Text × Text)) (pkgs : List (Text × Text))
    → ((p : Text × Text) → r ≡ some p → AreLines p)
    → All AreLines pkgs
    → All AreLines (add_requirement r pkgs)
unfolding add_requirement
add_requirement-All none pkgs h k = k
add_requirement-All (some p) pkgs h k = (h p refl, k)

parse_requirements-AreLines : (lines : List Text) → All AreLines (parse_requirements lines)
unfolding parse_requirements
parse_requirements-AreLines [] = tt
parse_requirements-AreLines (raw ∷ lines) =
    add_requirement-All _ _ (requirement_of-AreLines (uncommented raw))
      (parse_requirements-AreLines lines)

finding_of-IsShaped :
    (name version vuln_id : Text) (vuln : Vulnerability)
    → OneLine name
    → OneLine version
    → IsShaped (finding_of name version vuln_id vuln)
unfolding finding_of
finding_of-IsShaped name version vuln_id vuln one two = record {
  package_line = one;
  installed_line = two;
  short = length-take 200 _;
  fixable = refl;
}

-- The package, the version and the id that a finding is about.
abbrev pub subject : Finding → Text × Text × Text
subject f = (f.package_name, f.installed_version, f.vuln_id)

-- Each package with each of its ids, in order.
abbrev pub subjects : List (Text × Text) → List (List Text) → List (Text × Text × Text)
subjects [] results = []
subjects (pkg ∷ pkgs) [] = []
subjects (pkg ∷ pkgs) (ids ∷ results) =
    map (λ vuln_id. (pkg.0, pkg.1, vuln_id)) ids ++ subjects pkgs results

abbrev AreShaped : List (Text × Text × Text) → Option (List Finding) → Type 0
AreShaped about none = Unit
AreShaped about (some fs) = All IsShaped fs × (map subject fs ≡ about)

module _ (osv_details : Text → Option Vulnerability) where
  add_finding-AreShaped :
      (pkg : Text × Text) (vuln_id : Text) (about : List (Text × Text × Text))
      → AreLines pkg
      → (vuln : Option Vulnerability) (rest : Option (List Finding)) → AreShaped about rest
      → AreShaped ((pkg.0, pkg.1, vuln_id) ∷ about) (add_finding osv_details pkg vuln_id vuln rest)
  unfolding add_finding AreLines finding_of
  add_finding-AreShaped pkg vuln_id about h none rest k = tt
  add_finding-AreShaped pkg vuln_id about h (some vuln) none k = tt
  add_finding-AreShaped pkg vuln_id about h (some vuln) (some fs) k = (
    (finding_of-IsShaped pkg.0 pkg.1 vuln_id vuln h.0 h.1, k.0),
    ap (λ (l : List (Text × Text × Text)). (pkg.0, pkg.1, vuln_id) ∷ l) k.1,
  )

  findings_of_package-AreShaped :
      (pkg : Text × Text) (about : List (Text × Text × Text)) (rest : Option (List Finding))
      → AreLines pkg
      → AreShaped about rest
      → (ids : List Text)
      → AreShaped
          (map (λ vuln_id. (pkg.0, pkg.1, vuln_id)) ids ++ about)
          (findings_of_package osv_details pkg ids rest)
  unfolding findings_of_package
  findings_of_package-AreShaped pkg about rest h k [] = k
  findings_of_package-AreShaped pkg about rest h k (vuln_id ∷ ids) =
      add_finding-AreShaped pkg vuln_id _ h (osv_details vuln_id) _
        (findings_of_package-AreShaped pkg about rest h k ids)

  scan-AreShaped :
      (pkgs : List (Text × Text)) (results : List (List Text))
      → All AreLines pkgs
      → AreShaped (subjects pkgs results) (scan osv_details pkgs results)
  unfolding scan
  scan-AreShaped [] [] h = (tt, refl)
  scan-AreShaped [] (ids ∷ results) h = tt
  scan-AreShaped (pkg ∷ pkgs) [] h = tt
  scan-AreShaped (pkg ∷ pkgs) (ids ∷ results) h =
      findings_of_package-AreShaped pkg _ _ h.0 (scan-AreShaped pkgs results h.1) ids

  -- A scan of a requirements file that does not raise gives, in order, one finding for each pinned
  -- package and each id that OSV names for it, under the package's name and version and this id;
  -- and each finding fits what is made of it later: its package and its version are one line with
  -- no white space around it, whatever the file holds, its summary has at most 200 characters, and
  -- it is fixable exactly when it has a fixed version.
  pub scan-IsShaped :
      (lines : List Text) (results : List (List Text)) (fs : List Finding)
      → scan osv_details (parse_requirements lines) results ≡ some fs
      → All IsShaped fs × (map subject fs ≡ subjects (parse_requirements lines) results)
  scan-IsShaped lines results fs e =
      subst (AreShaped (subjects (parse_requirements lines) results)) e
        (scan-AreShaped (parse_requirements lines) results (parse_requirements-AreLines lines))
