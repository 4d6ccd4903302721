-- ===== src/Findings/Filing/Distinct.antt =====
-- The CVEs of the findings that file_issues.py goes through: each fixable one, once.
use cognition_devin_automati.Findings.{Finding}
use cognition_devin_automati.Findings.Filing.{unique_fixable}
use cognition_devin_automati.Prelude.Texts.{
  Text, member, distinct, text_eq, text_eq_refl, eq_of_text_eq,
}
use cognition_devin_automati.Prelude.{
  List, ◌≡◌, true, ◌∷◌, not, Bool-cases, ◌&&◌, inl, inr, refl, [], arith, false, ap, ℕ, suc,
}
use cognition_devin_automati.Prelude.Lists.{length}

abbrev pub cve_ids : List Finding → List Text
cve_ids [] = []
cve_ids (f ∷ fs) = f.cve_id ∷ cve_ids fs

member_of_seen :
    (k x : Text) (seen : List Text)
    → member x seen ≡ true
    → text_eq k x ≡ true
    → member k seen ≡ true
member_of_seen k x seen h e = rw (eq_of_text_eq k x e) h

not_seen :
    (k x : Text) (seen : List Text)
    → member x seen ≡ false
    → text_eq k x ≡ true
    → member k seen ≡ false
not_seen k x seen h e = rw (eq_of_text_eq k x e) h

-- What is left are the CVEs that were not seen before.
pub cve_ids-unique_fixable :
    (k : Text) (seen : List Text) (fs : List Finding)
    → member k (cve_ids (unique_fixable seen fs)) ≡ (member k (cve_ids fs) && not (member k seen))
unfolding unique_fixable member
cve_ids-unique_fixable k seen [] = refl
cve_ids-unique_fixable k seen (f ∷ fs) = elim (Bool-cases (member f.cve_id seen)) [
  | inl old ↦
      let rest = cve_ids-unique_fixable k seen fs in
      let known = member_of_seen k f.cve_id seen old in rw old (ground (arith, rest, known))
  | inr new ↦
      let rest = cve_ids-unique_fixable k (f.cve_id ∷ seen) fs in
      let unknown = not_seen k f.cve_id seen new in rw new (ground (arith, rest, unknown))
]

pub distinct-unique_fixable :
    (seen : List Text) (fs : List Finding) → distinct (cve_ids (unique_fixable seen fs)) ≡ true
unfolding unique_fixable
distinct-unique_fixable seen [] = refl
distinct-unique_fixable seen (f ∷ fs) = elim (Bool-cases (member f.cve_id seen)) [
  | inl old ↦ rw old (distinct-unique_fixable seen fs)
  | inr new ↦ rw new (
      ground (
        arith,
        cve_ids-unique_fixable f.cve_id (f.cve_id ∷ seen) fs,
        distinct-unique_fixable (f.cve_id ∷ seen) fs,
        first_member f.cve_id seen,
      ))
]
  where
    first_member : (k : Text) (seen : List Text) → member k (k ∷ seen) ≡ true
    first_member k seen = unfold member in rw (text_eq_refl k) refl

pub length-cve_ids : (fs : List Finding) → length (cve_ids fs) ≡ length fs
length-cve_ids [] = refl
length-cve_ids (f ∷ fs) = ap suc (length-cve_ids fs)

pub nothing_seen : (k : Text) (ids : List Text) → (member k ids && not (member k [])) ≡ member k ids
unfolding member
nothing_seen k ids = ground arith

-- The number of different CVEs among some findings: the length of a list without repetitions that
-- holds the same CVEs.
abbrev pub CountsCves : List Finding → ℕ → Type 0
CountsCves findings n =
    (ids : List Text) × (distinct ids ≡ true)
    × ((k : Text) → member k ids ≡ member k (cve_ids findings))
    × (n ≡ length ids)
