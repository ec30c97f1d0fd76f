-- ===== src/EvidenceState/Tests.antt =====
-- evidence_state.rs: runs of `assess` and instances of the theorems.
use innen.Common.{◌≡◌, ◌↔◌, refl, true, none, some, List, [], ◌∷◌, ok, err}
use innen.Common.Text.{Text, codes, is_blank}
use innen.EvidenceState.{
  Readiness, needs_more_evidence, conflicting_evidence, Premise, opposing_roles, assess,
}
use innen.EvidenceState.Verdict.{is_admissible, verdict, assess_iff, assess-refuted}

abbrev sources : List Text
sources = codes "a" ∷ codes "b" ∷ []

abbrev removed : Premise
removed = record {
  id = codes "codes_removed";
  missing_fact = none;
  supports = [];
  refutes = codes "a" ∷ [];
}

abbrev cutoff : Premise
cutoff = record {
  id = codes "cutoff";
  missing_fact = some (codes "missing cutoff");
  supports = [];
  refutes = [];
}

abbrev both_roles : Premise
both_roles = record removed { supports = codes "a" ∷ [] }

assess_conflict : assess (cutoff ∷ removed ∷ []) sources ≡ ok conflicting_evidence
unfolding assess is_blank
assess_conflict = refl

assess_missing : assess (cutoff ∷ []) sources ≡ ok needs_more_evidence
unfolding assess is_blank
assess_missing = refl

assess_nothing : assess [] sources ≡ ok needs_more_evidence
unfolding assess is_blank
assess_nothing = refl

assess_roles : assess (both_roles ∷ []) sources ≡ err opposing_roles
unfolding assess is_blank
assess_roles = refl

assess_iff_example : (assess (cutoff ∷ removed ∷ []) sources ≡ ok conflicting_evidence) ↔ (
    (is_admissible sources (cutoff ∷ removed ∷ []) ≡ true)
    × (verdict (cutoff ∷ removed ∷ []) ≡ conflicting_evidence))
assess_iff_example = assess_iff (cutoff ∷ removed ∷ []) sources conflicting_evidence

assess-refuted_example : ◌≡◌ {A = Readiness} conflicting_evidence conflicting_evidence
assess-refuted_example =
    assess-refuted (cutoff ∷ []) [] removed sources conflicting_evidence refl assess_conflict
