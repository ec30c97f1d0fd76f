-- ===== src/EvidenceState.antt =====
-- Readiness of reviewed evidence (crates/innen-core/src/evidence_state.rs).
pub mod Verdict
mod Tests
use innen.Common.{
  Bool, true, false, not, ◌||◌, ◌&&◌, Option, none, some, List, [], ◌∷◌, if◌then◌else◌, is_some,
  is_none, is_some_and, is_empty, all, any, contains, nat_eq, list_eq, Outcome, ok, err, ◌>>=◌,
  ◌>>◌, reject_if,
}
use innen.Common.Text.{Text, is_blank}

pub data Readiness : Type 0 where
  needs_more_evidence conflicting_evidence supported_investigation : Readiness

pub record Premise : Type 0 where
  pub id : Text
  pub missing_fact : Option Text
  pub supports : List Text
  pub refutes : List Text

-- The messages that `assess` returns as its error, one constructor for each.
pub data AssessError : Type 0 where
  bad_identity not_admitted opposing_roles unnamed_missing_fact : AssessError
  missing_and_evidenced no_evidence : AssessError

abbrev pub is_subset : List Text → List Text → Bool
is_subset xs ys = all (contains ys) xs

abbrev pub is_disjoint : List Text → List Text → Bool
is_disjoint xs ys = all (λ x. not (contains ys x)) xs

-- The early returns of the loop body, in order.
unfoldable pub check_premise : List Text → List Text → Premise → Outcome AssessError (Unit {0})
check_premise reviewed_sources ids p = do
  reject_if (is_blank p.id || contains ids p.id) bad_identity
  reject_if
      (not (is_subset p.supports reviewed_sources) || not (is_subset p.refutes reviewed_sources))
      not_admitted
  reject_if (not (is_disjoint p.supports p.refutes)) opposing_roles
  reject_if (is_some_and p.missing_fact is_blank) unnamed_missing_fact
  reject_if (is_some p.missing_fact && (not (is_empty p.supports) || not (is_empty p.refutes)))
      missing_and_evidenced
  reject_if (is_none p.missing_fact && is_empty p.supports && is_empty p.refutes) no_evidence

-- The loop over the premises, and the result from its two flags.
unfoldable pub assess_from :
    List Text → List Text → Bool → Bool → List Premise → Outcome AssessError Readiness
unfolding check_premise
assess_from reviewed_sources ids missing refuted [] = ok (
    if refuted
    then conflicting_evidence
    else (if missing then needs_more_evidence else supported_investigation))
assess_from reviewed_sources ids missing refuted (p ∷ premises) =
    check_premise reviewed_sources ids p
    >> assess_from reviewed_sources (p.id ∷ ids) (missing || is_some p.missing_fact)
        (refuted || not (is_empty p.refutes)) premises

unfoldable pub assess : List Premise → List Text → Outcome AssessError Readiness
unfolding assess_from
assess premises reviewed_sources =
    assess_from reviewed_sources [] (is_empty premises) false premises
