-- ===== src/Contract/Tests.antt =====
-- evidence_closure/contract.rs: a contract that is admitted, and a date that is none.
use innen.Common.{◌≡◌, refl, false, none, [], ◌∷◌}
use innen.Common.Text.{Text, codes}
use innen.Contract.{Contract, timestamp, validate}
use innen.Contract.Bounds.{IsAdmissible, validate-IsAdmissible}

abbrev question : Text
question = codes "why"

abbrev contract : Contract
contract = record {
  version = 1;
  question = question;
  scope_receipt = codes "r";
  scope_nodes = codes "n1" ∷ [];
  as_of = codes "2026-01-01T00:00:00Z";
  min_observed_utc = codes "2024-02-29T23:59:59Z";
  sources = [];
  facts =
      (record { id = codes "f1"; description = none; alternatives = (codes "n1" ∷ []) ∷ [] }) ∷ [];
  budget_tokens = 100;
  max_hops = 2;
  search_limit = 10;
}

no_leap_day : timestamp (codes "2025-02-29T00:00:00Z") ≡ false
unfolding timestamp
no_leap_day = refl

validate-IsAdmissible_example : IsAdmissible contract question
unfolding validate
validate-IsAdmissible_example = validate-IsAdmissible contract question refl
