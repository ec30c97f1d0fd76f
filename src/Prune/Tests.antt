-- ===== src/Prune/Tests.antt =====
-- conversation/prune: a small page, and instances of the theorems on it.
use innen.Common
use innen.Common.{
  ◌⊎◌, ◌^◌, ◌≤◌, ℕ, ◌-◌, ◌≡◌, refl, true, false, Option, none, some, List, [], ◌∷◌, length, Memᴰ,
}
use innen.Common.Text.{Text, codes}
use innen.Common.Maps.{lookup}
use innen.Common.Json.{str, obj, end, field}
use innen.Prune.{
  CallMeta, OutputMeta, PairedTool, ScanResult, read_file, search, superseded, Decision,
  pair_calls_with_outputs, evaluate_prune_rules, is_empty_search_output,
}
use innen.Prune.Apply.{Record, Applied, prune_page}
use innen.Prune.Pairing.{AreDistinct, claimed, IsLinked, pair_calls_with_outputs_lem}
use innen.Prune.Survivors.{IsDue, evaluate_prune_rules-IsDue}
use innen.Prune.Page.{KeepsFrom, total_chars, decisions_of, prune_page-keeps}

abbrev calls : List CallMeta
calls =
    (record {
      record_idx = 0;
      source_line = 1;
      call_id = some (codes "c1");
      action = read_file (codes "a.rs");
    })
    ∷ (record { record_idx = 2; source_line = 3; call_id = none; action = search (codes "x") })
    ∷ []

abbrev outputs : List OutputMeta
outputs =
    (record {
      record_idx = 1;
      source_line = 2;
      call_id = some (codes "c1");
      call_line = none;
      is_error = false;
      content_preview = codes "fn main";
      original_chars = 70;
    })
    ∷ (record {
      record_idx = 3;
      source_line = 4;
      call_id = none;
      call_line = none;
      is_error = true;
      content_preview = codes "[]";
      original_chars = 9;
    })
    ∷ []

abbrev writes : List (Text × List (ℕ × ℕ))
writes = (codes "a.rs", (4, 5) ∷ []) ∷ []

abbrev scan : ScanResult
scan = record { calls = calls; outputs = outputs; file_writes = writes }

abbrev note : ℕ → Record
note n = record { line = n; event = obj (field (codes "output") (str (codes "old")) end) }

abbrev page : List Record
page = note 1 ∷ note 2 ∷ note 3 ∷ note 4 ∷ note 5 ∷ []

-- A search with ten matches is taken for an empty one.
ten_matches : is_empty_search_output (codes "Found 10 matches") ≡ true
unfolding is_empty_search_output
ten_matches = refl

pair_calls_with_outputs_lem_example :
    AreDistinct (claimed (pair_calls_with_outputs calls outputs))
    × ((tool : PairedTool)
        → Memᴰ tool (pair_calls_with_outputs calls outputs)
        → IsLinked calls outputs tool)
pair_calls_with_outputs_lem_example = pair_calls_with_outputs_lem calls outputs

abbrev read_decision : Decision
read_decision = record { reason = superseded (codes "a.rs") 5; chars = 70 }

evaluate_prune_rules-IsDue_example :
    IsDue (pair_calls_with_outputs calls outputs) writes 4 1 read_decision
unfolding evaluate_prune_rules pair_calls_with_outputs lookup innen.Common.Sets.insert
    innen.Common.Maps.put
evaluate_prune_rules-IsDue_example =
    evaluate_prune_rules-IsDue (pair_calls_with_outputs calls outputs) writes 4 1 read_decision refl

prune_page-keeps_example :
    ((last : Applied) × (prune_page true 1 scan page ≡ some last)
      × KeepsFrom (length page - 1) page last.records)
    ⊎ ((prune_page true 1 scan page ≡ none)
        × (true ≡ true)
        × (2 ^ 64 ≤ total_chars (decisions_of 1 scan page)))
prune_page-keeps_example = prune_page-keeps true 1 scan page
