-- ===== src/Prune.antt =====
-- conversation/prune: which tool outputs of a transcript page are stale, and how they are cut. The scan
-- of the records is an argument, `ScanResult`.
pub mod Apply
pub mod Page
pub mod Pairing
pub mod Survivors
mod Tests
use innen.Common.{
  ℕ, ◌+◌, Bool, true, false, not, ◌||◌, ◌&&◌, Option, none, some, List, [], ◌∷◌, ◌++◌, reverse, ltb,
  leb, eqb, if◌then◌else◌, is_some, is_empty, length, any, find?, contains, nat_eq, list_eq, ◌==◌,
}
use innen.Common.Text.{
  Text, codes, to_ascii_lowercase, is_whitespace, starts_with, contains_text, text_lt,
}
use innen.Common.Sets.{Set, insert}
use innen.Common.Maps.{put}

-- classify.rs: what a tool call asks for.
pub data ToolAction : Type 0 where
  read_file write_file search status_check : Text → ToolAction

-- `str::trim`.
abbrev pub trim_start : Text → Text
trim_start [] = []
trim_start (c ∷ s) = let rest = trim_start s in if is_whitespace c then rest else c ∷ s

abbrev pub trim : Text → Text
trim s = reverse (trim_start (reverse (trim_start s)))

unfoldable pub is_empty_search_output : Text → Bool
unfolding to_ascii_lowercase
is_empty_search_output text =
    let lower = to_ascii_lowercase (trim text) in
    is_empty lower
    || lower == codes "[]"
    || lower == codes "no results found"
    || starts_with lower (codes "found 0 results")
    || contains_text lower (codes "0 matches")
    || contains_text lower (codes "no matches found")

pub record CallMeta : Type 0 where
  pub record_idx : ℕ
  pub source_line : ℕ
  pub call_id : Option Text
  pub action : ToolAction

pub record OutputMeta : Type 0 where
  pub record_idx : ℕ
  pub source_line : ℕ
  pub call_id : Option Text
  pub call_line : Option ℕ
  pub is_error : Bool
  pub content_preview : Text
  pub original_chars : ℕ

-- The writes of a path are pairs of a record index and a line.
pub record ScanResult : Type 0 where
  pub calls : List CallMeta
  pub outputs : List OutputMeta
  pub file_writes : List (Text × List (ℕ × ℕ))

pub record PairedTool : Type 0 where
  pub call_idx : ℕ
  pub output_idx : ℕ
  pub output_line : ℕ
  pub action : ToolAction
  pub is_error : Bool
  pub content_preview : Text
  pub original_chars : ℕ

-- The recorded call line, or else adjacency.
unfoldable pub matches_line : CallMeta → OutputMeta → Bool
matches_line call out = elim out.call_line [
  | some line ↦ eqb line call.source_line
  | none ↦ ltb call.record_idx out.record_idx && leb out.record_idx (call.record_idx + 2)
]

unfoldable pub matches_call : CallMeta → OutputMeta → Bool
unfolding matches_line
matches_call call out = elim call.call_id [
  | none ↦ matches_line call out
  | some c ↦ elim out.call_id [ none ↦ matches_line call out | some d ↦ c == d ]
]

-- The closure under `find`.
abbrev pub is_free_match : Set → CallMeta → OutputMeta → Bool
is_free_match matched call out = not (contains matched out.record_idx) && matches_call call out

abbrev pub link : CallMeta → OutputMeta → PairedTool
link call out = record {
  call_idx = call.record_idx;
  output_idx = out.record_idx;
  output_line = out.source_line;
  action = call.action;
  is_error = out.is_error;
  content_preview = out.content_preview;
  original_chars = out.original_chars;
}

-- The loop over the calls; `matched` holds the outputs that are taken.
unfoldable pub pair_from : List CallMeta → List OutputMeta → Set → List PairedTool
unfolding matches_call
pair_from [] outputs matched = []
pair_from (call ∷ calls) outputs matched = elim (find? (is_free_match matched call) outputs) [
  | none ↦ pair_from calls outputs matched
  | some out ↦ link call out ∷ pair_from calls outputs (insert out.record_idx matched)
]

unfoldable pub pair_calls_with_outputs : List CallMeta → List OutputMeta → List PairedTool
unfolding pair_from
pair_calls_with_outputs calls outputs = pair_from calls outputs []

-- The reason of a decision, by the rule that gave it.
pub data Reason : Type 0 where
  superseded : (path : Text) (line : ℕ) → Reason
  redundant : (path : Text) (line : ℕ) → Reason
  no_results : (query : Text) → Reason

-- Why a record is pruned, and the characters that it saves.
pub record Decision : Type 0 where
  pub reason : Reason
  pub chars : ℕ

abbrev pub PruneDecisions : Type 0
PruneDecisions = List (ℕ × Decision)

pub record RuleOutcome : Type 0 where
  pub decisions : PruneDecisions
  pub superseded_reads : ℕ
  pub duplicate_reads : ℕ
  pub empty_searches : ℕ

-- `path_reads.entry(path).or_default().push(tool)`, with the paths in order.
unfoldable pub push_read :
    Text → PairedTool → List (Text × List PairedTool) → List (Text × List PairedTool)
push_read path tool [] = (path, tool ∷ []) ∷ []
push_read path tool ((p, reads) ∷ groups) =
    if p == path
    then (p, reads ++ tool ∷ []) ∷ groups
    else if text_lt path p
    then (path, tool ∷ []) ∷ (p, reads) ∷ groups
    else (p, reads) ∷ push_read path tool groups

unfoldable pub group_reads :
    List PairedTool → List (Text × List PairedTool) → List (Text × List PairedTool)
unfolding push_read
group_reads [] groups = groups
group_reads (tool ∷ paired) groups = elim tool.action [
  | read_file path ↦ group_reads paired (push_read path tool groups)
  | _ ↦ group_reads paired groups
]

-- `file_writes.get(&path)`, with no entry read as no writes.
unfoldable pub writes_of : Text → List (Text × List (ℕ × ℕ)) → List (ℕ × ℕ)
writes_of path [] = []
writes_of path ((p, writes) ∷ groups) = if p == path then writes else writes_of path groups

-- Errors and recent records are never pruned.
unfoldable pub is_kept : ℕ → PairedTool → Bool
is_kept keep_threshold tool = tool.is_error || leb keep_threshold tool.output_idx

abbrev pub decide : PairedTool → Reason → PruneDecisions → PruneDecisions
decide tool reason decisions =
    put tool.output_idx (record { reason = reason; chars = tool.original_chars }) decisions

abbrev pub is_later_write : PairedTool → ℕ × ℕ → Bool
is_later_write tool write = ltb tool.output_idx write.0

abbrev pub is_between : PairedTool → PairedTool → ℕ × ℕ → Bool
is_between tool next write = ltb tool.output_idx write.0 && ltb write.0 next.call_idx

-- Rule 2, against the next read of the same path, if there is one.
unfoldable pub check_next :
    Text → List (ℕ × ℕ) → PairedTool → List PairedTool → RuleOutcome → RuleOutcome
check_next path writes tool [] out = out
check_next path writes tool (next ∷ rest) out =
    if any (is_between tool next) writes then out else record out {
      decisions = decide tool (redundant path next.output_line) out.decisions;
      duplicate_reads = out.duplicate_reads + 1;
    }

-- The body of the loop over the reads of a path; `rest` are the reads behind this one.
unfoldable pub check_read :
    ℕ → Text → List (ℕ × ℕ) → PairedTool → List PairedTool → RuleOutcome → RuleOutcome
unfolding is_kept check_next
check_read keep_threshold path writes tool rest out =
    if is_kept keep_threshold tool then out else elim (find? (is_later_write tool) writes) [
      | some write ↦ record out {
        decisions = decide tool (superseded path write.1) out.decisions;
        superseded_reads = out.superseded_reads + 1;
      }
      | none ↦ check_next path writes tool rest out
    ]

unfoldable pub check_reads : ℕ → Text → List (ℕ × ℕ) → List PairedTool → RuleOutcome → RuleOutcome
unfolding check_read
check_reads keep_threshold path writes [] out = out
check_reads keep_threshold path writes (tool ∷ rest) out =
    check_reads keep_threshold path writes rest
      (check_read keep_threshold path writes tool rest out)

unfoldable pub check_paths :
    ℕ → List (Text × List (ℕ × ℕ)) → List (Text × List PairedTool) → RuleOutcome → RuleOutcome
unfolding check_reads writes_of
check_paths keep_threshold file_writes [] out = out
check_paths keep_threshold file_writes ((path, reads) ∷ groups) out =
    check_paths keep_threshold file_writes groups
      (check_reads keep_threshold path (writes_of path file_writes) reads out)

-- Rule 3 on one tool.
unfoldable pub check_search : ℕ → PairedTool → RuleOutcome → RuleOutcome
unfolding is_kept is_empty_search_output
check_search keep_threshold tool out =
    if is_kept keep_threshold tool then out else elim tool.action [
      | search query ↦
          if is_empty_search_output tool.content_preview
          then record out {
            decisions = decide tool (no_results query) out.decisions;
            empty_searches = out.empty_searches + 1;
          }
          else out
      | _ ↦ out
    ]

unfoldable pub check_searches : ℕ → List PairedTool → RuleOutcome → RuleOutcome
unfolding check_search
check_searches keep_threshold [] out = out
check_searches keep_threshold (tool ∷ paired) out =
    check_searches keep_threshold paired (check_search keep_threshold tool out)

abbrev pub no_outcome : RuleOutcome
no_outcome = record {
  decisions = [];
  superseded_reads = 0;
  duplicate_reads = 0;
  empty_searches = 0;
}

unfoldable pub evaluate_prune_rules : List PairedTool → List (Text × List (ℕ × ℕ)) → ℕ → RuleOutcome
unfolding group_reads check_paths check_searches
evaluate_prune_rules paired file_writes keep_threshold =
    check_searches keep_threshold paired
      (check_paths keep_threshold file_writes (group_reads paired []) no_outcome)
