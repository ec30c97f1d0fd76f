-- ===== src/Prune/Apply.antt =====
-- conversation/prune/apply.rs and page.rs: the decisions are written into the records of the page.
use innen.Common.{
  ℕ, zero, suc, ◌+◌, ◌-◌, ◌/◌, ◌%◌, ◌^◌, Bool, true, false, Option, none, some, List, [], ◌∷◌, ◌++◌,
  ltb, if◌then◌else◌, is_some, is_empty, length,
}
use innen.Common.Text.{Text, codes}
use innen.Common.Json.{Json, bool, num, str, obj, Fields, get_field, insert_field}
use innen.Prune.{
  Reason, superseded, redundant, no_results, Decision, PruneDecisions, ScanResult,
  pair_calls_with_outputs, evaluate_prune_rules,
}

-- A number in decimal. The fuel is the number itself.
abbrev decimal_from : ℕ → ℕ → Text → Text
decimal_from zero n digits = digits
decimal_from (suc fuel) n digits =
    let more = decimal_from fuel (n / 10) ((48 + n % 10) ∷ digits) in
    if ltb n 10 then (48 + n) ∷ digits else more

abbrev pub decimal : ℕ → Text
decimal n = decimal_from (suc n) n []

-- The text of a reason.
unfoldable pub reason_text : Reason → Text
reason_text (superseded path line) =
    codes "read of '" ++ path ++ codes "' superseded by write at line " ++ decimal line
reason_text (redundant path line) =
    codes "read of '" ++ path ++ codes "' redundant; re-read at line " ++ decimal line
reason_text (no_results query) = codes "search for '" ++ query ++ codes "' returned 0 matches"

abbrev pub tool_note : Text → Text
tool_note reason = codes "[tool output omitted: " ++ reason ++ codes "]"

abbrev pub preview_note : Text → Text
preview_note reason = codes "[omitted: " ++ reason ++ codes "]"

abbrev pub has : Text → Fields → Bool
has k fields = is_some (get_field k fields)

unfoldable pub omit_preview : Text → ℕ → Fields → Fields
omit_preview reason chars fields =
    if has (codes "preview") fields
    then insert_field (codes "omitted_chars") (num chars) (
        insert_field (codes "chars") (num (length (preview_note reason))) (
          insert_field (codes "preview_truncated") (bool false) (
            insert_field (codes "preview_tail") (str [])
              (insert_field (codes "preview") (str (preview_note reason)) fields))))
    else fields

unfoldable pub omit_field : Text → Text → Fields → Fields
omit_field k reason fields =
    if has k fields then insert_field k (str (tool_note reason)) fields else fields

abbrev pub omit_output : Text → Json → Json
omit_output reason (obj payload) = obj (omit_field (codes "output") reason payload)
omit_output reason payload = payload

-- `obj.get_mut("payload")`, where the value is an object.
unfoldable pub omit_payload : Text → Fields → Fields
unfolding omit_field
omit_payload reason fields = elim (get_field (codes "payload") fields) [
  | none ↦ fields
  | some payload ↦ insert_field (codes "payload") (omit_output reason payload) fields
]

unfoldable pub omit_fields : Text → ℕ → Fields → Fields
unfolding omit_preview omit_field omit_payload
omit_fields reason chars fields = omit_payload reason (
    omit_field (codes "content") reason (
      omit_field (codes "output") reason (
        omit_preview reason chars (
          insert_field (codes "prune_reason") (str reason)
            (insert_field (codes "pruned") (bool true) fields)))))

unfoldable pub prune_event : Decision → Json → Json
unfolding reason_text omit_fields
prune_event d (obj fields) = obj (omit_fields (reason_text d.reason) d.chars fields)
prune_event d event = event

pub record Record : Type 0 where
  pub line : ℕ
  pub event : Json

-- `&mut page.records[idx]`; `none` is the panic of an index out of range.
unfoldable pub prune_at : ℕ → Decision → List Record → Option (List Record)
unfolding prune_event
prune_at i d [] = none
prune_at zero d (r ∷ records) = some (record r { event = prune_event d r.event } ∷ records)
prune_at (suc i) d (r ∷ records) = elim (prune_at i d records) [
  | none ↦ none
  | some rest ↦ some (r ∷ rest)
]

pub record Applied : Type 0 where
  pub records : List Record
  pub pruned_count : ℕ
  pub saved_chars_estimate : ℕ

-- `+=` on a `usize` of 64 bits. The sizes come from the transcript, so that the sum may be too large: then
-- it panics, or wraps around, as the profile of the build says.
unfoldable pub add_usize : Bool → ℕ → ℕ → Option ℕ
add_usize overflow_checks a b =
    if ltb (a + b) (2 ^ 64)
    then some (a + b)
    else if overflow_checks
    then none
    else some ((a + b) % 2 ^ 64)

-- No page has 2 ^ 64 records to count.
unfoldable pub apply_prune_decisions : Bool → PruneDecisions → Applied → Option Applied
unfolding prune_at add_usize
apply_prune_decisions overflow_checks [] page = some page
apply_prune_decisions overflow_checks ((i, d) ∷ decisions) page = elim (prune_at i d page.records) [
  | none ↦ none
  | some records ↦ elim (add_usize overflow_checks page.saved_chars_estimate d.chars) [
    | none ↦ none
    | some saved ↦ apply_prune_decisions overflow_checks decisions (record {
      records = records;
      pruned_count = page.pruned_count + 1;
      saved_chars_estimate = saved;
    })
  ]
]

-- The pruning of a page, less its warnings.
unfoldable pub prune_page : Bool → ℕ → ScanResult → List Record → Option Applied
unfolding pair_calls_with_outputs evaluate_prune_rules apply_prune_decisions
prune_page overflow_checks preserve_recent scan records =
    let start : Applied = record {
      records = records;
      pruned_count = 0;
      saved_chars_estimate = 0;
    } in
    let keep_threshold = length records - preserve_recent in
    if is_empty records
    then some start
    else apply_prune_decisions overflow_checks
        (evaluate_prune_rules (pair_calls_with_outputs scan.calls scan.outputs) scan.file_writes
          keep_threshold).decisions
        start
