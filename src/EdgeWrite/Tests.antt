-- ===== src/EdgeWrite/Tests.antt =====
-- edge_write.rs: an edge between two tasks, and an instance of the theorem.
use innen.Common.{List, ◌≡◌, refl, false, none, [], ◌∷◌, ◌++◌, ok, err}
use innen.Common.Text.{Text, codes}
use innen.Common.Json.{str, obj, end, field}
use innen.Graph
use innen.Graph.Vocabulary.{follows_up}
use innen.Graph.Requests.{JournalEntry, missing_endpoint}
use innen.Journal.{Disk, entry, open_journal, read_all, write_line}
use innen.Journal.Lines.{is_sealed}
use innen.Journal.Reading.{IsWhole}
use innen.Journal.Sample.{sample, sample-IsFaithful, sample-IsStable, render, parse_entry}
use innen.EdgeWrite.{
  EdgeAssert, request, edge_assert, payload_of, check_request, append_edge_assert,
  append_edge_assert-reads,
}

abbrev now : Text
now = codes "2026-01-01T00:00:00Z"

abbrev task_entry : Text → JournalEntry
task_entry id =
    entry sample (codes "node.upsert")
      (obj (field (codes "id") (str id) (field (codes "type") (str (codes "task")) end))) now

abbrev disk : Disk
disk =
    write_line (render (task_entry (codes "t2")))
      (write_line (render (task_entry (codes "t1"))) (record { journal = none; quarantine = [] }))

abbrev follow : EdgeAssert
follow = record {
  from = codes "t1";
  edge = follows_up;
  to = codes "t2";
  weight = none;
  valid_from = none;
  valid_until = none;
  provenance = none;
  allow_dangling = false;
}

abbrev detail : Text → Text
detail line = codes "expected value"

disk-IsWhole : IsWhole disk
unfolding write_line render is_sealed
disk-IsWhole = record { sealed = refl; plain = refl; readable = refl }

follow-accepted : check_request sample detail (λ j. none) now follow disk ≡ ok tt
unfolding append_edge_assert write_line render parse_entry innen.Graph.Adjacency.custom_party
    innen.Graph.Vocabulary.parse_node_type innen.Graph.Adjacency.is_node_row
    innen.Graph.Vocabulary.node_beq innen.Graph.Vocabulary.edge_beq
follow-accepted = refl

-- An unknown target is refused, and nothing is written.
follow-unknown :
    append_edge_assert sample detail (λ j. none) now (record follow { to = codes "t3" }) disk
    ≡ err (request (missing_endpoint (codes "--to") (codes "t3")))
unfolding append_edge_assert write_line render parse_entry
follow-unknown = refl

append_edge_assert-reads_example :
    (opened : Disk) × (next : Disk) × (entries : List JournalEntry) × (open_journal sample disk
      ≡ ok opened)
    × (read_all sample opened ≡ ok entries)
    × (append_edge_assert sample detail (λ j. none) now follow disk
        ≡ ok (sample.event_id edge_assert (obj (payload_of follow)), next))
    × (read_all sample next
        ≡ ok (entries ++ entry sample edge_assert (obj (payload_of follow)) now ∷ []))
    × IsWhole next
append_edge_assert-reads_example =
    append_edge_assert-reads sample detail (λ j. none) sample-IsFaithful now follow disk
      disk-IsWhole (sample-IsStable (entry sample edge_assert (obj (payload_of follow)) now))
      follow-accepted
