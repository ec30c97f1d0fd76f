-- ===== src/EdgeWrite.antt =====
-- edge_write.rs: the way on which every asserted edge is written. The request is checked against the file
-- as it is, before the journal is opened.
mod Tests
use innen.Common.{
  ◌≡◌, refl, sym, ap, ◌∙◌, Bool, true, false, ◌||◌, ◌&&◌, Option, none, some, List, [], ◌∷◌, ◌++◌,
  all, nat_eq, list_eq, ◌==◌, if◌then◌else◌, Outcome, ok, err, panic, ◌>>=◌, ◌>>◌, map_err,
  contains,
}
use innen.Common.Text.{Text, codes}
use innen.Common.Json.{
  Json, Fields, str, obj, end, field, get_field, insert_field, get_field-insert_other,
}
use innen.Graph.Vocabulary.{EdgeType, edge_name}
use innen.Graph.Requests.{
  JournalEntry, RelateRequestError, FileRead, not_found, failed, lines,
  validate_relate_request_strict,
}
use innen.Journal.{
  Disk, Codec, JournalError, entry, open_journal, append, read_all, validate, is_allowed, is_utf8,
  scan, write_line, read_lines, content,
}
use innen.Journal.Checks.{IsEvent, keys_of, has_string}
use innen.Journal.Reading.{IsFaithful, IsStable, IsWhole, append-reads, read_all-readable}
use innen.Journal.Recovery.{HasOpened, open_journal-IsWhole}
use innen.Journal.Runs.{appended}

pub data EdgeWriteError : Type 0 where
  request : RelateRequestError → EdgeWriteError
  journal : JournalError → EdgeWriteError

-- The weight is the JSON of its `f32`.
pub record EdgeAssert : Type 0 where
  pub from : Text
  pub edge : EdgeType
  pub to : Text
  pub weight : Option Json
  pub valid_from : Option Text
  pub valid_until : Option Text
  pub provenance : Option Text
  pub allow_dangling : Bool

-- `if let Some(v) = … { payload[key] = json!(v) }`.
abbrev pub with_value : Text → Option Json → Fields → Fields
with_value key none fields = fields
with_value key (some v) fields = insert_field key v fields

abbrev pub text_value : Option Text → Option Json
text_value none = none
text_value (some s) = some (str s)

unfoldable pub payload_of : EdgeAssert → Fields
unfolding insert_field
payload_of req = with_value (codes "provenance") (text_value req.provenance) (
    with_value (codes "valid_until") (text_value req.valid_until) (
      with_value (codes "valid_from") (text_value req.valid_from) (
        with_value (codes "weight") req.weight (
          field (codes "from") (str req.from) (
            field (codes "to") (str req.to)
              (field (codes "type") (str (edge_name req.edge)) end))))))

abbrev pub file_of : Option Text → FileRead
file_of none = not_found
file_of (some text) =
    if is_utf8 text
    then FileRead.content text
    else failed (codes "stream did not contain valid UTF-8")

abbrev pub edge_assert : Text
edge_assert = codes "edge.assert"

-- `serde_json` says in `detail` why a line is no entry.
module _ (codec : Codec) (detail : Text → Text) (to_f32 : Json → Option innen.Common.ℕ) where
  abbrev pub read_entry : Text → Outcome Text JournalEntry
  read_entry line = elim (codec.parse_entry line) [ none ↦ err (detail line) | some e ↦ ok e ]

  abbrev pub check_request : Text → EdgeAssert → Disk → Outcome RelateRequestError (Unit {0})
  check_request now req disk =
      validate_relate_request_strict to_f32 now read_entry (file_of disk.journal) req.from req.edge
        req.to req.provenance req.allow_dangling

  unfoldable pub append_edge_assert :
      Text → EdgeAssert → Disk → Outcome EdgeWriteError (Text × Disk)
  unfolding validate_relate_request_strict open_journal append payload_of
  append_edge_assert now req disk = map_err request (check_request now req disk) >>= λ _.
      map_err journal
        (open_journal codec disk >>= append codec edge_assert (obj (payload_of req)) now)

get_field-with_value :
    (k key : Text) (v : Option Json) (fields : Fields)
    → (key == k) ≡ false
    → get_field k (with_value key v fields) ≡ get_field k fields
get_field-with_value k key none fields other = refl
get_field-with_value k key (some v) fields other = get_field-insert_other k key v fields other

-- The optional fields hide none of the three that an edge needs.
payload_of-get_field :
    (req : EdgeAssert) (k : Text)
    → (codes "provenance" == k) ≡ false
    → (codes "valid_until" == k) ≡ false
    → (codes "valid_from" == k) ≡ false
    → (codes "weight" == k) ≡ false
    → get_field k (payload_of req)
      ≡ get_field k (
          field
            (codes "from")
            (str req.from)
            (field (codes "to") (str req.to) (field (codes "type") (str (edge_name req.edge)) end)))
unfolding payload_of
payload_of-get_field req k p u f w =
    get_field-with_value k (codes "provenance") (text_value req.provenance) _ p
    ∙ get_field-with_value k (codes "valid_until") (text_value req.valid_until) _ u
    ∙ get_field-with_value k (codes "valid_from") (text_value req.valid_from) _ f
    ∙ get_field-with_value k (codes "weight") req.weight _ w

payload_of-IsEvent : (req : EdgeAssert) → IsEvent edge_assert (obj (payload_of req))
unfolding is_allowed keys_of
payload_of-IsEvent req = (
  refl,
  (
    payload_of req,
    refl,
    rw
        (
          payload_of-get_field req (codes "from") refl refl refl refl,
          payload_of-get_field req (codes "to") refl refl refl refl,
          payload_of-get_field req (codes "type") refl refl refl refl,
        )
        refl,
  ),
)

-- A request that the check accepts is written, where the journal is text of whole lines without carriage
-- returns, and the JSON library gives the entry of the edge back as it was written: the journal opens with
-- some entries, and afterwards it has these and behind them the one of the edge, under the id that is
-- returned. The journal's own check never stands in the way.
pub append_edge_assert-reads :
    (codec : Codec) (detail : Text → Text) (to_f32 : Json → Option innen.Common.ℕ)
    → IsFaithful codec
    → (now : Text) (req : EdgeAssert) (disk : Disk) → IsWhole disk
    → IsStable codec (entry codec edge_assert (obj (payload_of req)) now)
    → check_request codec detail to_f32 now req disk ≡ ok tt
    → (opened : Disk) × (next : Disk) × (entries : List JournalEntry) × (open_journal codec disk
        ≡ ok opened)
      × (read_all codec opened ≡ ok entries)
      × (append_edge_assert codec detail to_f32 now req disk
          ≡ ok (codec.event_id edge_assert (obj (payload_of req)), next))
      × (read_all codec next
          ≡ ok (entries ++ entry codec edge_assert (obj (payload_of req)) now ∷ []))
      × IsWhole next
unfolding append_edge_assert
append_edge_assert-reads codec detail to_f32 f now req disk whole stable accepted =
    let payload = obj (payload_of req) in
    let opened = scan codec disk in
    let done = appended codec edge_assert payload now opened (payload_of-IsEvent req) in
    let (whole', opening) = open_journal-IsWhole codec f disk whole in
    let (reads, _, kept, _) =
      append-reads codec f edge_assert payload now _ opened _ stable whole' done in
    let next = write_line (codec.render (entry codec edge_assert payload now)) opened in
    (
      opened,
      next,
      read_lines codec (lines (content opened.journal)),
      opening.opens,
      read_all-readable codec opened whole'.readable,
      rw (accepted, opening.opens, append_edge_assert) (ap (map_err journal) done),
      read_all-readable codec next kept.readable ∙ ap ok reads,
      kept,
    )
