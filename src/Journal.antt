-- ===== src/Journal.antt =====
-- journal.rs: the append-only file of events, its check on a write, the quarantine of corrupt lines on
-- open, and the reading of its entries. The JSON reader and writer and the hash of an event are
-- arguments. A file is read only if it is UTF-8; any other failure of the file system is left out.
pub mod Lines
pub mod Checks
pub mod Reading
pub mod Recovery
pub mod Runs
pub mod Sample
mod Tests
use innen.Common.{
  ℕ, Bool, true, false, not, ◌||◌, ◌&&◌, Option, none, some, List, [], ◌∷◌, ◌++◌, if◌then◌else◌,
  is_empty, filter, contains, ltb, all, nat_eq, list_eq, ◌==◌, Outcome, ok, err, panic, reject_if,
  ◌>>=◌, ◌>>◌,
}
use innen.Common.Text.{Text, codes, is_blank}
use innen.Common.Json.{Json, str, obj, Fields, get_field}
use innen.Graph.Replay.{as_object}
use innen.Graph.Requests.{JournalEntry, lines}

pub data JournalError : Type 0 where
  unknown_op : Text → JournalError
  not_an_object : (op : Text) → JournalError
  field_required : (op key : Text) → JournalError
  not_utf8 : JournalError

abbrev pub allowed_ops : List Text
allowed_ops =
    codes "node.upsert" ∷ codes "edge.assert" ∷ codes "edge.retract" ∷ codes "config.set" ∷ []

-- `ALLOWED_OPS.contains`.
unfoldable pub is_allowed : Text → Bool
is_allowed op = contains allowed_ops op

abbrev pub is_string : Option Json → Bool
is_string (some (str s)) = true
is_string _ = false

-- The closure `need`.
unfoldable pub need : Text → Fields → Text → Outcome JournalError (Unit {0})
need op fields key = reject_if (not (is_string (get_field key fields))) (field_required op key)

-- The `match` on the operation, which is one of `ALLOWED_OPS`.
unfoldable pub need_keys : Text → Fields → Outcome JournalError (Unit {0})
unfolding need
need_keys op fields =
    if op == codes "node.upsert"
    then need op fields (codes "id")
    else if op == codes "edge.assert" || op == codes "edge.retract"
    then (do
      need op fields (codes "from")
      need op fields (codes "to")
      need op fields (codes "type"))
    else if op == codes "config.set"
    then need op fields (codes "key")
    else panic

unfoldable pub validate : Text → Json → Outcome JournalError (Unit {0})
unfolding is_allowed need_keys
validate op payload = do
  reject_if (not (is_allowed op)) (unknown_op op)
  elim (as_object payload) [ none ↦ err (not_an_object op) | some fields ↦ need_keys op fields ]

-- What the files hold: the journal, if there is one, and the lines moved to quarantine so far. A file is
-- the list of its characters; a byte `b` that belongs to none stands as 56320 + `b`, which is no character.
pub record Disk : Type 0 where
  pub journal : Option Text
  pub quarantine : List Text

-- `serde_json` and `ids::event_id`. `render` is `to_vec` of a stored line, whose date is the time.
pub record Codec : Type 0 where
  pub parse : Text → Option Json
  pub parse_entry : Text → Option JournalEntry
  pub render : JournalEntry → Text
  pub event_id : Text → Json → Text

abbrev pub new_line : Text
new_line = 10 ∷ []

-- The file that the rebuild writes: each line with its end.
unfoldable pub unlines : List Text → Text
unlines [] = []
unlines (line ∷ rest) = line ++ new_line ++ unlines rest

abbrev pub content : Option Text → Text
content none = []
content (some text) = text

abbrev pub is_character : ℕ → Bool
is_character c = ltb c 56448 || ltb 56575 c

-- The file with one more line, as `O_APPEND` writes it.
unfoldable pub write_line : Text → Disk → Disk
write_line line disk = record disk { journal = some (content disk.journal ++ (line ++ new_line)) }

abbrev pub is_utf8 : Text → Bool
is_utf8 text = all is_character text

-- The object has a string at `id` and at `op`.
abbrev pub is_kept_object : Option Json → Bool
is_kept_object (some (obj fields)) =
    is_string (get_field (codes "id") fields) && is_string (get_field (codes "op") fields)
is_kept_object _ = false

module _ (codec : Codec) where
  unfoldable pub keep_line : Text → Bool
  keep_line line = is_kept_object (codec.parse line)

  abbrev pub is_good : Text → Bool
  is_good line = not (is_empty line) && keep_line line

  abbrev pub is_bad : Text → Bool
  is_bad line = not (is_empty line) && not (keep_line line)

  -- `quarantine_scan` of a file that was read. A clean file is left as it is.
  unfoldable pub scan : Disk → Disk
  unfolding keep_line lines unlines
  scan disk = elim disk.journal [
    | none ↦ disk
    | some text ↦ if is_empty (filter is_bad (lines text)) then disk else record {
      journal = some (unlines (filter is_good (lines text)));
      quarantine = disk.quarantine ++ filter is_bad (lines text);
    }
  ]

  -- `read_to_string` fails where a byte belongs to no character.
  unfoldable pub quarantine_scan : Disk → Outcome JournalError Disk
  unfolding scan
  quarantine_scan disk = if is_utf8 (content disk.journal) then ok (scan disk) else err not_utf8

  -- `Journal::open`, whose lock no one else holds.
  unfoldable pub open_journal : Disk → Outcome JournalError Disk
  unfolding quarantine_scan
  open_journal disk = quarantine_scan disk

  abbrev pub entry : Text → Json → Text → JournalEntry
  entry op payload now = record {
    id = codec.event_id op payload;
    op = op;
    payload = payload;
    observed_utc = now;
  }

  unfoldable pub append : Text → Json → Text → Disk → Outcome JournalError (Text × Disk)
  unfolding validate write_line
  append op payload now disk = validate op payload >>= λ _.
      ok (codec.event_id op payload, write_line (codec.render (entry op payload now)) disk)

  -- The loop of `read_all`.
  unfoldable pub read_lines : List Text → List JournalEntry
  unfolding is_blank
  read_lines [] = []
  read_lines (line ∷ rest) =
      let later = read_lines rest in
      if is_blank line
      then later
      else elim (codec.parse_entry line) [ none ↦ later | some e ↦ e ∷ later ]

  unfoldable pub read_all : Disk → Outcome JournalError (List JournalEntry)
  unfolding read_lines lines
  read_all disk =
      if is_utf8 (content disk.journal)
      then ok (read_lines (lines (content disk.journal)))
      else err not_utf8
