-- ===== src/Ledger.antt =====
-- artifact/ledger: a project's register of files, as a log of receipts and events. The log is the list of
-- its records: a line that `serde_json` writes is read back as it was. The timeline's text is left out.
pub mod Ops
pub mod Log
pub mod Ids
pub mod Steps
pub mod Report
pub mod Owner
mod Tests
use innen.Common.{
  ℕ, suc, ◌+◌, Bool, true, false, not, ◌||◌, ◌&&◌, Option, none, some, List, [], ◌∷◌, ◌++◌, take,
  length, find?, filter, any, foldl, if◌then◌else◌, is_some_and, unwrap_or, is_empty, contains,
  nat_eq, list_eq, ◌==◌, Outcome, ok, err, panic, reject_if, ◌>>=◌, ◌>>◌,
}
use innen.Common.Text.{Text, codes, is_blank}
use innen.Common.Decimal.{decimal}

pub data LedgerError : Type 0 where
  io title_required wrong_basename bad_magic identity_differs unrelated_files : LedgerError
  owner_required role_required bad_relation foreign_owner bad_supersession : LedgerError
  bad_reclassification reclassification_owner_required reclassification_foreign_owner : LedgerError
  no_event : LedgerError
  downloads unknown_receipt : Text → LedgerError
  hash_mismatch : (expected actual : Text) → LedgerError

pub data LifecycleStage : Type 0 where
  intake authoring verification delivery : LifecycleStage

pub data SourceKind : Type 0 where
  document event dataset other : SourceKind

pub record Receipt : Type 0 where
  pub id : Text
  pub document_id : Option Text
  pub path : Text
  pub sha256 : Text
  pub bytes : ℕ
  pub source_kind : SourceKind
  pub role : Text
  pub stage : LifecycleStage
  pub owner_project : Text
  pub relation : Text
  pub observed_utc : Text
  pub document_date : Option Text
  pub authority : Option Text
  pub evidence_status : Option Text
  pub provenance : Option Text
  pub approval_valid_from : Option Text
  pub approval_valid_until : Option Text

pub record EventRecord : Type 0 where
  pub sequence : ℕ
  pub kind : Text
  pub receipt_id : Text
  pub observed_utc : Text
  pub event_date : Option Text
  pub supersedes : Option Text
  pub new_path : Option Text
  pub expected_sha256 : Option Text
  pub note : Option Text
  pub new_owner_project : Option Text
  pub new_relation : Option Text
  pub provenance : Option Text

pub record FileEvent : Type 0 where
  pub receipt : Option Receipt
  pub event : Option EventRecord

-- `Projection`, as the manifest holds it (its receipts and events are empty) and as the index does.
pub record Projection : Type 0 where
  pub magic : Text
  pub project_id : Text
  pub title : Text
  pub receipts : List Receipt
  pub events : List EventRecord

pub record AddOptions : Type 0 where
  pub path : Text
  pub document_id : Option Text
  pub source_kind : SourceKind
  pub role : Text
  pub stage : LifecycleStage
  pub owner_project : Text
  pub relation : Text
  pub document_date : Option Text
  pub authority : Option Text
  pub evidence_status : Option Text
  pub provenance : Option Text
  pub approval_valid_from : Option Text
  pub approval_valid_until : Option Text
  pub downloads_root : Option Text

pub data LedgerEvent : Type 0 where
  note : (receipt_id text : Text) (event_date : Option Text) → LedgerEvent
  supersede : (receipt_id superseded_id : Text) (event_date : Option Text) → LedgerEvent
  relocate : (receipt_id new_path expected_sha256 : Text) (event_date : Option Text) → LedgerEvent
  reclassify :
      (receipt_id : Text) (new_owner_project : Option Text) (new_relation provenance : Text)
      (event_date : Option Text)
      → LedgerEvent

pub record CheckReport : Type 0 where
  pub active : ℕ
  pub missing : List Text
  pub changed : List Text
  pub superseded : List Text

-- The manifest, the log and the index of one archive; and the folder that holds the downloads.
pub record Ledger : Type 0 where
  pub downloads_root : Text
  pub manifest : Projection
  pub log : List FileEvent
  pub index : Projection

pub data Hashed : Type 0 where
  hashed : (sha : Text) (bytes : ℕ) → Hashed
  not_found unreadable : Hashed

-- Files, paths, SHA-256 and the time. `hash_file` reads the file as it is now.
pub record Host : Type 0 where
  pub absolute : Text → Option Text
  pub base_name : Text → Option Text
  pub default_downloads : Option Text
  pub under : Text → Text → Bool
  pub hash_file : Text → Hashed
  pub sha : Text → Text
  pub now : Text

-- The `if let Some(r)` and `if let Some(e)` of `read_state`.
unfoldable pub receipts_of : List FileEvent → List Receipt
receipts_of [] = []
receipts_of (x ∷ log) =
    let rest = receipts_of log in elim x.receipt [ none ↦ rest | some r ↦ r ∷ rest ]

unfoldable pub events_of : List FileEvent → List EventRecord
events_of [] = []
events_of (x ∷ log) = let rest = events_of log in elim x.event [ none ↦ rest | some e ↦ e ∷ rest ]

unfoldable pub read_state : Ledger → Projection × List Receipt × List EventRecord
unfolding receipts_of events_of
read_state l = (l.manifest, receipts_of l.log, events_of l.log)

-- `project`: the index is written anew.
unfoldable pub project : Ledger → Ledger
unfolding read_state
project l =
    let (p, rs, es) = read_state l in record l { index = record p { receipts = rs; events = es } }

unfoldable pub append_locked : FileEvent → Ledger → Ledger
unfolding project
append_locked x l = project (record l { log = l.log ++ x ∷ [] })

unfoldable pub require : List Receipt → Text → Outcome LedgerError Receipt
require rs id = elim (find? (λ r. r.id == id) rs) [
  | none ↦ err (unknown_receipt id)
  | some r ↦ ok r
]

abbrev pub belongs_to : Text
belongs_to = codes "belongs_to"

abbrev pub is_relation : Text → Bool
is_relation relation = relation == belongs_to || relation == codes "reference"

abbrev pub is_intake : LifecycleStage → Bool
is_intake intake = true
is_intake _ = false

-- `as_deref().unwrap_or("").trim().is_empty()`.
abbrev pub is_missing : Option Text → Bool
is_missing text = is_blank (unwrap_or text [])

-- `absolute(..)?` and `hash_file(..).map_err(io)?`.
abbrev pub or_io : Option Text → Outcome LedgerError Text
or_io none = err io
or_io (some p) = ok p

abbrev pub digest_of : Hashed → Outcome LedgerError (Text × ℕ)
digest_of (hashed sha bytes) = ok (sha, bytes)
digest_of not_found = err io
digest_of unreadable = err io

unfoldable pub archive_key : (Text → Text) → Projection → Text
archive_key sha p = take 16 (sha (p.project_id ++ 0 ∷ p.title))

unfoldable pub receipt_id : Text → Text → ℕ → Text
unfolding decimal
receipt_id key sha n = codes "receipt:" ++ (key ++ (codes ":" ++ (sha ++ (codes ":" ++ decimal n))))
