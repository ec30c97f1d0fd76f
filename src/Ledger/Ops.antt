-- ===== src/Ledger/Ops.antt =====
-- artifact/ledger/ops.rs: the operations of a ledger. The lock is held by no one else, and writes succeed.
use innen.Common.{
  ℕ, ◌+◌, Bool, not, ◌||◌, ◌&&◌, Option, none, some, List, [], ◌∷◌, ◌++◌, length, filter, any,
  if◌then◌else◌, is_some_and, unwrap_or, is_empty, nat_eq, list_eq, ◌==◌, Outcome, ok, err,
  reject_if, ◌>>=◌, ◌>>◌,
}
use innen.Common.Text.{Text, codes, is_blank}
use innen.Common.Json.{and_then}
use innen.Ledger.{
  LedgerError, io, title_required, wrong_basename, bad_magic, identity_differs, unrelated_files,
  owner_required, role_required, bad_relation, foreign_owner, bad_supersession,
  bad_reclassification, reclassification_owner_required, reclassification_foreign_owner, no_event,
  downloads, hash_mismatch, Receipt, EventRecord, Projection, AddOptions, LedgerEvent, note,
  supersede, relocate, reclassify, CheckReport, Ledger, hashed, not_found, unreadable, Host,
  read_state, project, append_locked, require, belongs_to, is_relation, is_intake, is_missing,
  or_io, digest_of, archive_key, receipt_id,
}

abbrev pub magic_text : Text
magic_text = codes "innen-project-ledger-v1"

pub record InitOptions : Type 0 where
  pub root : Text
  pub project_id : Text
  pub title : Text
  pub downloads_root : Option Text

-- What the archive's folder holds: a ledger, if there is a manifest, or else perhaps unrelated files.
pub record Archive : Type 0 where
  pub ledger : Option Ledger
  pub stray : Bool

unfoldable pub same_identity : InitOptions → Projection → Outcome LedgerError (Unit {0})
same_identity o p = do
  reject_if (not (p.magic == magic_text)) bad_magic
  reject_if (not (p.project_id == o.project_id) || not (p.title == o.title)) identity_differs

abbrev pub last_event : List EventRecord → Outcome LedgerError EventRecord
last_event [] = err no_event
last_event (e ∷ []) = ok e
last_event (e ∷ f ∷ es) = last_event (f ∷ es)

-- The parts of an event that the kinds share.
abbrev pub blank_event : (kind id now : Text) → Option Text → EventRecord
blank_event kind id now date = record {
  sequence = 0;
  kind = kind;
  receipt_id = id;
  observed_utc = now;
  event_date = date;
  supersedes = none;
  new_path = none;
  expected_sha256 = none;
  note = none;
  new_owner_project = none;
  new_relation = none;
  provenance = none;
}

-- The loop of `effective`, over the events of the receipt.
unfoldable pub apply_event : Receipt → EventRecord → Receipt
apply_event r e =
    if e.kind == codes "relocate"
    then record r { path = unwrap_or e.new_path r.path }
    else if e.kind == codes "reclassify"
    then record r {
      owner_project = unwrap_or e.new_owner_project r.owner_project;
      relation = unwrap_or e.new_relation r.relation;
      provenance = elim e.provenance [ none ↦ r.provenance | some p ↦ some p ];
    }
    else r

unfoldable pub apply_events : Text → Receipt → List EventRecord → Receipt
unfolding apply_event
apply_events id r [] = r
apply_events id r (e ∷ es) = apply_events id (if e.receipt_id == id then apply_event r e else r) es

unfoldable pub effective : Receipt → List EventRecord → Receipt
unfolding apply_events
effective r es = apply_events r.id r es

-- `filter(..).next_back()`, from a value for an empty list.
unfoldable pub last_or {ℓ} : {A : Type ℓ} → Option A → List A → Option A
last_or a [] = a
last_or a (x ∷ xs) = last_or (some x) xs

abbrev pub is_relocation : Text → EventRecord → Bool
is_relocation id e = e.kind == codes "relocate" && e.receipt_id == id

unfoldable pub current : Receipt → List EventRecord → Text
unfolding last_or
current r es =
    unwrap_or (and_then (last_or none (filter (is_relocation r.id) es)) (λ e. e.new_path)) r.path

abbrev pub is_superseding : Text → EventRecord → Bool
is_superseding id e = e.kind == codes "supersede" && is_some_and e.supersedes (λ s. s == id)

unfoldable pub receipt : Text → Ledger → Outcome LedgerError Receipt
unfolding require effective read_state
receipt id l = let (_, rs, es) = read_state l in require rs id >>= λ r. ok (effective r es)

module _ (host : Host) where
  -- The three checks of `add` before any file is read.
  unfoldable pub check_options : AddOptions → Outcome LedgerError (Unit {0})
  unfolding is_blank
  check_options o = do
    reject_if (o.relation == belongs_to && is_blank o.owner_project) owner_required
    reject_if (is_blank o.role || is_missing o.provenance) role_required
    reject_if (not (is_relation o.relation)) bad_relation

  abbrev pub receipt_of : AddOptions → (id path sha : Text) → ℕ → Receipt
  receipt_of o id path sha bytes = record {
    id = id;
    document_id = o.document_id;
    path = path;
    sha256 = sha;
    bytes = bytes;
    source_kind = o.source_kind;
    role = o.role;
    stage = o.stage;
    owner_project = o.owner_project;
    relation = o.relation;
    observed_utc = host.now;
    document_date = o.document_date;
    authority = o.authority;
    evidence_status = o.evidence_status;
    provenance = o.provenance;
    approval_valid_from = o.approval_valid_from;
    approval_valid_until = o.approval_valid_until;
  }

  abbrev pub downloads_of : Option Text → Text → Outcome LedgerError Text
  downloads_of none default = ok default
  downloads_of (some p) default = or_io (host.absolute p)

  unfoldable pub init : InitOptions → Archive → Outcome LedgerError Ledger
  unfolding same_identity project
  init o archive = do
    reject_if (is_empty o.title || is_empty o.project_id) title_required
    root ← or_io (host.absolute o.root)
    reject_if (not (is_some_and (host.base_name root) (λ name. name == o.title))) wrong_basename
    default ← or_io host.default_downloads
    dl ← downloads_of o.downloads_root default
    reject_if (host.under root dl) (downloads root)
    elim archive.ledger [
      | some l ↦ do same_identity o l.manifest; ok (record l { downloads_root = dl })
      | none ↦ do
        reject_if archive.stray unrelated_files
        let p : Projection = record {
          magic = magic_text;
          project_id = o.project_id;
          title = o.title;
          receipts = [];
          events = [];
        }
        ok (project (record { downloads_root = dl; manifest = p; log = []; index = p }))
    ]

  unfoldable pub add : AddOptions → Ledger → Outcome LedgerError (Receipt × Ledger)
  unfolding check_options read_state append_locked archive_key receipt_id
  add o l = do
    check_options o
    p ← or_io (host.absolute o.path)
    dl ← downloads_of o.downloads_root l.downloads_root
    reject_if (host.under p dl && not (is_intake o.stage)) (downloads p)
    let ident = l.manifest
    reject_if (o.relation == belongs_to && not (o.owner_project == ident.project_id)) foreign_owner
    file ← digest_of (host.hash_file p)
    let key = archive_key host.sha ident
    let id = receipt_id key file.0 (length (read_state l).1 + 1)
    let r = receipt_of o id p file.0 file.1
    ok (r, append_locked (record { receipt = some r; event = none }) l)

  -- The arms of `event`.
  unfoldable pub check_supersede :
      Text → (a b : Receipt) (id superseded : Text) → Outcome LedgerError (Unit {0})
  check_supersede project_id a b id superseded =
      reject_if
        (id == superseded
          || not (a.owner_project == b.owner_project)
          || not (a.owner_project == project_id))
        bad_supersession

  unfoldable pub check_reclassify :
      (project_id : Text) (owner : Option Text) (relation provenance : Text)
      → Outcome LedgerError (Unit {0})
  unfolding is_blank
  check_reclassify project_id owner relation provenance = do
    reject_if (is_blank provenance || not (is_relation relation)) bad_reclassification
    reject_if (relation == belongs_to && is_missing owner) reclassification_owner_required
    reject_if (relation == belongs_to && not (is_some_and owner (λ o. o == project_id)))
        reclassification_foreign_owner

  unfoldable pub make_event :
      Text → Text → List Receipt → LedgerEvent → Outcome LedgerError EventRecord
  unfolding require check_supersede check_reclassify
  make_event project_id dl rs (note id text date) = do
    r ← require rs id
    ok (record (blank_event (codes "note") id host.now date) { note = some text })
  make_event project_id dl rs (supersede id superseded date) = do
    a ← require rs id
    b ← require rs superseded
    check_supersede project_id a b id superseded
    ok (record (blank_event (codes "supersede") id host.now date) { supersedes = some superseded })
  make_event project_id dl rs (relocate id new_path expected date) = do
    r ← require rs id
    p ← or_io (host.absolute new_path)
    reject_if (host.under p dl && not (is_intake r.stage)) (downloads p)
    file ← digest_of (host.hash_file p)
    reject_if (not (file.0 == expected) || not (file.0 == r.sha256)) (hash_mismatch expected file.0)
    ok (record (blank_event (codes "relocate") id host.now date) {
      new_path = some p;
      expected_sha256 = some file.0;
    })
  make_event project_id dl rs (reclassify id owner relation provenance date) = do
    r ← require rs id
    check_reclassify project_id owner relation provenance
    ok (record (blank_event (codes "reclassify") id host.now date) {
      new_owner_project = owner;
      new_relation = some relation;
      provenance = some provenance;
    })

  unfoldable pub event : LedgerEvent → Ledger → Outcome LedgerError (EventRecord × Ledger)
  unfolding make_event read_state append_locked
  event x l = do
    made ← make_event l.manifest.project_id l.downloads_root (read_state l).1 x
    let e = record made { sequence = length (read_state l).2 + 1 }
    let next = append_locked (record { receipt = none; event = some e }) l
    last ← last_event (read_state next).2
    ok (last, next)

  -- The `match` on the hash of a receipt's file.
  unfoldable pub check_file : Receipt → Text → CheckReport → Outcome LedgerError CheckReport
  check_file r path out = elim (host.hash_file path) [
    | hashed sha bytes ↦
        ok (if sha == r.sha256 then out else record out { changed = out.changed ++ r.id ∷ [] })
    | not_found ↦ ok (record out { missing = out.missing ++ r.id ∷ [] })
    | unreadable ↦ err io
  ]

  unfoldable pub check_receipts :
      List EventRecord → List Receipt → CheckReport → Outcome LedgerError CheckReport
  unfolding check_file current
  check_receipts es [] out = ok out
  check_receipts es (r ∷ rs) out =
      if any (is_superseding r.id) es
      then check_receipts es rs (record out { superseded = out.superseded ++ r.id ∷ [] })
      else check_file r (current r es) (record out { active = out.active + 1 }) >>= λ out'.
          check_receipts es rs out'

  unfoldable pub check : Ledger → Outcome LedgerError CheckReport
  unfolding check_receipts read_state
  check l =
      let (_, rs, es) = read_state l in
      check_receipts es rs (record { active = 0; missing = []; changed = []; superseded = [] })
