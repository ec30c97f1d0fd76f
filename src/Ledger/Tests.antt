-- ===== src/Ledger/Tests.antt =====
-- artifact/ledger: a file that is added and then moved, and instances of the theorems.
use innen.Common
use innen.Common.{
  ℕ, ◌≡◌, refl, true, false, none, some, List, [], ◌∷◌, Outcome, ok, err, panic, length, nat_eq,
  list_eq, ◌==◌, if◌then◌else◌, get_elem?,
}
use innen.Common.Text.{Text, codes}
use innen.Ledger.{
  Host, hashed, not_found, Ledger, Receipt, EventRecord, AddOptions, LedgerEvent, relocate,
  document, intake, receipts_of, events_of, belongs_to, CheckReport, Projection, LedgerError, io,
  receipt_id,
}
use innen.Ledger.Ops.{
  InitOptions, receipt_of, blank_event, init, add, event, receipt, check, effective,
}
use innen.Ledger.Log.{IsLedger}
use innen.Ledger.Steps.{IsHost, Reach, here, next, adds, records, init-Reach-IsLedger}
use innen.Ledger.Ids.{HasDistinctIds}
use innen.Ledger.Report.{Reports, check-Reports}
use innen.Ledger.Owner.{receipt-IsOwned}

abbrev digest : Text
digest = codes "0000000000000000000000000000000000000000000000000000000000000000"

abbrev sha : Text → Text
sha s = digest

-- The file is at /b, and at /a no longer.
abbrev host : Host
host = record {
  absolute = some;
  base_name = some;
  default_downloads = some (codes "/d");
  under = λ p q. false;
  hash_file = λ p. if p == codes "/gone" then not_found else hashed digest 3;
  sha = sha;
  now = codes "2026-01-01T00:00:00Z";
}

digest_length :
    (path hash : Text) (bytes : ℕ) → host.hash_file path ≡ hashed hash bytes → length hash ≡ 64
digest_length path hash bytes h = elim (innen.Common.Bool-cases (path == codes "/gone")) [
  | innen.Common.inl gone ↦ absurd (cc (rw gone at h))
  | innen.Common.inr there ↦ cc (rw there at h)
]

host-IsHost : IsHost sha host
host-IsHost = record { same_sha = refl; digest_length = digest_length }

abbrev options : InitOptions
options = record {
  root = codes "t";
  project_id = codes "p";
  title = codes "t";
  downloads_root = none;
}

abbrev file : AddOptions
file = record {
  path = codes "/a";
  document_id = none;
  source_kind = document;
  role = codes "r";
  stage = intake;
  owner_project = codes "p";
  relation = belongs_to;
  document_date = none;
  authority = none;
  evidence_status = none;
  provenance = some (codes "mail");
  approval_valid_from = none;
  approval_valid_until = none;
  downloads_root = none;
}

abbrev empty : Projection
empty = record { magic = []; project_id = []; title = []; receipts = []; events = [] }

abbrev result : {A : Type 0} → A → Outcome LedgerError A → A
result default (ok a) = a
result default (err e) = default
result default panic = default

abbrev no_ledger : Ledger
no_ledger = record { downloads_root = []; manifest = empty; log = []; index = empty }

abbrev created : Ledger
created = result no_ledger (init host options (record { ledger = none; stray = false }))

init-created : init host options (record { ledger = none; stray = false }) ≡ ok created
unfolding init
init-created = refl

abbrev no_receipt : Receipt
no_receipt = receipt_of host file [] [] [] 0

abbrev added : Receipt × Ledger
added = result (no_receipt, no_ledger) (add host file created)

add-added : add host file created ≡ ok added
unfolding add init
add-added = refl

abbrev move : LedgerEvent
move = relocate added.0.id (codes "/gone") digest none

abbrev no_event : EventRecord
no_event = blank_event [] [] [] none

-- A file that is gone cannot be the target of a relocation.
gone_target : event host move added.1 ≡ err io
unfolding event add init receipt_id
gone_target = refl

abbrev moved : EventRecord × Ledger
moved =
    result (no_event, no_ledger) (event host (relocate added.0.id (codes "/b") digest none) added.1)

event-moved : event host (relocate added.0.id (codes "/b") digest none) added.1 ≡ ok moved
unfolding event add init receipt_id
event-moved = refl

moved-Reach : Reach sha created moved.1
moved-Reach =
    next (next here (adds host host-IsHost file added.0 add-added))
      (records host host-IsHost (relocate added.0.id (codes "/b") digest none) moved.0 event-moved)

init-Reach-IsLedger_example : IsLedger sha moved.1 × HasDistinctIds moved.1
init-Reach-IsLedger_example =
    init-Reach-IsLedger sha host options created moved.1 init-created moved-Reach

abbrev shown : Receipt
shown = result no_receipt (receipt added.0.id moved.1)

receipt-shown : receipt added.0.id moved.1 ≡ ok shown
unfolding receipt event add init receipt_id
receipt-shown = refl

shown-belongs_to : shown.relation ≡ belongs_to
unfolding receipt event add init receipt_id
shown-belongs_to = refl

receipt-IsOwned_example : shown.owner_project ≡ moved.1.manifest.project_id
receipt-IsOwned_example =
    receipt-IsOwned sha moved.1 added.0.id shown init-Reach-IsLedger_example.0 receipt-shown
      shown-belongs_to

abbrev blank_report : CheckReport
blank_report = record { active = 0; missing = []; changed = []; superseded = [] }

abbrev report : CheckReport
report = result blank_report (check host moved.1)

check-report : check host moved.1 ≡ ok report
unfolding check event add init receipt_id
check-report = refl

check-Reports_example :
    Reports host
      (λ r. (effective r (events_of moved.1.log)).path)
      (events_of moved.1.log)
      (receipts_of moved.1.log)
      blank_report
      report
check-Reports_example =
    check-Reports host sha moved.1 report init-Reach-IsLedger_example.0 check-report
