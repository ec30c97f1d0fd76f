-- ===== src/Ledger/Steps.antt =====
-- artifact/ledger: every operation keeps the ledger in order.
use innen.Common.{
  ℕ, ◌+◌, ◌≡◌, ◌≢◌, refl, sym, ap, ◌∙◌, subst, Bool, true, false, not, ◌||◌, ◌&&◌, Option, none,
  some, List, [], ◌∷◌, length, find?, is_some_and, is_empty, nat_eq, list_eq, ◌==◌, ==_iff, ok,
  reject_if, reject_if-eq-ok, >>=-eq-ok, ok-injective, Bool-cases, inl, inr, arith,
}
use mathlib.Core.Bool.{false≢true}
use innen.Common.Text.{Text, codes, is_blank}
use innen.Ledger.{
  Receipt, EventRecord, AddOptions, LedgerEvent, note, supersede, relocate, reclassify, Ledger,
  Host, Hashed, hashed, not_found, unreadable, receipts_of, events_of, read_state, append_locked,
  require, belongs_to, is_relation, is_intake, is_missing, or_io, digest_of, archive_key,
  receipt_id,
}
use innen.Ledger.Ops.{
  last_event, check_options, receipt_of, downloads_of, add, check_supersede, check_reclassify,
  make_event, event, init, InitOptions,
}
use innen.Ledger.Ids.{HasDistinctIds, IsLedger-HasDistinctIds}
use innen.Ledger.Log.{knows, IsEvent, IsLedger, add_receipt-IsLedger, add_event-IsLedger}

true_of_not : (b : Bool) → not b ≡ false → b ≡ true
true_of_not b h = ground arith

commuted : (n : ℕ) → n + 1 ≡ 1 + n
commuted n = omega arith

differ : (a b : Text) → (a == b) ≡ false → a ≢ b
differ a b h same = absurd (false≢true (sym h ∙ (==_iff a b).1 same))

require-knows :
    (rs : List Receipt) (id : Text) {r : Receipt} → require rs id ≡ ok r → knows rs id ≡ true
unfolding require
require-knows [] id h = cc
require-knows (x ∷ rs) id h = elim (Bool-cases (x.id == id)) [
  | inl here' ↦ rw here' refl
  | inr other ↦ rw other (require-knows rs id (rw (other, require, find?) at h))
]

owner_of_test :
    (relation owner project_id : Text)
    → (relation == belongs_to && not (owner == project_id)) ≡ false
    → relation ≡ belongs_to
    → owner ≡ project_id
owner_of_test relation owner project_id free same =
    let belongs : (relation == belongs_to) ≡ true = (==_iff relation belongs_to).1 same in
    (==_iff owner project_id).0 (true_of_not _ (rw belongs at free))

module _ (host : Host) (project_id dl : Text) (rs : List Receipt) where
  note-IsEvent :
      (id text : Text) (date : Option Text) {e : EventRecord}
      → make_event host project_id dl rs (note id text date) ≡ ok e
      → IsEvent project_id rs e
  unfolding make_event
  note-IsEvent id text date h =
      let (r, found, last) = >>=-eq-ok (require rs id) _ h in
      rw (← ok-injective last) (record {
        about = require-knows rs id found;
        relocates = λ k. absurd (differ (codes "note") (codes "relocate") refl k);
        reclassifies = λ k. absurd (differ (codes "note") (codes "reclassify") refl k);
        supersedes = λ k. absurd (differ (codes "note") (codes "supersede") refl k);
      })

  supersede-IsEvent :
      (id old : Text) (date : Option Text) {e : EventRecord}
      → make_event host project_id dl rs (supersede id old date) ≡ ok e
      → IsEvent project_id rs e
  unfolding make_event check_supersede
  supersede-IsEvent id old date h =
      let (a, found, h1) = >>=-eq-ok (require rs id) _ h in
      let (b, found_old, h2) = >>=-eq-ok (require rs old) _ h1 in
      let (_, checked, last) = >>=-eq-ok (check_supersede host project_id a b id old) _ h2 in
      let other : (id == old) ≡ false = ground (arith, reject_if-eq-ok _ _ checked) in
      rw (← ok-injective last) (record {
        about = require-knows rs id found;
        relocates = λ k. absurd (differ (codes "supersede") (codes "relocate") refl k);
        reclassifies = λ k. absurd (differ (codes "supersede") (codes "reclassify") refl k);
        supersedes = λ k. (old, refl, require-knows rs old found_old, other);
      })

  relocate-IsEvent :
      (id path expected : Text) (date : Option Text) {e : EventRecord}
      → make_event host project_id dl rs (relocate id path expected date) ≡ ok e
      → IsEvent project_id rs e
  unfolding make_event
  relocate-IsEvent id path expected date h =
      let (r, found, h1) = >>=-eq-ok (require rs id) _ h in
      let (p, _, h2) = >>=-eq-ok (or_io (host.absolute path)) _ h1 in
      let (_, _, h3) = >>=-eq-ok (reject_if (host.under p dl && not (is_intake r.stage)) _) _ h2 in
      let (file, _, h4) = >>=-eq-ok (digest_of (host.hash_file p)) _ h3 in
      let (_, _, last) =
        >>=-eq-ok (reject_if (not (file.0 == expected) || not (file.0 == r.sha256)) _) _ h4 in
      rw (← ok-injective last) (record {
        about = require-knows rs id found;
        relocates = λ k. (p, refl);
        reclassifies = λ k. absurd (differ (codes "relocate") (codes "reclassify") refl k);
        supersedes = λ k. absurd (differ (codes "relocate") (codes "supersede") refl k);
      })

  owner_of :
      (owner : Option Text)
      → is_some_and owner (λ o. o == project_id) ≡ true
      → owner ≡ some project_id
  owner_of none h = cc
  owner_of (some o) h = ap some ((==_iff o project_id).0 h)

  check_reclassify-owner :
      (owner : Option Text) (relation provenance : Text) {u : Unit {0}}
      → check_reclassify host project_id owner relation provenance ≡ ok u
      → relation ≡ belongs_to
      → owner ≡ some project_id
  unfolding check_reclassify
  check_reclassify-owner owner relation provenance h same =
      let (_, _, h1) =
        >>=-eq-ok (reject_if (is_blank provenance || not (is_relation relation)) _) _ h in
      let (_, _, h2) = >>=-eq-ok (reject_if (relation == belongs_to && is_missing owner) _) _ h1 in
      let belongs : (relation == belongs_to) ≡ true = (==_iff relation belongs_to).1 same in
      let refused =
        reject_if-eq-ok (relation == belongs_to && not (is_some_and owner (λ o. o == project_id))) _
          h2 in
      owner_of owner (true_of_not _ (rw belongs at refused))

  reclassify-IsEvent :
      (id : Text) (owner : Option Text) (relation provenance : Text) (date : Option Text)
      {e : EventRecord}
      → make_event host project_id dl rs (reclassify id owner relation provenance date) ≡ ok e
      → IsEvent project_id rs e
  unfolding make_event
  reclassify-IsEvent id owner relation provenance date h =
      let (r, found, h1) = >>=-eq-ok (require rs id) _ h in
      let (_, checked, last) =
        >>=-eq-ok (check_reclassify host project_id owner relation provenance) _ h1 in
      rw (← ok-injective last) (record {
        about = require-knows rs id found;
        relocates = λ k. absurd (differ (codes "reclassify") (codes "relocate") refl k);
        reclassifies =
            λ k. (relation, refl, check_reclassify-owner owner relation provenance checked);
        supersedes = λ k. absurd (differ (codes "reclassify") (codes "supersede") refl k);
      })

  make_event-IsEvent :
      (x : LedgerEvent) {e : EventRecord}
      → make_event host project_id dl rs x ≡ ok e
      → IsEvent project_id rs e
  make_event-IsEvent (note id text date) h = note-IsEvent id text date h
  make_event-IsEvent (supersede id old date) h = supersede-IsEvent id old date h
  make_event-IsEvent (relocate id path expected date) h = relocate-IsEvent id path expected date h
  make_event-IsEvent (reclassify id owner relation provenance date) h =
      reclassify-IsEvent id owner relation provenance date h

-- A SHA-256 in hex has 64 digits; and the text of a hash is the same function for every host.
pub record IsHost (sha : Text → Text) (host : Host) : Type 0 where
  pub same_sha : host.sha ≡ sha
  pub digest_length :
      (path hash : Text) (bytes : ℕ) → host.hash_file path ≡ hashed hash bytes → length hash ≡ 64

digest_of-hashed : (h : Hashed) {file : Text × ℕ} → digest_of h ≡ ok file → h ≡ hashed file.0 file.1
digest_of-hashed (hashed sha bytes) {file} h =
    let same : ◌≡◌ {A = Text × ℕ} (sha, bytes) file = ok-injective h in
    ap (λ (p : Text × ℕ). hashed p.0 p.1) same
digest_of-hashed not_found h = cc
digest_of-hashed unreadable h = cc

module _ (sha : Text → Text) (host : Host) (real : IsHost sha host) (l : Ledger) where
  add-IsLedger :
      (o : AddOptions) {r : Receipt} {next : Ledger}
      → IsLedger sha l
      → add host o l ≡ ok (r, next)
      → IsLedger sha next × (next.manifest ≡ l.manifest)
  unfolding add read_state
  add-IsLedger o h ran =
      let project_id = l.manifest.project_id in
      let (_, _, h1) = >>=-eq-ok (check_options host o) _ ran in
      let (p, _, h2) = >>=-eq-ok (or_io (host.absolute o.path)) _ h1 in
      let (dl, _, h3) = >>=-eq-ok (downloads_of host o.downloads_root l.downloads_root) _ h2 in
      let (_, _, h4) = >>=-eq-ok (reject_if (host.under p dl && not (is_intake o.stage)) _) _ h3 in
      let (_, owned, h5) =
        >>=-eq-ok (reject_if (o.relation == belongs_to && not (o.owner_project == project_id)) _) _
          h4 in
      let (file, found, last) = >>=-eq-ok (digest_of (host.hash_file p)) _ h5 in
      let key = archive_key host.sha l.manifest in
      let id = receipt_id key file.0 (length (receipts_of l.log) + 1) in
      let new' : Receipt = receipt_of host o id p file.0 file.1 in
      let grown : IsLedger sha (append_locked (record { receipt = some new'; event = none }) l) =
        add_receipt-IsLedger sha l new' h
          (ap
              (λ (k : Text → Text).
                receipt_id (archive_key k l.manifest) file.0 (length (receipts_of l.log) + 1))
              real.same_sha
            ∙ ap (receipt_id (archive_key sha l.manifest) file.0)
                (commuted (length (receipts_of l.log))))
          (real.digest_length p file.0 file.1 (digest_of-hashed (host.hash_file p) found))
          (λ same.
            owner_of_test o.relation o.owner_project project_id (reject_if-eq-ok _ _ owned) same) in
      let same = ap (λ (q : Receipt × Ledger). q.1) (ok-injective last) in
      (subst (IsLedger sha) same grown, ap (λ (m : Ledger). m.manifest) (sym same) ∙ refl)

  event-IsLedger :
      (x : LedgerEvent) {e : EventRecord} {next : Ledger}
      → IsLedger sha l
      → event host x l ≡ ok (e, next)
      → IsLedger sha next × (next.manifest ≡ l.manifest)
  unfolding event read_state
  event-IsLedger x h ran =
      let project_id = l.manifest.project_id in
      let rs = receipts_of l.log in
      let (made, built, h1) = >>=-eq-ok (make_event host project_id l.downloads_root rs x) _ ran in
      let e' : EventRecord = record made { sequence = length (events_of l.log) + 1 } in
      let new' : Ledger = append_locked (record { receipt = none; event = some e' }) l in
      let (found, _, last) = >>=-eq-ok (last_event (read_state new').2) _ h1 in
      let ok' = make_event-IsEvent host project_id l.downloads_root rs x built in
      let grown : IsLedger sha new' = add_event-IsLedger sha l e' h (omega arith) (record {
        about = ok'.about;
        relocates = ok'.relocates;
        reclassifies = ok'.reclassifies;
        supersedes = ok'.supersedes;
      }) in
      let same = ap (λ (q : EventRecord × Ledger). q.1) (ok-injective last) in
      (subst (IsLedger sha) same grown, ap (λ (m : Ledger). m.manifest) (sym same) ∙ refl)

-- Operations one after the other, each on a host of its own: files and the time change between them.
pub data Step (sha : Text → Text) (l : Ledger) (next : Ledger) : Type 0 where
  adds :
      (host : Host)
      → IsHost sha host
      → (o : AddOptions) (r : Receipt) → add host o l ≡ ok (r, next)
      → Step sha l next
  records :
      (host : Host)
      → IsHost sha host
      → (x : LedgerEvent) (e : EventRecord) → event host x l ≡ ok (e, next)
      → Step sha l next

pub data Reach (sha : Text → Text) (l : Ledger) : Ledger → Type 0 where
  here : Reach sha l l
  next : {m n : Ledger} → Reach sha l m → Step sha m n → Reach sha l n

Step-IsLedger :
    (sha : Text → Text) {l m : Ledger}
    → Step sha l m
    → IsLedger sha l
    → IsLedger sha m × (m.manifest ≡ l.manifest)
Step-IsLedger sha {l} (adds host real o r ran) h = add-IsLedger sha host real l o h ran
Step-IsLedger sha {l} (records host real x e ran) h = event-IsLedger sha host real l x h ran

init-IsLedger :
    (sha : Text → Text) (host : Host) (o : InitOptions) {l : Ledger}
    → init host o (record { ledger = none; stray = false }) ≡ ok l
    → IsLedger sha l
unfolding init receipts_of events_of
init-IsLedger sha host o h =
    let (_, _, h1) = >>=-eq-ok (reject_if (is_empty o.title || is_empty o.project_id) _) _ h in
    let (root, _, h2) = >>=-eq-ok (or_io (host.absolute o.root)) _ h1 in
    let (_, _, h3) =
      >>=-eq-ok (reject_if (not (is_some_and (host.base_name root) (λ name. name == o.title))) _) _
        h2 in
    let (d, _, h4) = >>=-eq-ok (or_io host.default_downloads) _ h3 in
    let (dl, _, h5) = >>=-eq-ok (downloads_of host o.downloads_root d) _ h4 in
    let (_, _, last) = >>=-eq-ok (reject_if (host.under root dl) _) _ h5 in
    subst (IsLedger sha) (ok-injective last)
      (record { numbered = tt; sequenced = tt; events = tt; owned = tt; indexed = refl })

Reach-IsLedger :
    (sha : Text → Text) (start l : Ledger) → IsLedger sha start → Reach sha start l → IsLedger sha l
Reach-IsLedger sha start l h here = h
Reach-IsLedger sha start l h (next {m} r step) =
    (Step-IsLedger sha step (Reach-IsLedger sha start m h r)).0

-- Every ledger that comes of a new archive by additions and events has receipts numbered in order, each
-- id with its file's hash, and no id twice; its events are numbered in order, and each is about a receipt
-- of the ledger and complete for its kind; belongs_to is only ever said of the archive's own project; and
-- the index is the log.
pub init-Reach-IsLedger :
    (sha : Text → Text) (host : Host) (o : InitOptions) (start l : Ledger)
    → init host o (record { ledger = none; stray = false }) ≡ ok start
    → Reach sha start l
    → IsLedger sha l × HasDistinctIds l
init-Reach-IsLedger sha host o start l made r =
    let h = Reach-IsLedger sha start l (init-IsLedger sha host o made) r in
    (h, IsLedger-HasDistinctIds sha l h)
