-- ===== src/Ledger/Log.antt =====
-- artifact/ledger: what holds of every ledger that came of the operations.
use innen.Common.{
  ℕ, suc, ◌+◌, ◌≡◌, refl, ap, ◌∙◌, Bool, true, false, none, some, List, [], ◌∷◌, ◌++◌, length, any,
  nat_eq, list_eq, ◌==◌, All, Option-cases, inl, inr, arith,
}
use innen.Common.Text.{Text, codes}
use innen.Ledger.{
  Receipt, EventRecord, FileEvent, Ledger, receipts_of, events_of, append_locked, belongs_to,
  archive_key, receipt_id,
}

abbrev pub knows : List Receipt → Text → Bool
knows rs id = any (λ r. r.id == id) rs

-- The receipts have the numbers from `n` on in their ids, with their hashes.
abbrev pub Numbered : Text → ℕ → List Receipt → Type 0
Numbered key n [] = Unit
Numbered key n (r ∷ rs) =
    ((r.id ≡ receipt_id key r.sha256 n) × (length r.sha256 ≡ 64)) × Numbered key (suc n) rs

abbrev pub Sequenced : ℕ → List EventRecord → Type 0
Sequenced n [] = Unit
Sequenced n (e ∷ es) = (e.sequence ≡ n) × Sequenced (suc n) es

-- The event is about a receipt of the ledger. A relocation has a path; a reclassification has a relation,
-- and its owner is the project if the relation is belongs_to; a supersession is of another receipt.
pub record IsEvent (project_id : Text) (rs : List Receipt) (e : EventRecord) : Type 0 where
  pub about : knows rs e.receipt_id ≡ true
  pub relocates : e.kind ≡ codes "relocate" → (p : Text) × (e.new_path ≡ some p)
  pub reclassifies :
      e.kind ≡ codes "reclassify"
      → (relation : Text) × (e.new_relation ≡ some relation)
        × (relation ≡ belongs_to → e.new_owner_project ≡ some project_id)
  pub supersedes :
      e.kind ≡ codes "supersede"
      → (old : Text) × (e.supersedes ≡ some old)
        × (knows rs old ≡ true)
        × ((e.receipt_id == old) ≡ false)

abbrev pub IsOwned : Text → Receipt → Type 0
IsOwned project_id r = r.relation ≡ belongs_to → r.owner_project ≡ project_id

pub record IsLedger (sha : Text → Text) (l : Ledger) : Type 0 where
  pub numbered : Numbered (archive_key sha l.manifest) 1 (receipts_of l.log)
  pub sequenced : Sequenced 1 (events_of l.log)
  pub events : All (IsEvent l.manifest.project_id (receipts_of l.log)) (events_of l.log)
  pub owned : All (IsOwned l.manifest.project_id) (receipts_of l.log)
  pub indexed :
      l.index ≡ record l.manifest { receipts = receipts_of l.log; events = events_of l.log }

module _ {ℓ κ} {A : Type ℓ} (P : A → Type κ) where
  pub All-snoc : (xs : List A) (x : A) → All P xs → P x → All P (xs ++ x ∷ [])
  All-snoc [] x h p = (p, tt)
  All-snoc (y ∷ xs) x h p = (h.0, All-snoc xs x h.1 p)

All-map {ℓ κ μ} :
    {A : Type ℓ} (P : A → Type κ) (Q : A → Type μ) (xs : List A)
    → ((a : A) → P a → Q a)
    → All P xs
    → All Q xs
All-map P Q [] f h = tt
All-map P Q (x ∷ xs) f h = (f x h.0, All-map P Q xs f h.1)

Numbered-snoc :
    (key : Text) (n : ℕ) (rs : List Receipt) (r : Receipt)
    → Numbered key n rs
    → r.id ≡ receipt_id key r.sha256 (n + length rs)
    → length r.sha256 ≡ 64
    → Numbered key n (rs ++ r ∷ [])
Numbered-snoc key n [] r h id long =
    let same : n + 0 ≡ n = omega arith in ((rw (← same) id, long), tt)
Numbered-snoc key n (x ∷ rs) r h id long =
    let same : n + suc (length rs) ≡ suc n + length rs = omega arith in
    (h.0, Numbered-snoc key (suc n) rs r h.1 (rw same at id) long)

Sequenced-snoc :
    (n : ℕ) (es : List EventRecord) (e : EventRecord)
    → Sequenced n es
    → e.sequence ≡ n + length es
    → Sequenced n (es ++ e ∷ [])
Sequenced-snoc n [] e h same = (same ∙ omega arith, tt)
Sequenced-snoc n (x ∷ es) e h same = (h.0, Sequenced-snoc (suc n) es e h.1 (same ∙ omega arith))

knows-snoc :
    (rs : List Receipt) (r : Receipt) (id : Text)
    → knows rs id ≡ true
    → knows (rs ++ r ∷ []) id ≡ true
knows-snoc [] r id h = cc
knows-snoc (x ∷ rs) r id h = ground (arith, knows-snoc rs r id)

IsEvent-snoc :
    (project_id : Text) (rs : List Receipt) (r : Receipt) (e : EventRecord)
    → IsEvent project_id rs e
    → IsEvent project_id (rs ++ r ∷ []) e
IsEvent-snoc project_id rs r e h = record {
  about = knows-snoc rs r e.receipt_id h.about;
  relocates = h.relocates;
  reclassifies = h.reclassifies;
  supersedes = λ k.
      let (old, named, known, other) = h.supersedes k in
      (old, named, knows-snoc rs r old known, other);
}

receipts_of-snoc :
    (log : List FileEvent) (r : Receipt)
    → receipts_of (log ++ record { receipt = some r; event = none } ∷ [])
      ≡ receipts_of log ++ r ∷ []
unfolding receipts_of
receipts_of-snoc [] r = refl
receipts_of-snoc (x ∷ log) r = elim (Option-cases x.receipt) [
  | inl none' ↦ rw (none', receipts_of) (receipts_of-snoc log r)
  | inr (a, some') ↦ rw (some', receipts_of) (ap (λ l. a ∷ l) (receipts_of-snoc log r))
]

events_of-receipt :
    (log : List FileEvent) (r : Receipt)
    → events_of (log ++ record { receipt = some r; event = none } ∷ []) ≡ events_of log
unfolding events_of
events_of-receipt [] r = refl
events_of-receipt (x ∷ log) r = elim (Option-cases x.event) [
  | inl none' ↦ rw (none', events_of) (events_of-receipt log r)
  | inr (a, some') ↦ rw (some', events_of) (ap (λ l. a ∷ l) (events_of-receipt log r))
]

events_of-snoc :
    (log : List FileEvent) (e : EventRecord)
    → events_of (log ++ record { receipt = none; event = some e } ∷ []) ≡ events_of log ++ e ∷ []
unfolding events_of
events_of-snoc [] e = refl
events_of-snoc (x ∷ log) e = elim (Option-cases x.event) [
  | inl none' ↦ rw (none', events_of) (events_of-snoc log e)
  | inr (a, some') ↦ rw (some', events_of) (ap (λ l. a ∷ l) (events_of-snoc log e))
]

receipts_of-event :
    (log : List FileEvent) (e : EventRecord)
    → receipts_of (log ++ record { receipt = none; event = some e } ∷ []) ≡ receipts_of log
unfolding receipts_of
receipts_of-event [] e = refl
receipts_of-event (x ∷ log) e = elim (Option-cases x.receipt) [
  | inl none' ↦ rw (none', receipts_of) (receipts_of-event log e)
  | inr (a, some') ↦ rw (some', receipts_of) (ap (λ l. a ∷ l) (receipts_of-event log e))
]

-- The two ways in which the log grows.
pub add_receipt-IsLedger :
    (sha : Text → Text) (l : Ledger) (r : Receipt)
    → IsLedger sha l
    → r.id ≡ receipt_id (archive_key sha l.manifest) r.sha256 (1 + length (receipts_of l.log))
    → length r.sha256 ≡ 64
    → IsOwned l.manifest.project_id r
    → IsLedger sha (append_locked (record { receipt = some r; event = none }) l)
unfolding append_locked
add_receipt-IsLedger sha l r h id long own = record {
  numbered =
      rw (receipts_of-snoc l.log r)
        (Numbered-snoc (archive_key sha l.manifest) 1 (receipts_of l.log) r h.numbered id long);
  sequenced = rw (events_of-receipt l.log r) h.sequenced;
  events =
      rw (events_of-receipt l.log r, receipts_of-snoc l.log r)
        (All-map (IsEvent l.manifest.project_id (receipts_of l.log))
          (IsEvent l.manifest.project_id (receipts_of l.log ++ r ∷ [])) (events_of l.log)
          (IsEvent-snoc l.manifest.project_id (receipts_of l.log) r) h.events);
  owned =
      rw (receipts_of-snoc l.log r)
        (All-snoc (IsOwned l.manifest.project_id) (receipts_of l.log) r h.owned own);
  indexed = refl;
}

pub add_event-IsLedger :
    (sha : Text → Text) (l : Ledger) (e : EventRecord)
    → IsLedger sha l
    → e.sequence ≡ 1 + length (events_of l.log)
    → IsEvent l.manifest.project_id (receipts_of l.log) e
    → IsLedger sha (append_locked (record { receipt = none; event = some e }) l)
unfolding append_locked
add_event-IsLedger sha l e h same is_event = record {
  numbered = rw (receipts_of-event l.log e) h.numbered;
  sequenced = rw (events_of-snoc l.log e) (Sequenced-snoc 1 (events_of l.log) e h.sequenced same);
  events =
      rw (events_of-snoc l.log e, receipts_of-event l.log e)
        (All-snoc (IsEvent l.manifest.project_id (receipts_of l.log)) (events_of l.log) e h.events
          is_event);
  owned = rw (receipts_of-event l.log e) h.owned;
  indexed = refl;
}
