-- ===== src/Ledger/Owner.antt =====
-- artifact/ledger/ops.rs: what a receipt may say of its owner.
use innen.Common.{
  ◌≡◌, ap, subst, List, [], ◌∷◌, find?, unwrap_or, nat_eq, list_eq, ◌==◌, ==_iff, ok, >>=-eq-ok,
  ok-injective, All, Bool-cases, inl, inr,
}
use innen.Common.Text.{Text, codes}
use innen.Ledger.{
  Receipt, EventRecord, Ledger, receipts_of, events_of, read_state, require, belongs_to,
}
use innen.Ledger.Ops.{apply_event, apply_events, effective, receipt}
use innen.Ledger.Log.{IsEvent, IsOwned, IsLedger}

module _ (project_id : Text) (rs : List Receipt) where
  apply_event-IsOwned :
      (r : Receipt) (e : EventRecord)
      → IsEvent project_id rs e
      → IsOwned project_id r
      → IsOwned project_id (apply_event r e)
  unfolding apply_event
  apply_event-IsOwned r e is_event own = elim (Bool-cases (e.kind == codes "relocate")) [
    | inl moves ↦ rw (moves, apply_event) own
    | inr stays ↦ elim (Bool-cases (e.kind == codes "reclassify")) [
      | inr other ↦ rw (stays, other, apply_event) own
      | inl sorts ↦
          let (relation, named, owner) =
            is_event.reclassifies ((==_iff e.kind (codes "reclassify")).0 sorts) in
          rw (stays, sorts, named, apply_event)
            (λ same. ap (λ o. unwrap_or o r.owner_project) (owner same))
    ]
  ]

  apply_events-IsOwned :
      (id : Text) (r : Receipt) (es : List EventRecord)
      → All (IsEvent project_id rs) es
      → IsOwned project_id r
      → IsOwned project_id (apply_events id r es)
  unfolding apply_events
  apply_events-IsOwned id r [] h own = own
  apply_events-IsOwned id r (e ∷ es) h own = elim (Bool-cases (e.receipt_id == id)) [
    | inl mine ↦
        rw (mine, apply_events)
          (apply_events-IsOwned id (apply_event r e) es h.1 (apply_event-IsOwned r e h.0 own))
    | inr theirs ↦ rw (theirs, apply_events) (apply_events-IsOwned id r es h.1 own)
  ]

require-IsOwned :
    (project_id : Text) (rs : List Receipt) (id : Text) {r : Receipt}
    → All (IsOwned project_id) rs
    → require rs id ≡ ok r
    → IsOwned project_id r
unfolding require
require-IsOwned project_id [] id owned h = cc
require-IsOwned project_id (x ∷ rs) id {r} owned h = elim (Bool-cases (x.id == id)) [
  | inl here' ↦ subst (IsOwned project_id) (ok-injective (rw (here', require, find?) at h)) owned.0
  | inr other ↦ require-IsOwned project_id rs id owned.1 (rw (other, require, find?) at h)
]

-- Of a ledger that is in order, a receipt with all its events applied belongs to no other project than
-- the archive's.
pub receipt-IsOwned :
    (sha : Text → Text) (l : Ledger) (id : Text) (r : Receipt)
    → IsLedger sha l
    → receipt id l ≡ ok r
    → r.relation ≡ belongs_to
    → r.owner_project ≡ l.manifest.project_id
unfolding receipt effective read_state
receipt-IsOwned sha l id r ordered h belongs =
    let project_id = l.manifest.project_id in
    let rs = receipts_of l.log in
    let es = events_of l.log in
    let (r0, found, last) = >>=-eq-ok (require rs id) _ h in
    let own = require-IsOwned project_id rs id ordered.owned found in
    subst (IsOwned project_id) (ok-injective last)
      (apply_events-IsOwned project_id rs r0.id r0 es ordered.events own) belongs
