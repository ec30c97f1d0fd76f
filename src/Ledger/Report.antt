-- ===== src/Ledger/Report.antt =====
-- artifact/ledger/ops.rs: what `receipt` and `check` say of a ledger that is in order.
use innen.Common.{
  ◌+◌, ◌≡◌, refl, sym, ap, ◌∙◌, subst, Bool, true, false, not, ◌&&◌, Option, none, some, List, [],
  ◌∷◌, ◌++◌, length, length-append, filter, any, map, if◌then◌else◌, unwrap_or, nat_eq, list_eq,
  ◌==◌, ==_iff, ok, >>=-eq-ok, ok-injective, All, Bool-cases, inl, inr, arith,
}
use mathlib.Core.Path.{fun_ext}
use mathlib.Core.List.{append_assoc, append-nil}
use innen.Common.Text.{Text, codes}
use innen.Common.Json.{and_then}
use innen.Ledger.{
  Receipt, EventRecord, CheckReport, Ledger, Host, hashed, not_found, unreadable, receipts_of,
  events_of, read_state,
}
use innen.Ledger.Ops.{
  apply_event, apply_events, effective, last_or, is_relocation, current, is_superseding, check_file,
  check_receipts, check,
}
use innen.Ledger.Log.{IsEvent, IsLedger}

-- `current`, as a loop from the first event on.
path_after : Text → Text → List EventRecord → Text
path_after id path [] = path
path_after id path (e ∷ es) =
    path_after id (if is_relocation id e then unwrap_or e.new_path path else path) es

apply_event-path :
    (r : Receipt) (e : EventRecord)
    → (apply_event r e).path
      ≡ (if e.kind == codes "relocate" then unwrap_or e.new_path r.path else r.path)
unfolding apply_event
apply_event-path r e = elim (Bool-cases (e.kind == codes "relocate")) [
  | inl moves ↦ rw (moves, apply_event) refl
  | inr stays ↦ elim (Bool-cases (e.kind == codes "reclassify")) [
    | inl sorts ↦ rw (stays, sorts, apply_event) refl
    | inr other ↦ rw (stays, other, apply_event) refl
  ]
]

apply_events-path :
    (id : Text) (r : Receipt) (es : List EventRecord)
    → (apply_events id r es).path ≡ path_after id r.path es
unfolding apply_events path_after
apply_events-path id r [] = refl
apply_events-path id r (e ∷ es) = elim (Bool-cases (e.receipt_id == id)) [
  | inl mine ↦
      let path = apply_event-path r e in
      rw (mine, apply_events)
        (apply_events-path id (apply_event r e) es
          ∙ ap (λ p. path_after id p es) (path ∙ ground arith))
  | inr theirs ↦
      rw (theirs, apply_events)
        (apply_events-path id r es ∙ ap (λ p. path_after id p es) (ground arith))
]

abbrev Moves : Text → EventRecord → Type 0
Moves id e = is_relocation id e ≡ true → (p : Text) × (e.new_path ≡ some p)

last_path : Text → Option EventRecord → Text
last_path path last = unwrap_or (and_then last (λ e. e.new_path)) path

-- Once a relocation is the last so far, the path that came before it does not matter.
last_or-path :
    (id path : Text) (sofar : Option EventRecord) (es : List EventRecord)
    → All (Moves id) es
    → last_path path (last_or sofar (filter (is_relocation id) es))
      ≡ path_after id (last_path path sofar) es
unfolding last_or path_after last_path
last_or-path id path sofar [] h = refl
last_or-path id path sofar (e ∷ es) h = elim (Bool-cases (is_relocation id e)) [
  | inl moves ↦
      let (p, there) = h.0 moves in
      rw (moves, filter, last_or, path_after)
        (last_or-path id path (some e) es h.1
          ∙ ap (λ q. path_after id q es) (rw (there, last_path) refl))
  | inr stays ↦ rw (stays, filter, path_after) (last_or-path id path sofar es h.1)
]

events-Moves :
    (project_id id : Text) (rs : List Receipt) (es : List EventRecord)
    → All (IsEvent project_id rs) es
    → All (Moves id) es
events-Moves project_id id rs [] h = tt
events-Moves project_id id rs (e ∷ es) h = (
  λ moves. h.0.relocates ((==_iff e.kind (codes "relocate")).0 (ground arith)),
  events-Moves project_id id rs es h.1,
)

-- The path that `check` reads is the one that `receipt` shows.
effective-current :
    (project_id : Text) (rs : List Receipt) (r : Receipt) (es : List EventRecord)
    → All (IsEvent project_id rs) es
    → (effective r es).path ≡ current r es
unfolding effective current last_path
effective-current project_id rs r es h =
    apply_events-path r.id r es
    ∙ sym (last_or-path r.id r.path none es (events-Moves project_id r.id rs es h))

module _ (host : Host) where
  abbrev pub is_changed : Receipt → Text → Bool
  is_changed r path = elim (host.hash_file path) [
    | hashed sha bytes ↦ not (sha == r.sha256)
    | not_found ↦ false
    | unreadable ↦ false
  ]

  abbrev pub is_absent : Text → Bool
  is_absent path = elim (host.hash_file path) [
    | hashed sha bytes ↦ false
    | not_found ↦ true
    | unreadable ↦ false
  ]

  abbrev pub is_superseded : List EventRecord → Receipt → Bool
  is_superseded es r = any (is_superseding r.id) es

  abbrev pub ids_where : (Receipt → Bool) → List Receipt → List Text
  ids_where p rs = map (λ r. r.id) (filter p rs)

  one_if : Bool → Text → List Text
  one_if b id = if b then id ∷ [] else []

  ids_where-cons :
      (p : Receipt → Bool) (r : Receipt) (rs : List Receipt)
      → ids_where p (r ∷ rs) ≡ one_if (p r) r.id ++ ids_where p rs
  unfolding one_if
  ids_where-cons p r rs = elim (Bool-cases (p r)) [
    | inl yes' ↦ rw (yes', filter) refl
    | inr no' ↦ rw (no', filter) refl
  ]

  check_file_lem :
      (r : Receipt) (path : Text) (out : CheckReport) {out' : CheckReport}
      → check_file host r path out ≡ ok out'
      → (out'.changed ≡ out.changed ++ one_if (is_changed r path) r.id)
        × (out'.missing ≡ out.missing ++ one_if (is_absent path) r.id)
        × (out'.active ≡ out.active)
        × (out'.superseded ≡ out.superseded)
  unfolding check_file one_if
  check_file_lem r path out h = ground (arith, append-nil out.changed, append-nil out.missing)

  -- The four parts of a report, over a starting one.
  abbrev pub Reports :
      (Receipt → Text) → List EventRecord → List Receipt → CheckReport → CheckReport → Type 0
  Reports path es rs out out' =
      (out'.superseded ≡ out.superseded ++ ids_where (is_superseded es) rs)
      × (out'.changed
          ≡ out.changed ++ ids_where (λ r. not (is_superseded es r) && is_changed r (path r)) rs)
      × (out'.missing
          ≡ out.missing ++ ids_where (λ r. not (is_superseded es r) && is_absent (path r)) rs)
      × (out'.active ≡ out.active + length (ids_where (λ r. not (is_superseded es r)) rs))

  grow :
      (p : Receipt → Bool) (r : Receipt) (rs : List Receipt) (b : Bool) (base mid final : List Text)
      → p r ≡ b
      → mid ≡ base ++ one_if b r.id
      → final ≡ mid ++ ids_where p rs
      → final ≡ base ++ ids_where p (r ∷ rs)
  grow p r rs b base mid final same e h =
      h
      ∙ ap (λ l. l ++ ids_where p rs) (e ∙ ap (λ (x : Bool). base ++ one_if x r.id) (sym same))
      ∙ append_assoc base (one_if (p r) r.id) (ids_where p rs)
      ∙ ap (λ l. base ++ l) (sym (ids_where-cons p r rs))

  count :
      (p : Receipt → Bool) (r : Receipt) (rs : List Receipt) (b : Bool)
      → p r ≡ b
      → length (ids_where p (r ∷ rs)) ≡ length (one_if b r.id) + length (ids_where p rs)
  count p r rs b same =
      ap length (ids_where-cons p r rs)
      ∙ length-append (one_if (p r) r.id) (ids_where p rs)
      ∙ ap (λ (x : Bool). length (one_if x r.id) + length (ids_where p rs)) same

  check_receipts-Reports :
      (es : List EventRecord) (rs : List Receipt) (out : CheckReport) {out' : CheckReport}
      → check_receipts host es rs out ≡ ok out'
      → Reports (λ r. current r es) es rs out out'
  unfolding check_receipts one_if
  check_receipts-Reports es [] out h = rw (← ok-injective h) (
    sym (append-nil out.superseded),
    sym (append-nil out.changed),
    sym (append-nil out.missing),
    omega arith,
  )
  check_receipts-Reports es (r ∷ rs) out {out'} h =
      let old = is_superseded es in
      let changed = λ (x : Receipt). not (old x) && is_changed x (current x es) in
      let missing = λ (x : Receipt). not (old x) && is_absent (current x es) in
      let live = λ (x : Receipt). not (old x) in
      let path = current r es in
      elim (Bool-cases (is_superseded es r)) [
        | inl gone ↦
            let (s, c, m, a) =
              check_receipts-Reports es rs (record out { superseded = out.superseded ++ r.id ∷ [] })
                (rw (gone, check_receipts) at h) in
            (
              grow old r rs true out.superseded (out.superseded ++ r.id ∷ []) out'.superseded gone
                  refl s,
              grow changed r rs false out.changed out.changed out'.changed (rw gone refl)
                  (sym (append-nil out.changed)) c,
              grow missing r rs false out.missing out.missing out'.missing (rw gone refl)
                  (sym (append-nil out.missing)) m,
              omega (arith, a, count live r rs false (rw gone refl)),
            )
        | inr here' ↦
            let (mid, checked, rest) =
              >>=-eq-ok (check_file host r path (record out { active = out.active + 1 })) _
                (rw (here', check_receipts) at h) in
            let (c0, m0, a0, s0) =
              check_file_lem r path (record out { active = out.active + 1 }) checked in
            let (s, c, m, a) = check_receipts-Reports es rs mid rest in
            (
              grow old r rs false out.superseded mid.superseded out'.superseded here'
                  (s0 ∙ sym (append-nil out.superseded)) s,
              grow changed r rs (is_changed r path) out.changed mid.changed out'.changed
                  (rw here' refl) c0 c,
              grow missing r rs (is_absent path) out.missing mid.missing out'.missing
                  (rw here' refl) m0 m,
              omega (arith, a, a0, count live r rs true (rw here' refl)),
            )
      ]

  -- A report of a ledger that is in order: the superseded receipts, in order; of the others, those whose
  -- file at their present path has another hash, and those whose file is gone; and how many others there
  -- are.
  pub check-Reports :
      (sha : Text → Text) (l : Ledger) (out : CheckReport)
      → IsLedger sha l
      → check host l ≡ ok out
      → Reports
          (λ r. (effective r (events_of l.log)).path)
          (events_of l.log)
          (receipts_of l.log)
          (record { active = 0; missing = []; changed = []; superseded = [] })
          out
  unfolding check read_state
  check-Reports sha l out ordered h =
      let es = events_of l.log in
      let same : (λ (r : Receipt). current r es) ≡ (λ (r : Receipt). (effective r es).path) =
        fun_ext (λ r.
          sym (effective-current l.manifest.project_id (receipts_of l.log) r es ordered.events)) in
      subst
        (λ (path : Receipt → Text).
          Reports path es (receipts_of l.log)
            (record { active = 0; missing = []; changed = []; superseded = [] }) out)
        same (check_receipts-Reports es (receipts_of l.log) _ h)
