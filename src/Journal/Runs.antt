-- ===== src/Journal/Runs.antt =====
-- journal.rs: runs of one writer, with refused appends, openings and crashes between.
use innen.Common.{
  ◌≡◌, refl, sym, ap, ◌∙◌, true, false, none, some, List, [], ◌∷◌, ◌++◌, ok, err, Outcome, is_empty,
  nat_eq, filter, arith, Bool-cases, inl, inr, ◌⊎◌, contains-append, ok-injective,
}
use mathlib.Core.Bool.{false≢true}
use mathlib.Core.List.{append_assoc}
use innen.Common.Text.{Text, is_blank}
use innen.Common.Json.{Json}
use innen.Graph.Requests.{JournalEntry, lines}
use innen.Journal.{
  Disk, Codec, JournalError, not_utf8, content, new_line, is_bad, is_utf8, is_character,
  open_journal, scan, entry, append, read_lines, read_all, write_line,
}
use innen.Journal.Lines.{IsLine, is_sealed, lines-single, lines-line}
use innen.Journal.Checks.{IsEvent, validate-IsEvent}
use innen.Journal.Reading.{
  IsFaithful, IsStable, IsWhole, IsClean, all-append, read_all-readable, read_lines-clean,
  render-not_bad, append-reads,
}
use innen.Journal.Recovery.{
  with_torn, scanned, open_journal-readable, open_journal-unreadable, open_journal-torn,
  open_journal-IsWhole,
}

-- The files, and the entries whose append returned, in order.
pub record Run : Type 0 where
  pub disk : Disk
  pub acked : List JournalEntry

-- Each write opens the journal first. A crash leaves the beginning of a line that is no object yet; it may
-- break off inside a character. Only events whose entry the JSON library gives back are written.
pub data Step (codec : Codec) (s : Run) (t : Run) : Type 0 where
  appends :
      (op : Text) (payload : Json) (now id : Text) (opened disk : Disk)
      → open_journal codec s.disk ≡ ok opened
      → IsStable codec (entry codec op payload now)
      → append codec op payload now opened ≡ ok (id, disk)
      → t ≡ record { disk = disk; acked = s.acked ++ entry codec op payload now ∷ [] }
      → Step codec s t
  refuses :
      (op : Text) (payload : Json) (now : Text) (e : JournalError) (opened : Disk)
      → open_journal codec s.disk ≡ ok opened
      → append codec op payload now opened ≡ err e
      → t ≡ record s { disk = opened }
      → Step codec s t
  opens :
      (opened : Disk)
      → open_journal codec s.disk ≡ ok opened
      → t ≡ record s { disk = opened }
      → Step codec s t
  fails : (e : JournalError) → open_journal codec s.disk ≡ err e → t ≡ s → Step codec s t
  crashes :
      (torn : Text) (opened : Disk)
      → open_journal codec s.disk ≡ ok opened
      → IsLine torn
      → is_bad codec torn ≡ true
      → t ≡ record s { disk = with_torn opened torn }
      → Step codec s t

pub data Reach (codec : Codec) (s : Run) : Run → Type 0 where
  here : Reach codec s s
  next : {t u : Run} → Reach codec s t → Step codec t u → Reach codec s u

abbrev pub start : Run
start = record { disk = record { journal = none; quarantine = [] }; acked = [] }

-- The files as they are between two writes: a whole journal, without a bad line, that holds the entries.
pub record IsSettled (codec : Codec) (disk : Disk) (acked : List JournalEntry) : Type 0 where
  pub whole : IsWhole disk
  pub tidy : IsClean codec disk
  pub holds : read_lines codec (lines (content disk.journal)) ≡ acked

-- After a write that broke off: the settled files, and a part of a line behind them.
pub record IsTorn (codec : Codec) (s : Run) : Type 0 where
  pub before : Disk
  pub settled : IsSettled codec before s.acked
  pub torn : Text
  pub part : IsLine torn
  pub bad : is_bad codec torn ≡ true
  pub stands : s.disk ≡ with_torn before torn

-- What opening the journal gives: the acknowledged entries; or, where a write broke off inside a
-- character, an error, and then the acknowledged entries stand in front of what it left.
pub data IsDurable (codec : Codec) (s : Run) : Type 0 where
  opened :
      {next : Disk}
      → open_journal codec s.disk ≡ ok next
      → read_all codec next ≡ ok s.acked
      → IsWhole next
      → IsDurable codec s
  unreadable :
      (before torn : Text)
      → open_journal codec s.disk ≡ err not_utf8
      → s.disk.journal ≡ some (before ++ torn)
      → is_utf8 torn ≡ false
      → read_lines codec (lines before) ≡ s.acked
      → IsDurable codec s

module _ (codec : Codec) (f : IsFaithful codec) where
  abbrev Good : Run → Type 0
  Good s = IsSettled codec s.disk s.acked ⊎ IsTorn codec s

  ok≢err :
      {A : Type 0} {a : A} {e : JournalError} → ◌≡◌ {A = Outcome JournalError A} (ok a) (err e) → ⊥
  ok≢err h = cc

  torn-unreadable :
      (disk : Disk) (torn : Text)
      → is_utf8 torn ≡ false
      → open_journal codec (with_torn disk torn) ≡ err not_utf8
  torn-unreadable disk torn cut =
      open_journal-unreadable codec (with_torn disk torn)
        (ground (arith, all-append is_character (content disk.journal) torn))

  -- Opening settled files leaves them settled.
  IsSettled-opens :
      (disk after : Disk) (acked : List JournalEntry)
      → IsSettled codec disk acked
      → open_journal codec disk ≡ ok after
      → IsSettled codec after acked
  IsSettled-opens disk after acked settled h =
      let whole = settled.whole in
      let (reads, tidy, _, _) =
        scanned codec f disk.journal disk.quarantine whole.plain whole.readable in
      let same = ok-injective (sym (open_journal-readable codec disk whole.readable) ∙ h) in
      rw (← same) (record {
        whole = (open_journal-IsWhole codec f disk whole).0;
        tidy = tidy;
        holds = reads ∙ read_lines-clean codec f _ settled.tidy ∙ settled.holds;
      })

  IsTorn-opens :
      (s : Run) (after : Disk)
      → IsTorn codec s
      → open_journal codec s.disk ≡ ok after
      → IsSettled codec after s.acked
  IsTorn-opens s after t h = elim (Bool-cases (is_utf8 t.torn)) [
    | inl valid ↦
        let settled = t.settled in
        let (does, reads, whole, tidy) =
          open_journal-torn codec f t.before t.torn settled.whole settled.tidy t.part t.bad valid in
        let same = ok-injective (sym does ∙ rw t.stands at h) in
        rw (← same) (record { whole = whole; tidy = tidy; holds = reads ∙ settled.holds })
    | inr cut ↦ absurd (ok≢err (sym (rw t.stands at h) ∙ torn-unreadable t.before t.torn cut))
  ]

  Good-opens :
      (s : Run) (after : Disk)
      → Good s
      → open_journal codec s.disk ≡ ok after
      → IsSettled codec after s.acked
  Good-opens s after (inl settled) h = IsSettled-opens s.disk after s.acked settled h
  Good-opens s after (inr torn) h = IsTorn-opens s after torn h

  Step-Good : {s t : Run} → Step codec s t → Good s → Good t
  Step-Good {s} (appends op payload now id after disk o stable h e) good =
      let settled = Good-opens s after good o in
      let (reads, _, kept, clean) =
        append-reads codec f op payload now id after disk stable settled.whole h in
      rw e (
        inl (record {
          whole = kept;
          tidy = clean settled.tidy;
          holds = reads ∙ ap (λ l. l ++ entry codec op payload now ∷ []) settled.holds;
        }))
  Step-Good {s} (refuses op payload now e' after o h e) good =
      rw e (inl (Good-opens s after good o))
  Step-Good {s} (opens after o e) good = rw e (inl (Good-opens s after good o))
  Step-Good (fails e' h e) good = rw e good
  Step-Good {s} (crashes torn after o line bad e) good = rw e (
      inr (record {
        before = after;
        settled = Good-opens s after good o;
        torn = torn;
        part = line;
        bad = bad;
        stands = refl;
      }))

  start-Good : Good start
  unfolding read_lines is_sealed lines
  start-Good = inl (record {
    whole = record { sealed = refl; plain = refl; readable = refl };
    tidy = refl;
    holds = refl;
  })

  Reach-Good : (s : Run) → Reach codec start s → Good s
  Reach-Good s here = start-Good
  Reach-Good s (next {t} r step) = Step-Good step (Reach-Good t r)

  IsSettled-IsDurable :
      (s : Run) (after : Disk)
      → open_journal codec s.disk ≡ ok after
      → IsSettled codec after s.acked
      → IsDurable codec s
  IsSettled-IsDurable s after o settled =
      let whole = settled.whole in
      opened o (read_all-readable codec after whole.readable ∙ ap ok settled.holds) whole

  Good-IsDurable : (s : Run) → Good s → IsDurable codec s
  Good-IsDurable s (inl settled) =
      let after = scan codec s.disk in
      let whole = settled.whole in
      let o = open_journal-readable codec s.disk whole.readable in
      let kept = IsSettled-opens s.disk after s.acked settled o in
      IsSettled-IsDurable s after o kept
  Good-IsDurable s (inr torn) = elim (Bool-cases (is_utf8 torn.torn)) [
    | inl valid ↦
        let settled = torn.settled in
        let (does, _, _, _) =
          open_journal-torn codec f torn.before torn.torn settled.whole settled.tidy torn.part
            torn.bad valid in
        let o = ap (open_journal codec) torn.stands ∙ does in
        IsSettled-IsDurable s _ o (IsTorn-opens s _ torn o)
    | inr cut ↦
        let settled = torn.settled in
        unreadable (content torn.before.journal) torn.torn
          (ap (open_journal codec) torn.stands ∙ torn-unreadable torn.before torn.torn cut)
          (ap (λ (d : Disk). d.journal) torn.stands) cut settled.holds
  ]

-- In every run from no files at all, where each write opens the journal first, and appends, refusals,
-- openings and crashes that break a line off before it is a whole object come in any order, opening the
-- journal gives exactly the acknowledged entries, in the order of their appends, and it is whole again; or a
-- crash broke a line off inside a character, and then opening fails, with the acknowledged entries in front
-- of what it left. The entries are those that the JSON library gives back as they were written.
pub Reach-IsDurable :
    (codec : Codec) → IsFaithful codec → (s : Run) → Reach codec start s → IsDurable codec s
Reach-IsDurable codec f s r = Good-IsDurable codec f s (Reach-Good codec f s r)

pub appended :
    (codec : Codec) (op : Text) (payload : Json) (now : Text) (disk : Disk)
    → IsEvent op payload
    → append codec op payload now disk
      ≡ ok (codec.event_id op payload, write_line (codec.render (entry codec op payload now)) disk)
unfolding append
appended codec op payload now disk event = rw ((validate-IsEvent op payload).0.1 event) refl

-- In every reachable state whose journal opens, any event that passes the check, with an entry that the
-- JSON library gives back as it was written, can be appended, and is then the last entry of the journal.
pub Reach-appends :
    (codec : Codec)
    → IsFaithful codec
    → (s : Run) → Reach codec start s
    → (after : Disk) → open_journal codec s.disk ≡ ok after
    → (op : Text) (payload : Json) (now : Text) → IsEvent op payload
    → IsStable codec (entry codec op payload now)
    → (t : Run) × Step codec s t
      × (read_all codec t.disk ≡ ok (s.acked ++ entry codec op payload now ∷ []))
Reach-appends codec f s r after o op payload now event stable =
    let e : JournalEntry = entry codec op payload now in
    let done = appended codec op payload now after event in
    let settled = Good-opens codec f s after (Reach-Good codec f s r) o in
    let id = codec.event_id op payload in
    let disk = write_line (codec.render e) after in
    let (reads, _, whole, _) =
      append-reads codec f op payload now id after disk stable settled.whole done in
    (
      record { disk = disk; acked = s.acked ++ e ∷ [] },
      appends op payload now id after disk o stable done refl,
      read_all-readable codec disk whole.readable
          ∙ ap ok (reads ∙ ap (λ l. l ++ e ∷ []) settled.holds),
    )

nil_of_empty : (s : Text) → is_empty s ≡ true → s ≡ []
nil_of_empty [] h = refl
nil_of_empty (c ∷ s) h = cc

module _ (codec : Codec) (f : IsFaithful codec) where
  render-nonempty : (e : JournalEntry) → is_empty (codec.render e) ≡ false
  unfolding is_blank
  render-nonempty e = elim (Bool-cases (is_empty (codec.render e))) [
    | inr full ↦ full
    | inl empty ↦
        let blank : is_blank (codec.render e) ≡ true =
          rw (nil_of_empty (codec.render e) empty) refl in
        absurd (false≢true (sym (f.not_blank e) ∙ blank))
  ]

  -- The file that holds one line without its end is clean.
  unended-clean :
      (e : JournalEntry) (q : List Text)
      → IsStable codec e
      → let disk : Disk = record { journal = some (codec.render e); quarantine = q } in
        open_journal codec disk ≡ ok disk
  unfolding scan
  unended-clean e q stable =
      let one : lines (codec.render e) ≡ codec.render e ∷ [] =
        lines-single (codec.render e) (f.one_line e) (render-nonempty e) in
      let clean : is_empty (filter (is_bad codec) (lines (codec.render e))) ≡ true =
        rw (one, render-not_bad codec f e stable) refl in
      let disk : Disk = record { journal = some (codec.render e); quarantine = q } in
      open_journal-readable codec disk (f.valid e) ∙ rw (clean, scan) refl

  glued-IsLine : (d e : JournalEntry) → IsLine (codec.render d ++ codec.render e)
  glued-IsLine d e =
      let (d10, d13) = f.one_line d in
      let (e10, e13) = f.one_line e in
      (
        rw (contains-append (codec.render d) (codec.render e) 10, d10, e10) refl,
        rw (contains-append (codec.render d) (codec.render e) 13, d13, e13) refl,
      )

  unread : (x : Text) → codec.parse_entry x ≡ none → read_lines codec (x ∷ []) ≡ []
  unfolding read_lines
  unread x h = elim (Bool-cases (is_blank x)) [
    | inl blank ↦ rw (blank, read_lines) refl
    | inr worded ↦ rw (worded, h, read_lines) refl
  ]

  glued-unread :
      (d e : JournalEntry) (q : List Text)
      → codec.parse_entry (codec.render d ++ codec.render e) ≡ none
      → read_all codec
          (write_line (codec.render e) (record { journal = some (codec.render d); quarantine = q }))
        ≡ ok []
  unfolding write_line
  glued-unread d e q h =
      let there : lines (codec.render d ++ (codec.render e ++ new_line))
          ≡ (codec.render d ++ codec.render e) ∷ [] =
        ap lines (sym (append_assoc (codec.render d) (codec.render e) new_line))
        ∙ lines-line (codec.render d ++ codec.render e) (glued-IsLine d e) in
      let d_valid = f.valid d in
      let e_valid = f.valid e in
      let valid : is_utf8 (codec.render d ++ (codec.render e ++ new_line)) ≡ true = ground (
        arith,
        all-append is_character (codec.render d) (codec.render e ++ new_line),
        all-append is_character (codec.render e) new_line,
      ) in
      read_all-readable codec
        (write_line (codec.render e) (record { journal = some (codec.render d); quarantine = q }))
        valid
      ∙ ap ok (ap (read_lines codec) there ∙ unread (codec.render d ++ codec.render e) h)

-- A write that broke off just before the end of its line leaves a file that opening takes for clean.
-- The next append is acknowledged, but its line is glued to the one before, so that neither can be
-- read, if the reader takes two objects on a line for no entry. The line before is one that the JSON
-- library gives back as it was written.
pub append-glued :
    (codec : Codec)
    → IsFaithful codec
    → (e : JournalEntry) → IsStable codec e
    → (op : Text) (payload : Json) (now : Text) → IsEvent op payload
    → codec.parse_entry (codec.render e ++ codec.render (entry codec op payload now)) ≡ none
    → let disk : Disk = record { journal = some (codec.render e); quarantine = [] } in
      (open_journal codec disk ≡ ok disk)
      × (d : Disk) × (append codec op payload now disk ≡ ok (codec.event_id op payload, d))
      × (read_all codec d ≡ ok [])
append-glued codec f e stable op payload now event glued =
    let disk : Disk = record { journal = some (codec.render e); quarantine = [] } in
    let new = entry codec op payload now in
    (
      unended-clean codec f e [] stable,
      write_line (codec.render new) disk,
      appended codec op payload now disk event,
      glued-unread codec f e new [] glued,
    )
