-- ===== src/Journal/Recovery.antt =====
-- journal.rs: what opening takes away.
use innen.Common.{
  ◌≡◌, refl, sym, ap, ◌∙◌, Bool, true, false, Option, none, some, List, [], ◌∷◌, ◌++◌, arith, all,
  is_empty, filter, contains, contains-append, nat_eq, Bool-cases, inl, inr, ◌⊎◌, ok, err,
}
use mathlib.Core.List.{append-nil}
use innen.Common.Text.{Text}
use innen.Graph.Requests.{lines}
use innen.Journal.{
  Disk, Codec, not_utf8, content, unlines, is_good, is_bad, is_utf8, is_character, scan,
  open_journal, read_lines, read_all,
}
use innen.Journal.Lines.{
  IsLine, is_sealed, lines-append, lines-nil, lines-single, lines-unlines, lines-IsLine,
  is_sealed-unlines, lines-is_utf8,
}
use innen.Journal.Reading.{
  IsFaithful, IsWhole, IsClean, passed, skipped, all-append, read_all-readable, read_lines-clean,
  filter-IsLine, filter-append, filter-good-bad, unlines-plain, unlines-readable,
}

-- What opening makes of a journal that can be read: `next` has the entries of the lines that are kept, no
-- bad line is left, and the bad lines stand at the end of the quarantine.
pub record HasOpened (codec : Codec) (disk next : Disk) : Type 0 where
  pub opens : open_journal codec disk ≡ ok next
  pub reads :
      read_all codec next
      ≡ ok (read_lines codec (filter (is_good codec) (lines (content disk.journal))))
  pub clean : IsClean codec next
  pub moved :
      next.quarantine ≡ disk.quarantine ++ filter (is_bad codec) (lines (content disk.journal))

abbrev HasScanned : Codec → Disk → Type 0
HasScanned codec disk =
    (read_lines codec (lines (content (scan codec disk).journal))
      ≡ read_lines codec (filter (is_good codec) (lines (content disk.journal))))
    × IsClean codec (scan codec disk)
    × ((scan codec disk).quarantine
        ≡ disk.quarantine ++ filter (is_bad codec) (lines (content disk.journal)))
    × (is_utf8 (content (scan codec disk).journal) ≡ true)

filter-all : (p q : Text → Bool) (xs : List Text) → all p xs ≡ true → all p (filter q xs) ≡ true
filter-all p q [] h = refl
filter-all p q (x ∷ xs) h = elim (Bool-cases (q x)) [
  | inl yes' ↦ rw (yes', filter) (ground (arith, filter-all p q xs))
  | inr no' ↦ rw (no', filter) (filter-all p q xs (ground arith))
]

pub open_journal-readable :
    (codec : Codec) (disk : Disk)
    → is_utf8 (content disk.journal) ≡ true
    → open_journal codec disk ≡ ok (scan codec disk)
unfolding open_journal
open_journal-readable codec disk readable = passed (is_utf8 (content disk.journal)) _ _ readable

-- The journal with a part of a line at its end.
abbrev pub with_torn : Disk → Text → Disk
with_torn disk torn = record disk { journal = some (content disk.journal ++ torn) }

pub open_journal-unreadable :
    (codec : Codec) (disk : Disk)
    → is_utf8 (content disk.journal) ≡ false
    → open_journal codec disk ≡ err not_utf8
unfolding open_journal
open_journal-unreadable codec disk broken = skipped (is_utf8 (content disk.journal)) _ _ broken

module _ (codec : Codec) (f : IsFaithful codec) where
  is_empty-nil : (ls : List Text) → is_empty ls ≡ true → ls ≡ []
  is_empty-nil [] h = refl
  is_empty-nil (l ∷ ls) h = cc

  rebuilt :
      (text : Text)
      → contains text 13 ≡ false
      → lines (unlines (filter (is_good codec) (lines text))) ≡ filter (is_good codec) (lines text)
  rebuilt text plain =
      lines-unlines (filter (is_good codec) (lines text))
        (filter-IsLine codec f (is_good codec) (lines text) (lines-IsLine text plain))

  pub scanned :
      (journal : Option Text) (q : List Text)
      → contains (content journal) 13 ≡ false
      → is_utf8 (content journal) ≡ true
      → HasScanned codec (record { journal = journal; quarantine = q })
  unfolding scan
  scanned none q plain valid =
      (rw lines-nil refl, rw lines-nil refl, rw lines-nil (sym (append-nil q)), refl)
  scanned (some text) q plain valid =
      elim (Bool-cases (is_empty (filter (is_bad codec) (lines text)))) [
        | inl clean ↦
            let none_bad = is_empty-nil (filter (is_bad codec) (lines text)) clean in
            rw (clean, scan)
              (
                sym (read_lines-clean codec f (lines text) none_bad),
                none_bad,
                rw none_bad (sym (append-nil q)),
                valid,
              )
        | inr dirty ↦
            rw (dirty, scan)
              (
                ap (read_lines codec) (rebuilt text plain),
                ap (filter (is_bad codec)) (rebuilt text plain)
                    ∙ filter-good-bad codec f (lines text),
                refl,
                unlines-readable codec f (filter (is_good codec) (lines text))
                    (filter-all is_utf8 (is_good codec) (lines text) (lines-is_utf8 text valid)),
              )
      ]

  open_journal-opened :
      (disk : Disk)
      → contains (content disk.journal) 13 ≡ false
      → is_utf8 (content disk.journal) ≡ true
      → HasOpened codec disk (scan codec disk)
  open_journal-opened disk plain valid =
      let (reads, clean, moved, readable) = scanned disk.journal disk.quarantine plain valid in
      record {
        opens = open_journal-readable codec disk valid;
        reads = read_all-readable codec (scan codec disk) readable ∙ ap ok reads;
        clean = clean;
        moved = moved;
      }

  -- Opening a journal without carriage returns: if a byte of it belongs to no character, both opening and
  -- reading fail. Else it opens, and has exactly the entries of its lines that are objects with a string at
  -- `id` and at `op`; all other lines but empty ones are moved to quarantine, in order.
  pub open_journal-reads :
      (disk : Disk)
      → contains (content disk.journal) 13 ≡ false
      → ((is_utf8 (content disk.journal) ≡ false)
          × (open_journal codec disk ≡ err not_utf8)
          × (read_all codec disk ≡ err not_utf8))
        ⊎ (next : Disk) × HasOpened codec disk next
  unfolding open_journal read_all
  open_journal-reads disk plain = elim (Bool-cases (is_utf8 (content disk.journal))) [
    | inl valid ↦ inr (scan codec disk, open_journal-opened disk plain valid)
    | inr broken ↦ inl (
      broken,
      open_journal-unreadable codec disk broken,
      skipped (is_utf8 (content disk.journal)) _ _ broken,
    )
  ]

  bad-nonempty : (x : Text) → is_bad codec x ≡ true → is_empty x ≡ false
  bad-nonempty x bad = ground arith

  bad-not_good : (x : Text) → is_bad codec x ≡ true → is_good codec x ≡ false
  bad-not_good x bad = ground arith

  is_empty-filter_last :
      (p : Text → Bool) (xs : List Text) (x : Text)
      → p x ≡ true
      → is_empty (filter p (xs ++ x ∷ [])) ≡ false
  is_empty-filter_last p [] x h = rw h refl
  is_empty-filter_last p (y ∷ xs) x h = elim (Bool-cases (p y)) [
    | inl yes' ↦ rw (yes', filter) refl
    | inr no' ↦ rw (no', filter) (is_empty-filter_last p xs x h)
  ]

  torn-lines :
      (old torn : Text)
      → is_sealed old ≡ true
      → IsLine torn
      → is_bad codec torn ≡ true
      → lines (old ++ torn) ≡ lines old ++ torn ∷ []
  torn-lines old torn sealed line bad =
      lines-append old torn sealed
      ∙ ap (λ l. lines old ++ l) (lines-single torn line (bad-nonempty torn bad))

  rebuilt-IsWhole :
      (text : Text) {q : List Text}
      → contains text 13 ≡ false
      → is_utf8 text ≡ true
      → IsWhole (record {
        journal = some (unlines (filter (is_good codec) (lines text)));
        quarantine = q;
      })
  rebuilt-IsWhole text plain valid = record {
    sealed = is_sealed-unlines (filter (is_good codec) (lines text));
    plain =
        unlines-plain codec f (filter (is_good codec) (lines text))
          (filter-IsLine codec f (is_good codec) (lines text) (lines-IsLine text plain));
    readable =
        unlines-readable codec f (filter (is_good codec) (lines text))
          (filter-all is_utf8 (is_good codec) (lines text) (lines-is_utf8 text valid));
  }

  scan-IsWhole :
      (journal : Option Text) (q : List Text)
      → IsWhole (record { journal = journal; quarantine = q })
      → IsWhole (scan codec (record { journal = journal; quarantine = q }))
  unfolding scan
  scan-IsWhole none q whole = whole
  scan-IsWhole (some text) q whole =
      elim (Bool-cases (is_empty (filter (is_bad codec) (lines text)))) [
        | inl clean ↦ rw (clean, scan) whole
        | inr dirty ↦ rw (dirty, scan) (rebuilt-IsWhole text whole.plain whole.readable)
      ]

  pub open_journal-IsWhole :
      (disk : Disk)
      → IsWhole disk
      → IsWhole (scan codec disk) × HasOpened codec disk (scan codec disk)
  open_journal-IsWhole disk whole = (
    scan-IsWhole disk.journal disk.quarantine whole,
    open_journal-opened disk whole.plain whole.readable,
  )

  torn-IsWhole :
      (disk : Disk) (torn : Text)
      → IsWhole disk
      → IsLine torn
      → is_bad codec torn ≡ true
      → is_utf8 torn ≡ true
      → IsWhole (scan codec (with_torn disk torn))
  unfolding scan
  torn-IsWhole disk torn whole line bad valid =
      let old = content disk.journal in
      let found = torn-lines old torn whole.sealed line bad in
      let dirty : is_empty (filter (is_bad codec) (lines (old ++ torn))) ≡ false =
        rw found (is_empty-filter_last (is_bad codec) (lines old) torn bad) in
      rw (dirty, scan)
        (rebuilt-IsWhole (old ++ torn)
          (let plain = whole.plain in ground (arith, contains-append old torn 13))
          (let readable = whole.readable in ground (arith, all-append is_character old torn)))

  -- A write that broke off between two characters, on a journal of whole lines without a bad one, and that
  -- left no object, is undone by opening: the journal has the entries that it had.
  pub open_journal-torn :
      (disk : Disk) (torn : Text)
      → IsWhole disk
      → IsClean codec disk
      → IsLine torn
      → is_bad codec torn ≡ true
      → is_utf8 torn ≡ true
      → (open_journal codec (with_torn disk torn) ≡ ok (scan codec (with_torn disk torn)))
        × (read_lines codec (lines (content (scan codec (with_torn disk torn)).journal))
            ≡ read_lines codec (lines (content disk.journal)))
        × IsWhole (scan codec (with_torn disk torn))
        × IsClean codec (scan codec (with_torn disk torn))
  open_journal-torn disk torn whole clean line bad valid =
      let old = content disk.journal in
      let plain : contains (old ++ torn) 13 ≡ false =
        (let p = whole.plain in ground (arith, contains-append old torn 13)) in
      let readable : is_utf8 (old ++ torn) ≡ true =
        (let r = whole.readable in ground (arith, all-append is_character old torn)) in
      let (reads, tidy, _, _) = scanned (some (old ++ torn)) disk.quarantine plain readable in
      (
        open_journal-readable codec (with_torn disk torn) readable,
        reads
            ∙ ap (λ l. read_lines codec (filter (is_good codec) l))
                (torn-lines old torn whole.sealed line bad)
            ∙ ap (read_lines codec) (
                filter-append codec f (is_good codec) (lines old) (torn ∷ [])
                ∙ rw (bad-not_good torn bad) (append-nil (filter (is_good codec) (lines old))))
            ∙ read_lines-clean codec f (lines old) clean,
        torn-IsWhole disk torn whole line bad valid,
        tidy,
      )
