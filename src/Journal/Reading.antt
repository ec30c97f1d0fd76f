-- ===== src/Journal/Reading.antt =====
-- journal.rs: the entries that a journal of whole lines has, and what an append adds.
use innen.Common.{
  ℕ, ◌&&◌, all, ◌≡◌, refl, sym, ap, ◌∙◌, Bool, true, false, none, some, List, [], ◌∷◌, ◌++◌, arith,
  filter, contains, contains-append, nat_eq, Bool-cases, Option-cases, inl, inr, All, ok,
  ok-injective, >>=-eq-ok, if◌then◌else◌,
}
use innen.Common.Text.{Text, is_blank}
use innen.Common.Json.{Json}
use innen.Graph.Requests.{JournalEntry, lines}
use innen.Journal.{
  Disk, Codec, content, unlines, new_line, keep_line, is_good, is_bad, write_line, entry, append,
  read_lines, read_all, validate, is_utf8, is_character,
}
use innen.Journal.Lines.{
  IsLine, is_sealed, lines-append, lines-line, is_sealed-append, is_sealed-line, is_empty-append,
}

-- What is assumed of `serde_json`: an entry is written as text, on one line that is no blank.
pub record IsFaithful (codec : Codec) : Type 0 where
  pub one_line : (e : JournalEntry) → IsLine (codec.render e)
  pub not_blank : (e : JournalEntry) → is_blank (codec.render e) ≡ false
  pub valid : (e : JournalEntry) → is_utf8 (codec.render e) ≡ true

-- The entry is read back as it was written, and its line is an object with an id and an operation. This is
-- not so of every entry: `serde_json` reads no more than 127 levels of nesting, and some fractions only nearly.
pub record IsStable (codec : Codec) (e : JournalEntry) : Type 0 where
  pub reads_back : codec.parse_entry (codec.render e) ≡ some e
  pub kept : keep_line codec (codec.render e) ≡ true

-- The journal is text that ends with a whole line and has no carriage return.
pub record IsWhole (disk : Disk) : Type 0 where
  pub sealed : is_sealed (content disk.journal) ≡ true
  pub plain : contains (content disk.journal) 13 ≡ false
  pub readable : is_utf8 (content disk.journal) ≡ true

-- A choice that is made.
pub passed : {A : Type 0} (b : Bool) (x y : A) → b ≡ true → (if b then x else y) ≡ x
passed true x y h = refl
passed false x y h = cc

pub skipped : {A : Type 0} (b : Bool) (x y : A) → b ≡ false → (if b then x else y) ≡ y
skipped false x y h = refl
skipped true x y h = cc

-- No line of the journal is to be moved to quarantine.
abbrev pub IsClean : Codec → Disk → Type 0
IsClean codec disk = filter (is_bad codec) (lines (content disk.journal)) ≡ []

pub read_all-readable :
    (codec : Codec) (disk : Disk)
    → is_utf8 (content disk.journal) ≡ true
    → read_all codec disk ≡ ok (read_lines codec (lines (content disk.journal)))
unfolding read_all
read_all-readable codec disk readable = passed (is_utf8 (content disk.journal)) _ _ readable

pub all-append : (p : ℕ → Bool) (s t : Text) → all p (s ++ t) ≡ (all p s && all p t)
all-append p [] t = refl
all-append p (c ∷ s) t = ground (arith, all-append p s t)

pair-injective : {i j : Text} {d e : Disk} → ◌≡◌ {A = Text × Disk} (i, d) (j, e) → (i ≡ j) × (d ≡ e)
pair-injective h = (ap (λ p. p.0) h, ap (λ p. p.1) h)

module _ (codec : Codec) (f : IsFaithful codec) where
  pub read_lines-append :
      (xs ys : List Text) → read_lines codec (xs ++ ys) ≡ read_lines codec xs ++ read_lines codec ys
  unfolding read_lines
  read_lines-append [] ys = refl
  read_lines-append (x ∷ xs) ys = elim (Bool-cases (is_blank x)) [
    | inl blank ↦ rw (blank, read_lines) (read_lines-append xs ys)
    | inr worded ↦ elim (Option-cases (codec.parse_entry x)) [
      | inl no_entry ↦ rw (worded, no_entry, read_lines) (read_lines-append xs ys)
      | inr (e, found) ↦ rw (worded, found, read_lines) (ap (λ l. e ∷ l) (read_lines-append xs ys))
    ]
  ]

  read_lines-render :
      (e : JournalEntry) → IsStable codec e → read_lines codec (codec.render e ∷ []) ≡ e ∷ []
  unfolding read_lines
  read_lines-render e stable = rw (f.not_blank e, stable.reads_back) refl

  read_lines-cons :
      (x : Text) (xs ys : List Text)
      → read_lines codec xs ≡ read_lines codec ys
      → read_lines codec (x ∷ xs) ≡ read_lines codec (x ∷ ys)
  unfolding read_lines
  read_lines-cons x xs ys same =
      ap (λ r. if is_blank x then r else elim (codec.parse_entry x) [ none ↦ r | some e ↦ e ∷ r ])
        same

  read_lines-empty : (xs : List Text) → read_lines codec ([] ∷ xs) ≡ read_lines codec xs
  unfolding read_lines is_blank
  read_lines-empty xs = refl

  cons-nonempty : {x : Text} {xs : List Text} → ◌≡◌ {A = List Text} (x ∷ xs) [] → ⊥
  cons-nonempty h = cc

  -- Where no line is bad, the lines that are not good are empty, and read as nothing.
  pub read_lines-clean :
      (xs : List Text)
      → filter (is_bad codec) xs ≡ []
      → read_lines codec (filter (is_good codec) xs) ≡ read_lines codec xs
  read_lines-clean [] clean = refl
  read_lines-clean ([] ∷ xs) clean = read_lines-clean xs clean ∙ sym (read_lines-empty xs)
  read_lines-clean ((c ∷ x) ∷ xs) clean = elim (Bool-cases (keep_line codec (c ∷ x))) [
    | inl good ↦
        rw (good, filter)
          (read_lines-cons (c ∷ x) (filter (is_good codec) xs) xs
            (read_lines-clean xs (rw (good, filter) at clean)))
    | inr bad ↦ absurd (cons-nonempty (rw (bad, filter) at clean))
  ]

  pub filter-append :
      (p : Text → Bool) (xs ys : List Text) → filter p (xs ++ ys) ≡ filter p xs ++ filter p ys
  filter-append p [] ys = refl
  filter-append p (x ∷ xs) ys = elim (Bool-cases (p x)) [
    | inl yes' ↦ rw (yes', filter) (ap (λ l. x ∷ l) (filter-append p xs ys))
    | inr no' ↦ rw (no', filter) (filter-append p xs ys)
  ]

  pub filter-IsLine : (p : Text → Bool) (xs : List Text) → All IsLine xs → All IsLine (filter p xs)
  filter-IsLine p [] h = tt
  filter-IsLine p (x ∷ xs) h = elim (Bool-cases (p x)) [
    | inl yes' ↦ rw (yes', filter) (h.0, filter-IsLine p xs h.1)
    | inr no' ↦ rw (no', filter) (filter-IsLine p xs h.1)
  ]

  not_bad : (x : Text) → is_good codec x ≡ true → is_bad codec x ≡ false
  not_bad x good = ground arith

  -- No good line is bad.
  pub filter-good-bad : (xs : List Text) → filter (is_bad codec) (filter (is_good codec) xs) ≡ []
  filter-good-bad [] = refl
  filter-good-bad (x ∷ xs) = elim (Bool-cases (is_good codec x)) [
    | inl good ↦ rw (good, not_bad x good, filter) (filter-good-bad xs)
    | inr bad ↦ rw (bad, filter) (filter-good-bad xs)
  ]

  pub unlines-plain : (xs : List Text) → All IsLine xs → contains (unlines xs) 13 ≡ false
  unfolding unlines
  unlines-plain [] h = refl
  unlines-plain (x ∷ xs) h = ground (
    arith,
    contains-append (x ++ new_line) (unlines xs) 13,
    contains-append x new_line 13,
    unlines-plain xs,
  )

  pub unlines-readable : (xs : List Text) → all is_utf8 xs ≡ true → is_utf8 (unlines xs) ≡ true
  unfolding unlines
  unlines-readable [] h = refl
  unlines-readable (x ∷ xs) h = ground (
    arith,
    all-append is_character (x ++ new_line) (unlines xs),
    all-append is_character x new_line,
    unlines-readable xs,
  )

  pub render-not_bad : (e : JournalEntry) → IsStable codec e → is_bad codec (codec.render e) ≡ false
  render-not_bad e stable = let kept = stable.kept in ground arith

  write_line-reads :
      (e : JournalEntry) (disk : Disk)
      → IsStable codec e
      → IsWhole disk
      → (read_lines codec (lines (content (write_line (codec.render e) disk).journal))
          ≡ read_lines codec (lines (content disk.journal)) ++ e ∷ [])
        × IsWhole (write_line (codec.render e) disk)
        × (IsClean codec disk → IsClean codec (write_line (codec.render e) disk))
  unfolding write_line
  write_line-reads e disk stable whole =
      let old = content disk.journal in
      let new = codec.render e ++ new_line in
      let split =
        lines-append old new whole.sealed
        ∙ ap (λ l. lines old ++ l) (lines-line (codec.render e) (f.one_line e)) in
      (
        ap (read_lines codec) split
            ∙ read_lines-append (lines old) (codec.render e ∷ [])
            ∙ ap (λ l. read_lines codec (lines old) ++ l) (read_lines-render e stable),
        record {
          sealed =
              is_sealed-append old new (is_sealed-line (codec.render e))
                (is_empty-append (codec.render e) new_line refl);
          plain = ground (
            arith,
            contains-append old new 13,
            contains-append (codec.render e) new_line 13,
            f.one_line e,
          );
          readable =
              let here' = whole.readable in
              let valid = f.valid e in
              ground (
                arith,
                all-append is_character old new,
                all-append is_character (codec.render e) new_line,
              );
        },
        λ clean.
            ap (filter (is_bad codec)) split
            ∙ filter-append (is_bad codec) (lines old) (codec.render e ∷ [])
            ∙ rw (clean, render-not_bad e stable) refl,
      )

  -- An append that passes the check adds its entry behind the others, on a journal of whole lines, and
  -- keeps it one, if the entry is stable; and the id that it returns is the id of that entry.
  pub append-reads :
      (op : Text) (payload : Json) (now id : Text) (disk next : Disk)
      → IsStable codec (entry codec op payload now)
      → IsWhole disk
      → append codec op payload now disk ≡ ok (id, next)
      → (read_lines codec (lines (content next.journal))
          ≡ read_lines codec (lines (content disk.journal)) ++ entry codec op payload now ∷ [])
        × ((entry codec op payload now).id ≡ id)
        × IsWhole next
        × (IsClean codec disk → IsClean codec next)
  unfolding append write_line
  append-reads op payload now id disk next stable whole h =
      let (_, checked, last) = >>=-eq-ok (validate op payload) _ h in
      let (same_id, same_disk) = pair-injective (ok-injective last) in
      let (reads, kept, clean) = write_line-reads (entry codec op payload now) disk stable whole in
      (rw (sym same_disk) reads, same_id, rw (sym same_disk) kept, rw (sym same_disk) clean)
