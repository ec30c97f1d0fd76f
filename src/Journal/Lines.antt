-- ===== src/Journal/Lines.antt =====
-- journal.rs: the lines of a file that only ever gets whole lines.
use innen.Common.{
  ℕ, ◌≡◌, refl, ap, ◌∙◌, Bool, true, false, ◌&&◌, List, [], ◌∷◌, ◌++◌, arith, eqb, eqb_iff,
  if◌then◌else◌, is_empty, contains, nat_eq, Bool-cases, inl, inr, All, all,
}
use mathlib.Core.List.{append-nil}
use innen.Common.Text.{Text, starts_with}
use innen.Graph.Requests.{lines, push_char}
use innen.Journal.{unlines, new_line, is_utf8, is_character}

-- A text that is no more than one line: without a line feed and without a carriage return.
abbrev pub IsLine : Text → Type 0
IsLine s = (contains s 10 ≡ false) × (contains s 13 ≡ false)

-- Empty, or ended by a line feed.
unfoldable pub is_sealed : Text → Bool
is_sealed [] = true
is_sealed (c ∷ s) = let rest = is_sealed s in if is_empty s then eqb c 10 else rest

lines-nonempty : (c : ℕ) (s : Text) → is_empty (lines (c ∷ s)) ≡ false
unfolding lines
lines-nonempty c [] = ground arith
lines-nonempty c (d ∷ s) = ground (arith, lines-nonempty d s)

push_char-append :
    (c : ℕ) (xs ys : List Text)
    → is_empty xs ≡ false
    → push_char c (xs ++ ys) ≡ push_char c xs ++ ys
push_char-append c [] ys h = cc
push_char-append c (x ∷ xs) ys h = refl

lines-cons :
    (c : ℕ) (s : Text)
    → lines (c ∷ s) ≡ (
        if eqb c 10
        then [] ∷ lines s
        else if eqb c 13 && starts_with s (10 ∷ [])
        then lines s
        else push_char c (lines s))
unfolding lines
lines-cons c s = refl

pub lines-nil : lines [] ≡ []
unfolding lines
lines-nil = refl

-- The lines of a sealed text and of what follows it.
pub lines-append : (s t : Text) → is_sealed s ≡ true → lines (s ++ t) ≡ lines s ++ lines t
unfolding is_sealed
lines-append [] t h = rw lines-nil refl
lines-append (c ∷ []) t h = ground (arith, lines-cons c t, lines-cons c [], lines-nil)
lines-append (c ∷ d ∷ s) t h = ground (
  arith,
  lines-cons c (d ∷ s),
  lines-cons c (d ∷ (s ++ t)),
  lines-append (d ∷ s) t,
  push_char-append c (lines (d ∷ s)) (lines t),
  lines-nonempty d s,
)

pub lines-line : (s : Text) → IsLine s → lines (s ++ new_line) ≡ s ∷ []
lines-line [] h = rw (lines-cons 10 [], lines-nil) refl
lines-line (c ∷ s) h =
    ground (arith, lines-cons c (s ++ new_line), lines-line s, eqb_iff c 10, eqb_iff c 13)

pub lines-single : (s : Text) → IsLine s → is_empty s ≡ false → lines s ≡ s ∷ []
lines-single [] h nonempty = cc
lines-single (c ∷ []) h nonempty = ground (arith, lines-cons c [], lines-nil)
lines-single (c ∷ d ∷ s) h nonempty = ground (arith, lines-cons c (d ∷ s), lines-single (d ∷ s))

pub is_sealed-append :
    (s t : Text) → is_sealed t ≡ true → is_empty t ≡ false → is_sealed (s ++ t) ≡ true
unfolding is_sealed
is_sealed-append [] t h nonempty = h
is_sealed-append (c ∷ []) [] h nonempty = cc
is_sealed-append (c ∷ []) (d ∷ t) h nonempty = h
is_sealed-append (c ∷ d ∷ s) t h nonempty = is_sealed-append (d ∷ s) t h nonempty

pub is_sealed-line : (s : Text) → is_sealed (s ++ new_line) ≡ true
unfolding is_sealed
is_sealed-line s = is_sealed-append s new_line refl refl

pub is_empty-append : (s t : Text) → is_empty t ≡ false → is_empty (s ++ t) ≡ false
is_empty-append [] t h = h
is_empty-append (c ∷ s) t h = refl

is_empty-append_left : (s t : Text) → is_empty s ≡ false → is_empty (s ++ t) ≡ false
is_empty-append_left [] t h = cc
is_empty-append_left (c ∷ s) t h = refl

unlines-nonempty : (l : Text) (ls : List Text) → is_empty (unlines (l ∷ ls)) ≡ false
unfolding unlines
unlines-nonempty l ls =
    is_empty-append_left (l ++ new_line) (unlines ls) (is_empty-append l new_line refl)

pub is_sealed-unlines : (ls : List Text) → is_sealed (unlines ls) ≡ true
unfolding unlines is_sealed
is_sealed-unlines [] = refl
is_sealed-unlines (l ∷ []) = rw (append-nil (l ++ new_line)) (is_sealed-line l)
is_sealed-unlines (l ∷ m ∷ ls) =
    is_sealed-append (l ++ new_line) (unlines (m ∷ ls)) (is_sealed-unlines (m ∷ ls))
      (unlines-nonempty m ls)

-- Reading the lines of what was written gives them back.
pub lines-unlines : (ls : List Text) → All IsLine ls → lines (unlines ls) ≡ ls
unfolding unlines
lines-unlines [] h = lines-nil
lines-unlines (l ∷ ls) h =
    lines-append (l ++ new_line) (unlines ls) (is_sealed-line l)
    ∙ rw (lines-line l h.0) (ap (λ r. l ∷ r) (lines-unlines ls h.1))

-- The lines of a text without carriage returns.
push_char-IsLine :
    (c : ℕ) (ls : List Text)
    → All IsLine ls
    → eqb c 10 ≡ false
    → eqb c 13 ≡ false
    → All IsLine (push_char c ls)
push_char-IsLine c [] h feed return = ground arith
push_char-IsLine c (l ∷ ls) h feed return = ground arith

pub lines-IsLine : (s : Text) → contains s 13 ≡ false → All IsLine (lines s)
lines-IsLine [] h = rw lines-nil tt
lines-IsLine (c ∷ s) h = elim (Bool-cases (eqb c 10)) [
  | inl feed ↦ rw (lines-cons c s, feed) ((refl, refl), lines-IsLine s (ground arith))
  | inr other ↦
      rw (lines-cons c s, other, ret)
        (push_char-IsLine c (lines s) (lines-IsLine s (ground arith)) other ret)
]
  where
    ret : eqb c 13 ≡ false
    ret = ground arith

push_char-all :
    (p : ℕ → Bool) (c : ℕ) (ls : List Text)
    → p c ≡ true
    → all (all p) ls ≡ true
    → all (all p) (push_char c ls) ≡ true
push_char-all p c [] here' h = ground arith
push_char-all p c (l ∷ ls) here' h = ground arith

-- The lines of a text are texts.
pub lines-is_utf8 : (s : Text) → is_utf8 s ≡ true → all is_utf8 (lines s) ≡ true
lines-is_utf8 [] h = rw lines-nil refl
lines-is_utf8 (c ∷ s) h =
    let (first, later) = all-cons c s h in
    elim (Bool-cases (eqb c 10)) [
      | inl feed ↦ rw (lines-cons c s, feed) (lines-is_utf8 s later)
      | inr other ↦ elim (Bool-cases (eqb c 13 && starts_with s (10 ∷ []))) [
        | inl ending ↦ rw (lines-cons c s, other, ending) (lines-is_utf8 s later)
        | inr inside ↦
            rw (lines-cons c s, other, inside)
              (push_char-all is_character c (lines s) first (lines-is_utf8 s later))
      ]
    ]
  where
    all-cons :
        (c : ℕ) (s : Text) → is_utf8 (c ∷ s) ≡ true → (is_character c ≡ true) × (is_utf8 s ≡ true)
    all-cons c s h = (ground arith, ground arith)
