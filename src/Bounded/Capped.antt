-- ===== src/Bounded/Capped.antt =====
-- conversation/bounded.rs, `read_capped_line`: the buffers do not matter.
use innen.Common.{
  ℕ, ◌+◌, ◌≡◌, refl, ap, false, ◌⊎◌, Option, none, some, List, [], ◌∷◌, ◌++◌, ltb, leb, is_empty,
  length, length-append, All, Bool-cases, Option-cases, inl, inr, arith,
}
use mathlib.Core.List.{append_assoc, append-nil}
use innen.Bounded.{
  CappedLine, split_line, unread, end_line, extend_line, end_of_file, read_line, read_capped_line,
}

-- The text that a reader has yet to give.
abbrev pub text_of : List (List ℕ) → List ℕ
text_of [] = []
text_of (buffer ∷ reader) = buffer ++ text_of reader

abbrev pub IsNonempty : List ℕ → Type 0
IsNonempty buffer = is_empty buffer ≡ false

-- The line of a text, and what comes after its line feed.
abbrev pub line_of : List ℕ → List ℕ × List ℕ
line_of text = elim (split_line text) [ none ↦ (text, []) | some parts ↦ parts ]

text_of-unread :
    (after : List ℕ) (reader : List (List ℕ))
    → text_of (unread after reader) ≡ after ++ text_of reader
text_of-unread [] reader = refl
text_of-unread (c ∷ cs) reader = refl

split_line-append_some :
    (s t before after : List ℕ)
    → split_line s ≡ some (before, after)
    → split_line (s ++ t) ≡ some (before, after ++ t)
unfolding split_line
split_line-append_some [] t before after h = cc
split_line-append_some (c ∷ cs) t before after h = elim (Option-cases (split_line cs)) [
  | inl none_yet ↦ grind arith
  | inr ((a, b), found) ↦ let later = split_line-append_some cs t a b found in grind arith
]

split_line-append_none :
    (s t : List ℕ) → split_line s ≡ none → line_of (s ++ t) ≡ (s ++ (line_of t).0, (line_of t).1)
unfolding split_line
split_line-append_none [] t h = refl
split_line-append_none (c ∷ cs) t h = elim (Option-cases (split_line cs)) [
  | inl none_yet ↦ let later = split_line-append_none cs t none_yet in grind arith
  | inr (parts, found) ↦ grind arith
]

-- The line so far, of `seen` bytes: they are all there within the budget, and beyond it it is oversized.
abbrev pub Holds : ℕ → CappedLine → List ℕ → Type 0
Holds budget line seen =
    (line.oversized ≡ ltb budget (length seen)) × (line.oversized ≡ false → line.bytes ≡ seen)

end_line-Holds :
    (budget : ℕ) (line : CappedLine) (seen before : List ℕ)
    → Holds budget line seen
    → Holds budget (end_line budget line before) (seen ++ before)
unfolding end_line
end_line-Holds budget line seen before (over, same) = elim (Bool-cases line.oversized) [
  | inl beyond ↦ let total = length-append seen before in (grind arith, grind arith)
  | inr within ↦
      let bytes = same within in
      let total = length-append seen before in
      elim (Bool-cases (leb (length seen + length before) budget)) [
        | inl fits ↦
            (rw (within, bytes, fits, total) (grind arith), rw (within, bytes, fits) (λ _. refl))
        | inr over_now ↦ (rw (within, bytes, over_now, total) (grind arith), grind arith)
      ]
]

extend_line-Holds :
    (budget : ℕ) (line : CappedLine) (seen available : List ℕ)
    → Holds budget line seen
    → Holds budget (extend_line budget line available) (seen ++ available)
unfolding extend_line
extend_line-Holds budget line seen available (over, same) = elim (Bool-cases line.oversized) [
  | inl beyond ↦ let total = length-append seen available in (grind arith, grind arith)
  | inr within ↦
      let bytes = same within in
      let total = length-append seen available in
      elim (Bool-cases (leb (length seen + length available) budget)) [
        | inl fits ↦
            (rw (within, bytes, fits, total) (grind arith), rw (within, bytes, fits) (λ _. refl))
        | inr over_now ↦ (rw (within, bytes, over_now, total) (grind arith), grind arith)
      ]
]

-- The answer for a text after `seen`: none at the end of everything, else the line up to the line feed.
abbrev Answers : ℕ → List ℕ → List ℕ → Option CappedLine → Type 0
Answers budget seen text answer =
    (answer ≡ none) × (seen ++ text ≡ [])
    ⊎ (is_empty (seen ++ text) ≡ false)
      × (line : CappedLine) × (answer ≡ some line)
      × Holds budget line (seen ++ (line_of text).0)

end_of_file-Answers :
    (budget : ℕ) (line : CappedLine) (seen : List ℕ)
    → Holds budget line seen
    → Answers budget seen [] (end_of_file line)
unfolding split_line
end_of_file-Answers budget line [] (over, same) = inl (grind arith, refl)
end_of_file-Answers budget line (c ∷ cs) (over, same) = inr (
  refl,
  line,
  elim (Bool-cases line.oversized) [
    | inl beyond ↦ grind arith
    | inr within ↦ rw (within, same within) refl
  ],
  rw (append-nil cs) (over, same),
)

-- What a reader gives from the line so far on, and what it leaves.
abbrev Reads : ℕ → List ℕ → List ℕ → Option CappedLine × List (List ℕ) → Type 0
Reads budget seen text result =
    Answers budget seen text result.0 × (text_of result.1 ≡ (line_of text).1)

is_empty-append_cons : (seen : List ℕ) (c : ℕ) (rest : List ℕ) → is_empty (seen ++ c ∷ rest) ≡ false
is_empty-append_cons [] c rest = refl
is_empty-append_cons (x ∷ seen) c rest = refl

read_line-end : (budget : ℕ) (line : CappedLine) → read_line budget line [] ≡ (end_of_file line, [])
unfolding read_line
read_line-end budget line = refl

module _ (budget : ℕ) (line : CappedLine) (c : ℕ) (cs : List ℕ) (reader : List (List ℕ)) where
  read_line-found :
      (before after : List ℕ)
      → split_line (c ∷ cs) ≡ some (before, after)
      → read_line budget line ((c ∷ cs) ∷ reader)
        ≡ (some (end_line budget line before), unread after reader)
  unfolding read_line
  read_line-found before after found = rw (found, read_line) refl

  read_line-extended :
      split_line (c ∷ cs) ≡ none
      → read_line budget line ((c ∷ cs) ∷ reader)
        ≡ read_line budget (extend_line budget line (c ∷ cs)) reader
  unfolding read_line
  read_line-extended found = rw (found, read_line) refl

-- The text of a reader whose next buffer has no line feed is read as if that buffer was seen before.
Reads-extended :
    (budget : ℕ) (seen s t : List ℕ) (result : Option CappedLine × List (List ℕ))
    → split_line s ≡ none
    → Reads budget (seen ++ s) t result
    → Reads budget seen (s ++ t) result
Reads-extended budget seen s t result none_yet (answers, rest) =
    rw
      (
        split_line-append_none s t none_yet,
        ← append_assoc seen s t,
        ← append_assoc seen s (line_of t).0,
      )
      (answers, rest)

line_of-found :
    (text before after : List ℕ)
    → split_line text ≡ some (before, after)
    → line_of text ≡ (before, after)
line_of-found text before after found =
    ap (λ o. elim o [ none ↦ (text, []) | some parts ↦ parts ]) found

Reads-found :
    (budget : ℕ) (line : CappedLine) (seen s before after : List ℕ) (reader : List (List ℕ))
    → is_empty (seen ++ (s ++ text_of reader)) ≡ false
    → split_line s ≡ some (before, after)
    → Holds budget line (seen ++ before)
    → Reads budget seen (s ++ text_of reader) (some line, unread after reader)
Reads-found budget line seen s before after reader more found holds =
    rw (line_of-found _ _ _ (split_line-append_some s (text_of reader) before after found))
      (inr (more, line, refl, holds), text_of-unread after reader)

read_line-Reads_nil :
    (budget : ℕ) (line : CappedLine) (seen : List ℕ)
    → Holds budget line seen
    → Reads budget seen [] (read_line budget line [])
unfolding read_line
read_line-Reads_nil budget line seen holds = (end_of_file-Answers budget line seen holds, refl)

read_line-Reads :
    (budget : ℕ) (line : CappedLine) (seen : List ℕ) (reader : List (List ℕ))
    → All IsNonempty reader
    → Holds budget line seen
    → Reads budget seen (text_of reader) (read_line budget line reader)
read_line-Reads budget line seen [] full holds = read_line-Reads_nil budget line seen holds
read_line-Reads budget line seen ([] ∷ reader) (broken, full) holds = cc
read_line-Reads budget line seen ((c ∷ cs) ∷ reader) (_, full) holds =
    elim (Option-cases (split_line (c ∷ cs))) [
      | inl none_yet ↦ rw (read_line-extended budget line c cs reader none_yet) (
          Reads-extended budget seen (c ∷ cs) (text_of reader)
            (read_line budget (extend_line budget line (c ∷ cs)) reader) none_yet
            (read_line-Reads budget (extend_line budget line (c ∷ cs)) (seen ++ c ∷ cs) reader full
              (extend_line-Holds budget line seen (c ∷ cs) holds)))
      | inr ((before, after), found) ↦
          rw (read_line-found budget line c cs reader before after found) (
            Reads-found budget (end_line budget line before) seen (c ∷ cs) before after reader
              (is_empty-append_cons seen c (cs ++ text_of reader)) found
              (end_line-Holds budget line seen before holds))
    ]

-- A line is read from buffers of any size, none of them empty, as from the text they make up: there is none
-- exactly at the end of the text; else it is oversized exactly if the bytes before the next line feed, or
-- before the end, are more than the budget, and if it is not it has exactly these bytes. What is left to
-- read is the text after the line feed.
pub read_capped_line-reads :
    (budget : ℕ) (reader : List (List ℕ))
    → All IsNonempty reader
    → ((read_capped_line budget reader).0 ≡ none × text_of reader ≡ []
        ⊎ is_empty (text_of reader) ≡ false
          × (line : CappedLine) × (read_capped_line budget reader).0 ≡ some line
          × Holds budget line (line_of (text_of reader)).0)
      × text_of (read_capped_line budget reader).1 ≡ (line_of (text_of reader)).1
unfolding read_capped_line
read_capped_line-reads budget reader full =
    read_line-Reads budget (record { bytes = []; oversized = false }) [] reader full
      (grind arith, λ _. refl)
