-- ===== src/Bounded.antt =====
-- conversation/bounded.rs: lines of a transcript within a budget, and how their numbers are shown. A reader
-- is the list of the buffers that `fill_buf` gives; its errors are left out.
pub mod Capped
pub mod Ranges
mod Tests
use innen.Common.{
  ℕ, suc, ◌+◌, Bool, true, false, not, ◌&&◌, Option, none, some, List, [], ◌∷◌, ◌++◌, eqb, ltb, leb,
  is_empty, length, if◌then◌else◌,
}
use innen.Common.Text.{Text, codes}
use innen.Common.Decimal.{decimal}

pub record CappedLine : Type 0 where
  pub bytes : List ℕ
  pub oversized : Bool

-- What stands before the first line feed, and after it.
unfoldable pub split_line : List ℕ → Option (List ℕ × List ℕ)
split_line [] = none
split_line (c ∷ cs) =
    let rest = split_line cs in
    if eqb c 10
    then some ([], cs)
    else elim rest [ none ↦ none | some (before, after) ↦ some (c ∷ before, after) ]

-- The rest of a buffer, and the buffers behind it.
abbrev pub unread : List ℕ → List (List ℕ) → List (List ℕ)
unread [] reader = reader
unread (c ∷ cs) reader = (c ∷ cs) ∷ reader

-- The branch of a line feed in the buffer.
unfoldable pub end_line : ℕ → CappedLine → List ℕ → CappedLine
end_line budget line before =
    if not line.oversized && leb (length line.bytes + length before) budget
    then record line { bytes = line.bytes ++ before }
    else record line { oversized = true }

-- The branch of a buffer without one.
unfoldable pub extend_line : ℕ → CappedLine → List ℕ → CappedLine
extend_line budget line available =
    if line.oversized
    then line
    else if leb (length line.bytes + length available) budget
    then record line { bytes = line.bytes ++ available }
    else record { bytes = []; oversized = true }

abbrev pub end_of_file : CappedLine → Option CappedLine
end_of_file line = if is_empty line.bytes && not line.oversized then none else some line

-- The `loop` of `read_capped_line`: the line, and the reader after it.
unfoldable pub read_line : ℕ → CappedLine → List (List ℕ) → Option CappedLine × List (List ℕ)
unfolding split_line end_line extend_line
read_line budget line [] = (end_of_file line, [])
read_line budget line ([] ∷ reader) = (end_of_file line, [] ∷ reader)
read_line budget line ((c ∷ cs) ∷ reader) = elim (split_line (c ∷ cs)) [
  | some (before, after) ↦ (some (end_line budget line before), unread after reader)
  | none ↦ read_line budget (extend_line budget line (c ∷ cs)) reader
]

unfoldable pub read_capped_line : ℕ → List (List ℕ) → Option CappedLine × List (List ℕ)
unfolding read_line
read_capped_line budget reader = read_line budget (record { bytes = []; oversized = false }) reader

-- The two loops of `line_ranges`, as one over the lines that are left: the range from `first` goes on as
-- long as the next line follows its last one.
unfoldable pub ranges_from : ℕ → ℕ → List ℕ → List (ℕ × ℕ)
ranges_from first last [] = (first, last) ∷ []
ranges_from first last (n ∷ lines) =
    let longer = ranges_from first n lines in
    let next = ranges_from n n lines in if eqb n (last + 1) then longer else (first, last) ∷ next

unfoldable pub ranges : List ℕ → List (ℕ × ℕ)
unfolding ranges_from
ranges [] = []
ranges (n ∷ lines) = ranges_from n n lines

unfoldable pub range_text : ℕ × ℕ → Text
unfolding decimal
range_text (first, last) =
    if ltb first last then decimal first ++ (codes "-" ++ decimal last) else decimal first

-- `join(",")`.
unfoldable pub join_ranges : List (ℕ × ℕ) → Text
unfolding range_text
join_ranges [] = []
join_ranges (r ∷ []) = range_text r
join_ranges (r ∷ s ∷ rs) = range_text r ++ (codes "," ++ join_ranges (s ∷ rs))

unfoldable pub line_ranges : List ℕ → Text
unfolding ranges join_ranges
line_ranges lines = join_ranges (ranges lines)
