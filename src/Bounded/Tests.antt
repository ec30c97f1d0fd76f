-- ===== src/Bounded/Tests.antt =====
-- conversation/bounded.rs: small inputs.
use innen.Common.{ℕ, ◌≡◌, refl, true, false, none, some, List, [], ◌∷◌, is_empty, ◌⊎◌}
use innen.Common.Text.{codes}
use innen.Bounded.{CappedLine, read_capped_line, ranges, line_ranges}
use innen.Bounded.Capped.{text_of, line_of, Holds, read_capped_line-reads}
use innen.Bounded.Ranges.{expand, expand-ranges}

abbrev numbers : List ℕ
numbers = 1 ∷ 2 ∷ 3 ∷ 7 ∷ 9 ∷ 10 ∷ []

numbers-shown : line_ranges numbers ≡ codes "1-3,7,9-10"
unfolding line_ranges
numbers-shown = refl

expand-ranges_example : expand (ranges numbers) ≡ numbers
expand-ranges_example = expand-ranges numbers

-- The line `abcd` and the start of the next one, in two buffers.
abbrev buffers : List (List ℕ)
buffers = (97 ∷ 98 ∷ []) ∷ (99 ∷ 100 ∷ 10 ∷ 101 ∷ []) ∷ []

within_budget :
    read_capped_line 4 buffers
    ≡ (some (record { bytes = 97 ∷ 98 ∷ 99 ∷ 100 ∷ []; oversized = false }), (101 ∷ []) ∷ [])
unfolding read_capped_line
within_budget = refl

-- A line that is too long is read to its end all the same.
over_budget :
    read_capped_line 3 buffers
    ≡ (some (record { bytes = 97 ∷ 98 ∷ []; oversized = true }), (101 ∷ []) ∷ [])
unfolding read_capped_line
over_budget = refl

read_capped_line-reads_example :
    ((read_capped_line 3 buffers).0 ≡ none × text_of buffers ≡ []
      ⊎ is_empty (text_of buffers) ≡ false
        × (line : CappedLine) × (read_capped_line 3 buffers).0 ≡ some line
        × Holds 3 line (line_of (text_of buffers)).0)
    × text_of (read_capped_line 3 buffers).1 ≡ (line_of (text_of buffers)).1
read_capped_line-reads_example = read_capped_line-reads 3 buffers (refl, (refl, tt))
