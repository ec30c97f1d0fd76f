-- ===== src/Bounded/Ranges.antt =====
-- conversation/bounded.rs, `line_ranges`: no line is lost.
use innen.Common.{
  ℕ, zero, suc, ◌+◌, ◌-◌, ◌≤◌, ◌≡◌, refl, ap, ◌∙◌, Bool-cases, List, [], ◌∷◌, ◌++◌, eqb, eqb_iff,
  arith, inl, inr,
}
use mathlib.Core.List.{append_assoc}
use innen.Bounded.{ranges_from, ranges}

-- So many numbers, from `n` on.
abbrev pub run : ℕ → ℕ → List ℕ
run n zero = []
run n (suc k) = n ∷ run (suc n) k

-- The lines of a range, and of all ranges.
abbrev pub expand : List (ℕ × ℕ) → List ℕ
expand [] = []
expand ((first, last) ∷ rs) = run first (last + 1 - first) ++ expand rs

run-snoc : (n k : ℕ) → run n (k + 1) ≡ run n k ++ (n + k) ∷ []
run-snoc n zero = ap (λ m. m ∷ []) (omega arith)
run-snoc n (suc k) =
    let more : suc k + 1 ≡ suc (k + 1) = omega arith in
    let last : suc n + k ≡ n + suc k = omega arith in
    rw (more) (ap (λ l. n ∷ l) (run-snoc (suc n) k ∙ ap (λ m. run (suc n) k ++ m ∷ []) last))

expand-ranges_from :
    (first last : ℕ) (lines : List ℕ)
    → first ≤ last
    → expand (ranges_from first last lines) ≡ run first (last + 1 - first) ++ lines
unfolding ranges_from
expand-ranges_from first last [] h = refl
expand-ranges_from first last (n ∷ lines) h = elim (Bool-cases (eqb n (last + 1))) [
  | inl follows ↦
      let next : n ≡ last + 1 = (eqb_iff n (last + 1)).0 follows in
      let longer : n + 1 - first ≡ (last + 1 - first) + 1 = omega arith in
      let place : first + (last + 1 - first) ≡ n = omega arith in
      rw (follows, expand-ranges_from first n lines (omega arith))
        (ap (λ k. run first k ++ lines) longer
          ∙ ap (λ l. l ++ lines) (run-snoc first (last + 1 - first))
          ∙ append_assoc (run first (last + 1 - first)) _ lines
          ∙ ap (λ m. run first (last + 1 - first) ++ m ∷ lines) place)
  | inr apart ↦
      let single : n + 1 - n ≡ 1 = omega arith in
      rw (apart, expand-ranges_from n n lines (omega arith))
        (ap (λ k. run first (last + 1 - first) ++ (run n k ++ lines)) single)
]

-- The ranges of a list of line numbers stand for exactly these numbers, in their order.
pub expand-ranges : (lines : List ℕ) → expand (ranges lines) ≡ lines
unfolding ranges
expand-ranges [] = refl
expand-ranges (n ∷ lines) =
    let single : n + 1 - n ≡ 1 = omega arith in
    expand-ranges_from n n lines (omega arith) ∙ ap (λ k. run n k ++ lines) single
