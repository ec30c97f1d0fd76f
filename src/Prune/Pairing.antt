-- ===== src/Prune/Pairing.antt =====
-- conversation/prune/pair.rs: who is paired with whom.
use innen.Common.{
  ℕ, ◌≡◌, refl, true, false, List, [], ◌∷◌, arith, find?, find?-eq-some, contains, nat_eq, eqb_iff,
  Option-cases, inl, inr, Memᴰ,
}
use mathlib.Core.List.Memᴰ
use innen.Common.Sets.{Set, insert, contains-insert}
use innen.Prune.{
  CallMeta, OutputMeta, PairedTool, matches_call, is_free_match, link, pair_from,
  pair_calls_with_outputs,
}

abbrev pub claimed : List PairedTool → List ℕ
claimed [] = []
claimed (tool ∷ paired) = tool.output_idx ∷ claimed paired

-- No value twice.
abbrev pub AreDistinct : List ℕ → Type 0
AreDistinct [] = Unit
AreDistinct (x ∷ xs) = (contains xs x ≡ false) × AreDistinct xs

-- The tool is a call with an output that matches it.
abbrev pub IsLinked : List CallMeta → List OutputMeta → PairedTool → Type 0
IsLinked calls outputs tool =
    (call : CallMeta) × (out : OutputMeta) × Memᴰ call calls
    × Memᴰ out outputs
    × (matches_call call out ≡ true)
    × (tool ≡ link call out)

pair_from-disjoint :
    (calls : List CallMeta) (outputs : List OutputMeta) (matched : Set) (i : ℕ)
    → contains matched i ≡ true
    → contains (claimed (pair_from calls outputs matched)) i ≡ false
unfolding pair_from
pair_from-disjoint [] outputs matched i taken = refl
pair_from-disjoint (call ∷ calls) outputs matched i taken =
    elim (Option-cases (find? (is_free_match matched call) outputs)) [
      | inl absent ↦ rw (absent, contains) (pair_from-disjoint calls outputs matched i taken)
      | inr (out, found) ↦
          let (_, free) = find?-eq-some (is_free_match matched call) outputs found in
          rw (found, contains)
            (ground (
              arith,
              pair_from-disjoint calls outputs (insert out.record_idx matched) i,
              contains-insert out.record_idx matched i,
              eqb_iff out.record_idx i,
              free,
            ))
    ]

pair_from-AreDistinct :
    (calls : List CallMeta) (outputs : List OutputMeta) (matched : Set)
    → AreDistinct (claimed (pair_from calls outputs matched))
unfolding pair_from
pair_from-AreDistinct [] outputs matched = tt
pair_from-AreDistinct (call ∷ calls) outputs matched =
    elim (Option-cases (find? (is_free_match matched call) outputs)) [
      | inl absent ↦ rw (absent, AreDistinct) (pair_from-AreDistinct calls outputs matched)
      | inr (out, found) ↦
          rw (found, AreDistinct)
            (
              pair_from-disjoint calls outputs (insert out.record_idx matched) out.record_idx (
                  ground (
                    arith,
                    contains-insert out.record_idx matched out.record_idx,
                    eqb_iff out.record_idx out.record_idx,
                  )),
              pair_from-AreDistinct calls outputs (insert out.record_idx matched),
            )
    ]

IsLinked-weaken :
    (call : CallMeta) (calls : List CallMeta) (outputs : List OutputMeta) (tool : PairedTool)
    → IsLinked calls outputs tool
    → IsLinked (call ∷ calls) outputs tool
IsLinked-weaken call calls outputs tool (c, out, m, there, matching, same) =
    (c, out, Memᴰ.tail m, there, matching, same)

pair_from-IsLinked :
    (calls : List CallMeta) (outputs : List OutputMeta) (matched : Set) (tool : PairedTool)
    → Memᴰ tool (pair_from calls outputs matched)
    → IsLinked calls outputs tool
unfolding pair_from
pair_from-IsLinked [] outputs matched tool m = absurd (Memᴰ.not-nil m)
pair_from-IsLinked (call ∷ calls) outputs matched tool m =
    elim (Option-cases (find? (is_free_match matched call) outputs)) [
      | inl absent ↦
          IsLinked-weaken call calls outputs tool
            (pair_from-IsLinked calls outputs matched tool (rw (absent, pair_from) at m))
      | inr (out, found) ↦
          let (there, free) = find?-eq-some (is_free_match matched call) outputs found in
          elim (Memᴰ.cases_cons (rw (found, pair_from) at m)) [
            | inl same ↦ (call, out, Memᴰ.head refl, there, ground arith, same)
            | inr later ↦
                IsLinked-weaken call calls outputs tool
                  (pair_from-IsLinked calls outputs (insert out.record_idx matched) tool later)
          ]
    ]

-- Pairing claims each output record at most once, and each pair is one of the calls with one of the
-- outputs that matches it.
pub pair_calls_with_outputs_lem :
    (calls : List CallMeta) (outputs : List OutputMeta)
    → AreDistinct (claimed (pair_calls_with_outputs calls outputs))
      × ((tool : PairedTool)
          → Memᴰ tool (pair_calls_with_outputs calls outputs)
          → IsLinked calls outputs tool)
unfolding pair_calls_with_outputs
pair_calls_with_outputs_lem calls outputs =
    (pair_from-AreDistinct calls outputs [], pair_from-IsLinked calls outputs [])
