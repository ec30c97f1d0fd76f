-- ===== src/Prune/Page.antt =====
-- conversation/prune: what the pruning of a whole page leaves as it was.
use innen.Common.{
  Bool, true, ◌^◌, ◌%◌, ltb, ◌⊎◌, none, ℕ, zero, suc, ◌+◌, ◌-◌, ◌≤◌, ◌<◌, ◌≡◌, refl, ap, ◌∙◌, some,
  List, [], ◌∷◌, map, arith, length, get_elem?, eqb, eqb_iff, Bool-cases, inl, inr, All,
}
use innen.Common.Maps.{lookup}
use innen.Prune.{
  Decision, PruneDecisions, ScanResult, pair_calls_with_outputs, evaluate_prune_rules,
}
use innen.Prune.Apply.{
  Record, Applied, prune_at, add_usize, apply_prune_decisions, prune_page, prune_event,
}
use innen.Prune.Survivors.{evaluate_prune_rules-IsDue}

abbrev pub source_lines : List Record → List ℕ
source_lines records = map (λ r. r.line) records

-- The new records stand on the same lines as the old ones, and are the same from the `n`-th on.
abbrev pub KeepsFrom : ℕ → List Record → List Record → Type 0
KeepsFrom n old new =
    (source_lines new ≡ source_lines old)
    × (length new ≡ length old)
    × ((j : ℕ) → n ≤ j → get_elem? new j ≡ get_elem? old j)

get_elem?-head :
    (n : ℕ) (r new : Record) (records : List Record) (j : ℕ)
    → 0 < n
    → n ≤ j
    → get_elem? (new ∷ records) j ≡ get_elem? (r ∷ records) j
get_elem?-head n r new records zero positive from = absurd (omega arith)
get_elem?-head n r new records (suc j) positive from = refl

get_elem?-tail :
    (n : ℕ) (r : Record) (old new : List Record) (j : ℕ)
    → ((k : ℕ) → n ≤ k → get_elem? new k ≡ get_elem? old k)
    → suc n ≤ j
    → get_elem? (r ∷ new) j ≡ get_elem? (r ∷ old) j
get_elem?-tail n r old new zero same from = absurd (omega arith)
get_elem?-tail n r old new (suc j) same from = same j (omega arith)

prune_at-keeps :
    (i n : ℕ) (d : Decision) (records : List Record)
    → i < n
    → i < length records
    → (new : List Record) × (prune_at i d records ≡ some new) × KeepsFrom n records new
unfolding prune_at
prune_at-keeps i n d [] below bound = absurd (omega arith)
prune_at-keeps zero n d (r ∷ records) below bound = (
  record r { event = prune_event d r.event } ∷ records,
  refl,
  (refl, refl, λ j from. get_elem?-head n r _ records j below from),
)
prune_at-keeps (suc i) zero d (r ∷ records) below bound = absurd (omega arith)
prune_at-keeps (suc i) (suc n) d (r ∷ records) below bound =
    let (new, pruned, (lines, size, same)) =
      prune_at-keeps i n d records (omega arith) (omega arith) in
    (
      r ∷ new,
      rw (pruned, prune_at) refl,
      (
        ap (λ l. r.line ∷ l) lines,
        ap suc size,
        λ j from. get_elem?-tail n r records new j same from,
      ),
    )

-- Each decision is about a record before the `n`-th.
abbrev AllBelow : ℕ → PruneDecisions → Type 0
AllBelow n decisions = All (λ (p : ℕ × Decision). p.0 < n) decisions

lookup-AllBelow :
    (n : ℕ) (decisions : PruneDecisions)
    → ((i : ℕ) (d : Decision) → lookup i decisions ≡ some d → i < n)
    → AllBelow n decisions
unfolding lookup
lookup-AllBelow n [] h = tt
lookup-AllBelow n ((i, d) ∷ decisions) h = (
  h i d (ground (arith, eqb_iff i i)),
  lookup-AllBelow n decisions λ j e found. elim (Bool-cases (eqb i j)) [
    | inl same ↦ ground (arith, eqb_iff i j, h i d)
    | inr other ↦ h j e (ground (arith))
  ],
)

-- The sum of the characters that the decisions save.
abbrev pub total_chars : PruneDecisions → ℕ
total_chars [] = 0
total_chars ((i, d) ∷ decisions) = d.chars + total_chars decisions

add_usize-cases :
    (overflow_checks : Bool) (a b : ℕ)
    → ((n : ℕ) × (add_usize overflow_checks a b ≡ some n) × (n ≤ a + b))
      ⊎ ((add_usize overflow_checks a b ≡ none) × (overflow_checks ≡ true) × (2 ^ 64 ≤ a + b))
unfolding add_usize
add_usize-cases overflow_checks a b = elim (Bool-cases (ltb (a + b) (2 ^ 64))) [
  | inl fits ↦ inl (a + b, rw fits refl, omega arith)
  | inr large ↦ elim (Bool-cases overflow_checks) [
    | inl checked ↦ inr (rw (large, checked) refl, checked, ground arith)
    | inr wraps ↦ inl ((a + b) % 2 ^ 64, rw (large, wraps) refl, omega arith)
  ]
]

apply_prune_decisions-keeps :
    (overflow_checks : Bool) (n : ℕ) (decisions : PruneDecisions) (page : Applied)
    → AllBelow n decisions
    → n ≤ length page.records
    → ((last : Applied) × (apply_prune_decisions overflow_checks decisions page ≡ some last)
        × KeepsFrom n page.records last.records)
      ⊎ ((apply_prune_decisions overflow_checks decisions page ≡ none)
          × (overflow_checks ≡ true)
          × (2 ^ 64 ≤ page.saved_chars_estimate + total_chars decisions))
unfolding apply_prune_decisions
apply_prune_decisions-keeps checks n [] page below bound =
    inl (page, refl, (refl, refl, λ j from. refl))
apply_prune_decisions-keeps checks n ((i, d) ∷ decisions) page below bound =
    let (records, pruned, (lines, size, same)) =
      prune_at-keeps i n d page.records below.0 (omega arith) in
    elim (add_usize-cases checks page.saved_chars_estimate d.chars) [
      | inr (over, checked, large) ↦
          inr (rw (pruned, apply_prune_decisions) (rw over refl), checked, omega arith)
      | inl (saved, fits, small) ↦
          let page' : Applied = record {
            records = records;
            pruned_count = page.pruned_count + 1;
            saved_chars_estimate = saved;
          } in
          elim (apply_prune_decisions-keeps checks n decisions page' below.1
            (omega (arith, size))) [
              | inl (last, ran, (lines', size', same')) ↦ inl (
                last,
                rw (pruned, apply_prune_decisions) (rw fits ran),
                (lines' ∙ lines, size' ∙ size, λ j from. same' j from ∙ same j from),
              )
              | inr (stops, checked, large) ↦
                  inr (rw (pruned, apply_prune_decisions) (rw fits stops), checked, omega arith)
            ]
    ]

-- What is pruned of a page that has records.
abbrev pub decisions_of : ℕ → ScanResult → List Record → PruneDecisions
decisions_of preserve_recent scan records =
    (evaluate_prune_rules (pair_calls_with_outputs scan.calls scan.outputs) scan.file_writes
      (length records - preserve_recent)).decisions

-- Pruning a page keeps the number of the records and their lines, and leaves the last `preserve_recent`
-- records as they are. It never indexes a record out of range, whatever the scan says, and fails only
-- where the build checks for overflow and the characters that it saves are 2 ^ 64 or more.
pub prune_page-keeps :
    (overflow_checks : Bool) (preserve_recent : ℕ) (scan : ScanResult) (records : List Record)
    → ((last : Applied) × (prune_page overflow_checks preserve_recent scan records ≡ some last)
        × KeepsFrom (length records - preserve_recent) records last.records)
      ⊎ ((prune_page overflow_checks preserve_recent scan records ≡ none)
          × (overflow_checks ≡ true)
          × (2 ^ 64 ≤ total_chars (decisions_of preserve_recent scan records)))
unfolding prune_page
prune_page-keeps checks preserve_recent scan [] = inl (
  record { records = []; pruned_count = 0; saved_chars_estimate = 0 },
  refl,
  (refl, refl, λ j from. refl),
)
prune_page-keeps checks preserve_recent scan (r ∷ records) =
    let keep_threshold = length (r ∷ records) - preserve_recent in
    let paired = pair_calls_with_outputs scan.calls scan.outputs in
    elim (apply_prune_decisions-keeps checks keep_threshold
      (evaluate_prune_rules paired scan.file_writes keep_threshold).decisions
      (record { records = r ∷ records; pruned_count = 0; saved_chars_estimate = 0 })
      (lookup-AllBelow keep_threshold _ λ i d found.
        let (_, _, _, _, early, _, _) =
          evaluate_prune_rules-IsDue paired scan.file_writes keep_threshold i d found in
        early)
      (omega arith)) [
        | inl kept ↦ inl kept
        | inr (stops, checked, large) ↦ inr (stops, checked, omega arith)
      ]
