-- ===== src/EvidenceClosure/Options.antt =====
-- evidence_closure/evaluation.rs: where the admitted alternatives of the facts come from.
use innen.Common.{
  ℕ, suc, ◌≡◌, refl, sym, ap, ◌∙◌, ◌||◌, List, [], ◌∷◌, ◌++◌, is_empty, if◌then◌else◌, Outcome, ok,
  err, panic, >>=-eq-ok, ok-injective, All, Memᴰ, inl, inr, ◌⊎◌,
}
use mathlib.Core.List.{append_assoc, append-nil}
use innen.Common.Text.{Text}
use innen.Contract.{Contract, Requirement}
use innen.EvidenceClosure.Snapshot.{Snapshot, Host}
use innen.EvidenceClosure.Closure.{Alternative, Problem, closure}
use innen.EvidenceClosure.Evaluation.{Collected, is_conflict_reason, try_alternatives, collect}

module _ (host : Host) (c : Contract) (s : Snapshot) where
  -- The alternative is the admitted closure of one of the root sets.
  abbrev pub ComesOf : List (List Text) → Alternative → Type 0
  ComesOf rootsets a = (roots : List Text) × Memᴰ roots rootsets × (closure host c s roots ≡ ok a)

  -- Each fact has its list of admitted alternatives.
  abbrev pub Supplied : List Requirement → List (List Alternative) → Type 0
  Supplied [] [] = Unit
  Supplied [] (as' ∷ options) = ⊥
  Supplied (fact ∷ facts) [] = ⊥
  Supplied (fact ∷ facts) (as' ∷ options) =
      All (ComesOf fact.alternatives) as' × Supplied facts options

  ComesOf-tail :
      (roots : List Text) (rest : List (List Text)) (as' : List Alternative)
      → All (ComesOf rest) as'
      → All (ComesOf (roots ∷ rest)) as'
  ComesOf-tail roots rest [] h = tt
  ComesOf-tail roots rest (a ∷ as') h =
      let (r, m, e) = h.0 in ((r, Memᴰ.tail m, e), ComesOf-tail roots rest as' h.1)

  closed_or_not :
      (m : Outcome Problem Alternative)
      → ((a : Alternative) × (m ≡ ok a)) ⊎ (((p : Problem) × (m ≡ err p)) ⊎ (m ≡ panic))
  closed_or_not (ok a) = inl (a, refl)
  closed_or_not (err p) = inr (inl (p, refl))
  closed_or_not panic = inr (inr refl)

  abbrev Tried :
      List (List Text) → List Alternative → Collected → List Alternative × Collected → Type 0
  Tried rest admitted col tried =
      ((new : List Alternative) × (tried.0 ≡ admitted ++ new) × All (ComesOf rest) new)
      × (tried.1.options ≡ col.options)

  try_alternatives-Tried :
      (fact : Text) (i : ℕ) (rest : List (List Text)) (admitted : List Alternative)
      (col : Collected) {tried : List Alternative × Collected}
      → try_alternatives host c s fact i rest admitted col ≡ ok tried
      → Tried rest admitted col tried
  unfolding try_alternatives
  try_alternatives-Tried fact i [] admitted col h =
      rw (← ok-injective h) (([], sym (append-nil admitted), tt), refl)
  try_alternatives-Tried fact i (roots ∷ rest) admitted col h =
      elim (closed_or_not (closure host c s roots)) [
        | inl (a, closed) ↦
            let ((new, same, from), kept) =
              try_alternatives-Tried fact (suc i) rest (admitted ++ a ∷ []) col
                (rw (closed, try_alternatives) at h) in
            (
              (
                a ∷ new,
                same ∙ append_assoc admitted (a ∷ []) new,
                ((roots, Memᴰ.head refl, closed), ComesOf-tail roots rest new from),
              ),
              kept,
            )
        | inr (inl ((reason, source), refused)) ↦
            let ((new, same, from), kept) =
              try_alternatives-Tried fact (suc i) rest admitted
                (record col {
                  conflict = col.conflict || is_conflict_reason reason;
                  rejected =
                      col.rejected
                      ++ record { fact = fact; alternative = i; reason = reason; source = source }
                        ∷ [];
                })
                (rw (refused, try_alternatives) at h) in
            ((new, same, ComesOf-tail roots rest new from), kept)
        | inr (inr stuck) ↦ absurd (cc (rw (stuck, try_alternatives) at h))
      ]

  pub collect-Supplied :
      (facts : List Requirement) (col : Collected) {col' : Collected}
      → collect host c s facts col ≡ ok col'
      → (new : List (List Alternative)) × (col'.options ≡ col.options ++ new) × Supplied facts new
  unfolding collect
  collect-Supplied [] col h = ([], rw (← ok-injective h) (sym (append-nil col.options)), tt)
  collect-Supplied (f ∷ facts) col h =
      let (tried, first, rest) =
        >>=-eq-ok (try_alternatives host c s f.id 0 f.alternatives [] col) _ h in
      let ((new, same, from), kept) = try_alternatives-Tried f.id 0 f.alternatives [] col first in
      let (news, sames, froms) =
        collect-Supplied facts
          (record tried.1 {
            options = tried.1.options ++ tried.0 ∷ [];
            missing = if is_empty tried.0 then tried.1.missing ++ f.id ∷ [] else tried.1.missing;
          })
          rest in
      (
        tried.0 ∷ news,
        sames
            ∙ append_assoc tried.1.options (tried.0 ∷ []) news
            ∙ ap (λ o. o ++ tried.0 ∷ news) kept,
        (rw same from, froms),
      )
