-- ===== src/EvidenceState/Verdict.antt =====
-- evidence_state.rs: when a list of premises is admitted, and what the verdict is.
use innen.Common.{
  ◌≡◌, ◌↔◌, refl, sym, Bool, true, false, not, ◌||◌, ◌&&◌, none, some, List, [], ◌∷◌, ◌++◌, arith,
  if◌then◌else◌, is_some, is_empty, all, any, contains, nat_eq, list_eq, ==_iff, ok, >>=-eq-ok, ◌∙◌,
  ap,
}
use innen.Common.Text.{Text, is_blank}
use innen.EvidenceState.{
  Readiness, needs_more_evidence, conflicting_evidence, supported_investigation, Premise, is_subset,
  is_disjoint, check_premise, assess_from, assess,
}

-- A premise by itself: named, its sources reviewed and in one role each, and either evidenced or
-- missing a named fact.
unfoldable pub is_sound : List Text → Premise → Bool
is_sound reviewed p =
    not (is_blank p.id)
    && is_subset p.supports reviewed
    && is_subset p.refutes reviewed
    && is_disjoint p.supports p.refutes
    && elim p.missing_fact [
      | none ↦ not (is_empty p.supports) || not (is_empty p.refutes)
      | some fact ↦ not (is_blank fact) && is_empty p.supports && is_empty p.refutes
    ]

abbrev pub ids_of : List Premise → List Text
ids_of [] = []
ids_of (p ∷ ps) = p.id ∷ ids_of ps

abbrev pub is_distinct : List Text → Bool
is_distinct [] = true
is_distinct (x ∷ xs) = not (contains xs x) && is_distinct xs

abbrev pub is_admissible : List Text → List Premise → Bool
is_admissible reviewed premises = all (is_sound reviewed) premises && is_distinct (ids_of premises)

-- Refuting evidence first, then a missing fact or no premise at all.
abbrev pub verdict : List Premise → Readiness
verdict premises =
    if any (λ p. not (is_empty p.refutes)) premises
    then conflicting_evidence
    else (if is_empty premises || any (λ p. is_some p.missing_fact) premises
        then needs_more_evidence
        else supported_investigation)

check_premise_sound :
    (reviewed ids : List Text) (p : Premise)
    → is_sound reviewed p ≡ true
    → contains ids p.id ≡ false
    → check_premise reviewed ids p ≡ ok tt
unfolding check_premise is_sound
check_premise_sound reviewed ids p h new = ground arith

check_premise-ok :
    (reviewed ids : List Text) (p : Premise)
    → check_premise reviewed ids p ≡ ok tt
    → (is_sound reviewed p ≡ true) × (contains ids p.id ≡ false)
unfolding check_premise is_sound
check_premise-ok reviewed ids p h = ground arith

-- None of the ids is among those that went before.
abbrev is_apart : List Text → List Text → Bool
is_apart ids [] = true
is_apart ids (x ∷ xs) = not (contains ids x) && is_apart ids xs

is_apart-cons :
    (ids xs : List Text) (y : Text)
    → is_apart (y ∷ ids) xs ≡ (is_apart ids xs && not (contains xs y))
is_apart-cons ids [] y = refl
is_apart-cons ids (x ∷ xs) y = ground (arith, is_apart-cons ids xs y, ==_iff x y, ==_iff y x)

is_apart-nil : (xs : List Text) → is_apart [] xs ≡ true
is_apart-nil [] = refl
is_apart-nil (x ∷ xs) = is_apart-nil xs

abbrev flagged : Bool → Bool → List Premise → Readiness
flagged missing refuted ps =
    if refuted || any (λ p. not (is_empty p.refutes)) ps
    then conflicting_evidence
    else (if missing || any (λ p. is_some p.missing_fact) ps
        then needs_more_evidence
        else supported_investigation)

abbrev may_follow : List Text → List Text → List Premise → Bool
may_follow reviewed ids ps =
    all (is_sound reviewed) ps && is_distinct (ids_of ps) && is_apart ids (ids_of ps)

flagged-cons :
    (missing refuted : Bool) (p : Premise) (ps : List Premise)
    → flagged missing refuted (p ∷ ps)
      ≡ flagged (missing || is_some p.missing_fact) (refuted || not (is_empty p.refutes)) ps
flagged-cons missing refuted p ps = ground arith

-- The loop: it refuses, or its flags end as the premises say.
assess_from-ok :
    (reviewed ids : List Text) (missing refuted : Bool) (ps : List Premise) (r : Readiness)
    → assess_from reviewed ids missing refuted ps ≡ ok r
    → (may_follow reviewed ids ps ≡ true) × (flagged missing refuted ps ≡ r)
unfolding assess_from
assess_from-ok reviewed ids missing refuted [] r h = ground arith
assess_from-ok reviewed ids missing refuted (p ∷ ps) r h =
    let (u, checked, rest) = >>=-eq-ok (check_premise reviewed ids p) _ h in
    let (sound, new) = check_premise-ok reviewed ids p checked in
    let (later, same) = assess_from-ok reviewed (p.id ∷ ids) _ _ ps r rest in
    (ground (arith, is_apart-cons ids (ids_of ps) p.id), flagged-cons missing refuted p ps ∙ same)

assess_from-admits :
    (reviewed ids : List Text) (missing refuted : Bool) (ps : List Premise)
    → may_follow reviewed ids ps ≡ true
    → assess_from reviewed ids missing refuted ps ≡ ok (flagged missing refuted ps)
unfolding assess_from
assess_from-admits reviewed ids missing refuted [] h = ground arith
assess_from-admits reviewed ids missing refuted (p ∷ ps) h =
    let apart = is_apart-cons ids (ids_of ps) p.id in
    let rest =
      assess_from-admits reviewed (p.id ∷ ids) (missing || is_some p.missing_fact)
        (refuted || not (is_empty p.refutes)) ps (ground arith) in
    rw (check_premise_sound reviewed ids p (ground arith) (ground arith))
      (rest ∙ ap ok (sym (flagged-cons missing refuted p ps)))

-- `assess` returns a readiness exactly for the admissible lists of premises, those whose ids are
-- distinct and whose premises are sound by themselves, and it is then the verdict of the list: any
-- refuting source makes a conflict, else a missing fact or an empty list asks for more evidence.
pub assess_iff :
    (premises : List Premise) (reviewed : List Text) (r : Readiness)
    → (assess premises reviewed ≡ ok r)
      ↔ ((is_admissible reviewed premises ≡ true) × (verdict premises ≡ r))
unfolding assess
assess_iff premises reviewed r = (
  λ h.
      let (admitted, same) = assess_from-ok reviewed [] (is_empty premises) false premises r h in
      (ground arith, same),
  λ (admitted, same).
      assess_from-admits reviewed [] (is_empty premises) false premises
        (ground (arith, is_apart-nil (ids_of premises)))
      ∙ ap ok same,
)

any_middle :
    (before after : List Premise) (p : Premise)
    → is_empty p.refutes ≡ false
    → any (λ p. not (is_empty p.refutes)) (before ++ p ∷ after) ≡ true
any_middle [] after p h = ground arith
any_middle (q ∷ before) after p h = ground (arith, any_middle before after p h)

-- Evidence that refutes a premise decides the result, whatever else is missing or supported.
pub assess-refuted :
    (before after : List Premise) (p : Premise) (reviewed : List Text) (r : Readiness)
    → is_empty p.refutes ≡ false
    → assess (before ++ p ∷ after) reviewed ≡ ok r
    → r ≡ conflicting_evidence
assess-refuted before after p reviewed r refuted h =
    let (_, same) = (assess_iff (before ++ p ∷ after) reviewed r).0 h in
    sym same ∙ ground (arith, any_middle before after p refuted)
