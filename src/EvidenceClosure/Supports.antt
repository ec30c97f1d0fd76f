-- ===== src/EvidenceClosure/Supports.antt =====
-- evidence_closure/evaluation.rs: what the collected alternatives give to a selection of them.
use innen.Common.{
  ◌≡◌, sym, subst, true, List, [], ◌∷◌, contains, nat_eq, list_eq, ok, >>=-eq-ok, ok-injective, All,
  All-mem, Memᴰ, inl, inr, arith, Bool-cases,
}
use innen.Common.Text.{Text}
use innen.Common.Sets.{Set, IsSorted}
use innen.Contract.{Contract, Requirement}
use innen.ContextSelection.Graph.{Fact}
use innen.EvidenceClosure.Snapshot.{Snapshot, Host}
use innen.EvidenceClosure.Closure.{Alternative, closure, eligible}
use innen.EvidenceClosure.Sound.{closure-IsClosure}
use innen.EvidenceClosure.Evaluation.{
  EvaluateError, map_ok, set_of_nodes, names_of, facts_of, option_ids, extend_texts,
}
use innen.EvidenceClosure.Options.{ComesOf, Supplied}
use innen.EvidenceClosure.Choice.{Holds}
use innen.EvidenceClosure.Names.{
  map_ok-back, contains-names_of, set_of_nodes-IsSorted, contains-extend_texts,
}

sets-IsSorted :
    (ids : List Text) (as' : List Alternative) {sets : List Set}
    → map_ok (set_of_nodes ids) as' ≡ ok sets
    → All IsSorted sets
sets-IsSorted ids [] h = rw (← ok-injective h) tt
sets-IsSorted ids (a ∷ as') h =
    let (t, first, h1) = >>=-eq-ok (set_of_nodes ids a) _ h in
    let (ts, rest, h2) = >>=-eq-ok (map_ok (set_of_nodes ids) as') _ h1 in
    rw (← ok-injective h2) (set_of_nodes-IsSorted ids a first, sets-IsSorted ids as' rest)

pub facts_of-IsSorted :
    (ids : List Text) (reqs : List Requirement) (options : List (List Alternative))
    {facts : List Fact}
    → facts_of ids reqs options ≡ ok facts
    → All (λ f. All IsSorted f.alternatives) facts
unfolding facts_of
facts_of-IsSorted ids [] options h = rw (← ok-injective h) tt
facts_of-IsSorted ids (r ∷ reqs) [] h = rw (← ok-injective h) tt
facts_of-IsSorted ids (r ∷ reqs) (as' ∷ options) h =
    let (sets, first, h1) = >>=-eq-ok (map_ok (set_of_nodes ids) as') _ h in
    let (rest, later, h2) = >>=-eq-ok (facts_of ids reqs options) _ h1 in
    rw (← ok-injective h2) (sets-IsSorted ids as' first, facts_of-IsSorted ids reqs options later)

module _ (host : Host) (c : Contract) (s : Snapshot) where
  -- One of the fact's root sets has an admitted closure that is within the selected ids.
  abbrev pub Supports : List Text → Requirement → Type 0
  Supports selected fact =
      (roots : List Text) × Memᴰ roots fact.alternatives
      × ((a : Alternative) × (closure host c s roots ≡ ok a)
          × ((v : Text) → contains a.nodes v ≡ true → contains selected v ≡ true))

  pub facts_of-Supports :
      (ids : List Text) (t : Set) {names : List Text} (reqs : List Requirement)
      (options : List (List Alternative)) {facts : List Fact}
      → names_of {E = EvaluateError} ids t ≡ ok names
      → Supplied host c s reqs options
      → facts_of ids reqs options ≡ ok facts
      → All (Holds t) facts
      → All (Supports names) reqs
  unfolding facts_of
  facts_of-Supports ids t [] [] named supplied h held = tt
  facts_of-Supports ids t [] (as' ∷ options) named supplied h held = absurd supplied
  facts_of-Supports ids t (r ∷ reqs) [] named supplied h held = absurd supplied
  facts_of-Supports ids t {names} (r ∷ reqs) (as' ∷ options) {facts} named supplied h held =
      let (sets, first, h1) = >>=-eq-ok (map_ok (set_of_nodes ids) as') _ h in
      let (rest, later, h2) = >>=-eq-ok (facts_of ids reqs options) _ h1 in
      let (held', helds) = subst (All (Holds t)) (sym (ok-injective h2)) held in
      let (is, m, sub) = held' in
      let (a, numbered, there) = map_ok-back (set_of_nodes ids) as' first m in
      let (roots, among, closed) = All-mem (ComesOf host c s r.alternatives) as' supplied.0 there in
      (
        (roots, among, (a, closed, contains-names_of ids t a numbered named sub)),
        facts_of-Supports ids t reqs options named supplied.1 later helds,
      )

  abbrev pub Sound : Alternative → Type 0
  Sound a = (v : Text) → contains a.nodes v ≡ true → eligible host c s v ≡ ok tt

  ComesOf-Sound :
      (rootsets : List (List Text)) (as' : List Alternative)
      → All (ComesOf host c s rootsets) as'
      → All Sound as'
  ComesOf-Sound rootsets [] h = tt
  ComesOf-Sound rootsets (a ∷ as') ((roots, _, closed), rest) =
      ((closure-IsClosure host c s roots closed).admitted, ComesOf-Sound rootsets as' rest)

  pub Supplied-Sound :
      (reqs : List Requirement) (options : List (List Alternative))
      → Supplied host c s reqs options
      → All (All Sound) options
  Supplied-Sound [] [] h = tt
  Supplied-Sound [] (as' ∷ options) h = absurd h
  Supplied-Sound (r ∷ reqs) [] h = absurd h
  Supplied-Sound (r ∷ reqs) (as' ∷ options) h =
      (ComesOf-Sound r.alternatives as' h.0, Supplied-Sound reqs options h.1)

  -- Every id of sound alternatives is eligible.
  pub option_ids-eligible :
      (sofar : List Text) (options : List (List Alternative))
      → All (All Sound) options
      → ((v : Text) → contains sofar v ≡ true → eligible host c s v ≡ ok tt)
      → (v : Text) → contains (option_ids sofar options) v ≡ true
      → eligible host c s v ≡ ok tt
  unfolding option_ids
  option_ids-eligible sofar [] sound known v m = known v m
  option_ids-eligible sofar ([] ∷ options) sound known v m =
      option_ids-eligible sofar options sound.1 known v m
  option_ids-eligible sofar ((a ∷ as') ∷ options) sound known v m =
      option_ids-eligible (extend_texts sofar a.nodes) (as' ∷ options) (sound.0.1, sound.1)
        (λ u k. elim (Bool-cases (contains a.nodes u)) [
          | inl new' ↦ sound.0.0 u new'
          | inr old ↦ known u (ground (arith, contains-extend_texts sofar a.nodes u))
        ])
        v m
