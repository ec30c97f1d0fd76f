-- ===== src/EvidenceClosure/Covers.antt =====
-- evidence_closure/evaluation.rs: what a contract that is covered has.
use innen.Common.{
  ℕ, ◌≤◌, ◌≡◌, refl, sym, ap, subst, true, false, some, List, [], length, contains, nat_eq, list_eq,
  Outcome, ok, err, panic, >>=-eq-ok, ok-injective, map_err, map_err-eq-ok, All, inl, inr,
  Bool-cases, Option-cases, is_empty, not,
}
use innen.Common.Text.{Text}
use innen.Common.Json.{Json}
use innen.Common.Sets.{Set}
use innen.Common.Dicts.{lookup_text}
use innen.Graph.Replay.{find_node}
use innen.Contract.{Contract, validate}
use innen.ContextSelection.Graph.{
  Float, SelectionError, facts_infeasible, search_limit, invalid, budget_insufficient, Selection,
  ContextGraph, new,
}
use innen.ContextSelection.Closure.{IsWellFormed}
use innen.ContextSelection.Construct.{new_lem}
use innen.ContextSelection.Facts.{PacketCost, price, select_facts_by}
use innen.ContextSelection.Facts.Decides.{select_facts_exact}
use innen.EvidenceClosure.Snapshot.{Snapshot, Host, snapshot}
use innen.EvidenceClosure.Closure.{Alternative, eligible}
use innen.EvidenceClosure.Evaluation.{
  evidence_of, Output, Packet, covered, Collected, EvaluateError, bad_contract, bad_journal,
  bad_selection, map_ok, names_of, facts_of, option_ids, packet, packet_cost, answer, cover,
  resolve, collect, evaluate, unit_nodes,
}
use innen.EvidenceClosure.Options.{Supplied, collect-Supplied}
use innen.EvidenceClosure.Choice.{close_facts-Holds}
use innen.EvidenceClosure.Names.{map_ok-again, names_of-again, names_of-contains}
use innen.EvidenceClosure.Supports.{
  Supports, facts_of-IsSorted, facts_of-Supports, Supplied-Sound, option_ids-eligible,
}

module _ (host : Host) (c : Contract) (s : Snapshot) where
  -- The packet of a covered contract: its tokens are as many as it says and within the budget, every id in
  -- it is eligible, and every fact of the contract has an admitted closure within it.
  pub record IsCovering (tokens : Json → Outcome Text ℕ) (p : Packet) : Type 0 where
    pub selected : List Text
    pub options : List (List Alternative)
    pub made : packet host c s {E = SelectionError} options selected ≡ ok p.content
    pub counted : tokens p.content ≡ ok p.tokens
    pub same_budget : p.budget ≡ c.budget_tokens
    pub within : p.tokens ≤ c.budget_tokens
    pub admitted : (v : Text) → contains selected v ≡ true → eligible host c s v ≡ ok tt
    pub supported : All (Supports host c s selected) c.facts

  module _ (float : Float) (tokens : Json → Outcome Text ℕ) where
    evidence_of-again :
        (id : Text) (j : Json)
        → evidence_of host c s {E = EvaluateError} id ≡ ok j
        → evidence_of host c s {E = SelectionError} id ≡ ok j
    unfolding evidence_of
    evidence_of-again id j h = elim (Option-cases (find_node id s.graph.nodes)) [
      | inl out ↦ absurd (cc (rw (out, evidence_of) at h))
      | inr (node, found) ↦ elim (Option-cases (lookup_text id c.sources)) [
        | inl out ↦ absurd (cc (rw (found, out, evidence_of) at h))
        | inr (grant, granted) ↦
            let h' = rw (found, granted, evidence_of) at h in
            rw (found, granted, evidence_of) (ap ok (ok-injective h'))
      ]
    ]

    packet-again :
        (options : List (List Alternative)) (names : List Text) {p : Json}
        → packet host c s {E = EvaluateError} options names ≡ ok p
        → packet host c s {E = SelectionError} options names ≡ ok p
    unfolding packet
    packet-again options names h =
        let (evidence, got, last) =
          >>=-eq-ok (map_ok (evidence_of host c s {E = EvaluateError}) names) _ h in
        rw
          (map_ok-again (evidence_of host c s {E = EvaluateError})
            (evidence_of host c s {E = SelectionError}) names evidence_of-again got)
          (ap ok (ok-injective last))

    answer-covered :
        (ids : List Text) (col : Collected) (m : Outcome SelectionError Selection) (out : Output)
        → answer host c s ids col m ≡ ok out
        → out.resolution ≡ covered
        → (sel : Selection) × (m ≡ ok sel)
          × ((names : List Text) × (names_of {E = EvaluateError} ids sel.selected ≡ ok names)
              × ((content : Json) × (packet host c s {E = EvaluateError} col.options names
                    ≡ ok content)
                  × (out.packet
                      ≡ some (record {
                        content = content;
                        tokens = sel.cost;
                        budget = c.budget_tokens;
                      }))))
    unfolding answer
    answer-covered ids col (ok sel) out h e =
        let (names, named, h1) = >>=-eq-ok (names_of {E = EvaluateError} ids sel.selected) _ h in
        let (content, made, h2) =
          >>=-eq-ok (packet host c s {E = EvaluateError} col.options names) _ h1 in
        (sel, refl, (names, named, (content, made, ap (λ o. o.packet) (sym (ok-injective h2)))))
    answer-covered ids col (err (facts_infeasible budget)) out h e =
        absurd (cc (ap (λ o. o.resolution) (ok-injective h)))
    answer-covered ids col (err (search_limit limit)) out h e =
        absurd (cc (ap (λ o. o.resolution) (ok-injective h)))
    answer-covered ids col (err (invalid message)) out h e = absurd (cc)
    answer-covered ids col (err (budget_insufficient required budget)) out h e = absurd (cc)
    answer-covered ids col panic out h e = absurd (cc)

    new-IsWellFormed :
        (n : ℕ) (g : ContextGraph float.F)
        → map_err bad_selection (new float (unit_nodes float 0 n) []) ≡ ok g
        → IsWellFormed g
    new-IsWellFormed n g h =
        let (_, _, wf, _) =
          new_lem float (unit_nodes float 0 n) [] g
            (map_err-eq-ok bad_selection (new float (unit_nodes float 0 n) []) h) in
        wf

    priced_lem :
        {F : Type 0} (g : ContextGraph F) (f : PacketCost) (budget limit : ℕ) (t : Set) (n : ℕ)
        → price g (some f) budget limit true t ≡ ok n
        → f t ≡ ok n
    unfolding price
    priced_lem g f budget limit t n h = h

    counted_lem :
        (ids : List Text) (options : List (List Alternative)) (t : Set) (n : ℕ) {names : List Text}
        {content : Json}
        → names_of {E = EvaluateError} ids t ≡ ok names
        → packet host c s {E = EvaluateError} options names ≡ ok content
        → packet_cost host c s tokens ids options t ≡ ok n
        → tokens content ≡ ok n
    unfolding packet_cost
    counted_lem ids options t n {names} {content} named made h =
        let again = names_of-again {D = SelectionError} ids t named in
        let packed = packet-again options names made in
        map_err-eq-ok invalid (tokens content) (rw (again, packed, packet_cost) at h)

    cover-IsCovering :
        (col : Collected) (out : Output)
        → Supplied host c s c.facts col.options
        → cover host c s float tokens col ≡ ok out
        → out.resolution ≡ covered
        → (p : Packet) × (out.packet ≡ some p) × IsCovering tokens p
    unfolding cover select_facts_by
    cover-IsCovering col out supplied h e =
        let ids = option_ids [] col.options in
        let cost = packet_cost host c s tokens ids col.options in
        let nodes = unit_nodes float 0 (length ids) in
        let (g, built, h1) = >>=-eq-ok (map_err bad_selection (new float nodes [])) _ h in
        let (facts, listed, h2) = >>=-eq-ok (facts_of ids c.facts col.options) _ h1 in
        let (sel, chose, (names, named, (content, made, shown))) =
          answer-covered ids col (select_facts_by g c.budget_tokens facts c.search_limit cost) out
            h2 e in
        let (closed, closing, best) =
          select_facts_exact g (some cost) c.budget_tokens c.search_limit facts sel chose in
        let held =
          close_facts-Holds g (new-IsWellFormed (length ids) g built) [] facts closed
            (facts_of-IsSorted ids c.facts col.options listed) closing best.combination in
        (
          record { content = content; tokens = sel.cost; budget = c.budget_tokens },
          shown,
          record {
            selected = names;
            options = col.options;
            made = packet-again col.options names made;
            counted = counted_lem ids col.options sel.selected sel.cost named made (
                priced_lem g cost c.budget_tokens c.search_limit sel.selected sel.cost best.priced);
            same_budget = refl;
            within = best.within;
            admitted = λ v m.
                option_ids-eligible host c s [] col.options
                  (Supplied-Sound host c s c.facts col.options supplied) (λ u k. absurd (cc k)) v
                  (names_of-contains ids sel.selected v named m);
            supported =
                facts_of-Supports host c s ids sel.selected c.facts col.options named supplied
                  listed held;
          },
        )

resolved :
    (host : Host) (c : Contract) (s : Snapshot) (float : Float) (tokens : Json → Outcome Text ℕ)
    (col : Collected) (out : Output)
    → Supplied host c s c.facts col.options
    → resolve host c s float tokens col ≡ ok out
    → out.resolution ≡ covered
    → (p : Packet) × (out.packet ≡ some p) × IsCovering host c s tokens p
unfolding resolve
resolved host c s float tokens col out supplied h e = elim (Bool-cases col.conflict) [
  | inl clash ↦ absurd (cc (ap (λ o. o.resolution) (ok-injective (rw (clash, resolve) at h))))
  | inr calm ↦ elim (Bool-cases (not (is_empty col.missing))) [
    | inl lacking ↦
        absurd (cc (ap (λ o. o.resolution) (ok-injective (rw (calm, lacking, resolve) at h))))
    | inr full ↦
        cover-IsCovering host c s float tokens col out supplied (rw (calm, full, resolve) at h) e
  ]
]

-- A contract that is evaluated as covered has a packet whose tokens are as many as the output says and
-- within the budget, whose ids are all eligible in the snapshot, and which holds, for every fact, the
-- admitted closure of one of its root sets.
pub evaluate-IsCovering :
    (host : Host) (float : Float) (tokens : Json → Outcome Text ℕ) (raw : List ℕ) (c : Contract)
    (q : Text) (out : Output)
    → evaluate host float tokens raw c q ≡ ok out
    → out.resolution ≡ covered
    → (s : Snapshot) × (snapshot host raw c.as_of ≡ ok s)
      × ((p : Packet) × (out.packet ≡ some p) × IsCovering host c s tokens p)
unfolding evaluate resolve
evaluate-IsCovering host float tokens raw c q out h e =
    let (_, _, h1) = >>=-eq-ok (map_err bad_contract (validate c q)) _ h in
    let (s, taken, h2) = >>=-eq-ok (map_err bad_journal (snapshot host raw c.as_of)) _ h1 in
    let start : Collected = record {
      options = [];
      rejected = [];
      missing = [];
      conflict = false;
    } in
    let (col, collected, h3) = >>=-eq-ok (collect host c s c.facts start) _ h2 in
    let (new', same, supplied) = collect-Supplied host c s c.facts start collected in
    (
      s,
      map_err-eq-ok bad_journal (snapshot host raw c.as_of) taken,
      resolved host c s float tokens col out (subst (Supplied host c s c.facts) (sym same) supplied)
          h3 e,
    )
