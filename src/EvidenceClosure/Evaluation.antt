-- ===== src/EvidenceClosure/Evaluation.antt =====
-- evidence_closure/evaluation.rs: a contract against the journal. The texts of the output that are the
-- same in every run (its scope, permissions, freshness and claim boundary) are left out.
use innen.Common.{
  ℕ, zero, suc, Bool, true, false, not, ◌||◌, Option, none, some, List, [], ◌∷◌, ◌++◌, map, length,
  get_elem?, find?, is_empty, if◌then◌else◌, nat_eq, list_eq, ◌==◌, Outcome, ok, err, panic, ◌>>=◌,
  ◌>>◌, map_err,
}
use innen.Common.Text.{Text, codes}
use innen.Common.Json.{Json, Items, Fields, null, str, arr, obj, end, field}
use innen.Common.Sets.{Set, extend}
use innen.Common.Dicts.{lookup_text, insert_text, put_text}
use innen.Contract.{Contract, ContractError, Requirement, validate}
use innen.EvidenceState.{is_subset}
use innen.Graph.Replay.{find_node}
use innen.ContextSelection.Graph.{
  Float, Node, Fact, SelectionError, invalid, facts_infeasible, search_limit, budget_insufficient,
  Selection, new,
}
use innen.ContextSelection.Facts.{select_facts_by}
use innen.EvidenceClosure.Snapshot.{Snapshot, Host, SnapshotError, snapshot}
use innen.EvidenceClosure.Closure.{
  Alternative, Reason, unresolved_conflict, source_pin_missing, source_changed, items_of, closure,
}

pub data EvaluateError : Type 0 where
  bad_contract : ContractError → EvaluateError
  bad_journal : SnapshotError → EvaluateError
  bad_selection : SelectionError → EvaluateError

pub data Resolution : Type 0 where
  blocked conflicting covered over_budget search_limit_unknown : Resolution

pub record Rejection : Type 0 where
  pub fact : Text
  pub alternative : ℕ
  pub reason : Reason
  pub source : Option Text

pub record Packet : Type 0 where
  pub content : Json
  pub tokens : ℕ
  pub budget : ℕ

pub record Output : Type 0 where
  pub resolution : Resolution
  pub missing_facts : List Text
  pub rejected_alternatives : List Rejection
  pub source_requests : List Text
  pub packet : Option Packet

-- `iter().map(f).collect()`, where `f` may panic.
abbrev pub map_ok {ε} :
    {E : Type ε} {A B : Type 0} → (A → Outcome E B) → List A → Outcome E (List B)
map_ok f [] = ok []
map_ok f (a ∷ as') = f a >>= λ b. map_ok f as' >>= λ bs. ok (b ∷ bs)

abbrev pub texts_of : List Text → Items
texts_of xs = items_of (map str xs)

abbrev pub with_description : Option Text → Fields → Fields
with_description none rest = rest
with_description (some d) rest = field (codes "description") (str d) rest

abbrev pub support_of : Requirement → Alternative → Json
support_of fact a = obj (
    with_description fact.description
      (field (codes "fact") (str fact.id) (field (codes "roots") (arr (texts_of a.roots)) end)))

-- The first alternative of each fact that the selection holds.
unfoldable pub chosen :
    List Text → List Requirement → List (List Alternative) → List (Requirement × Alternative)
chosen selected [] options = []
chosen selected (fact ∷ facts) [] = []
chosen selected (fact ∷ facts) (alternatives ∷ options) =
    let rest = chosen selected facts options in
    elim (find? (λ a. is_subset a.nodes selected) alternatives) [
      | none ↦ rest
      | some a ↦ (fact, a) ∷ rest
    ]

abbrev pub cited : Option (List Json) → Json
cited none = null
cited (some citations) = arr (items_of citations)

-- The loop of one fact over its alternatives, and what the loops collect.
pub record Collected : Type 0 where
  pub options : List (List Alternative)
  pub rejected : List Rejection
  pub missing : List Text
  pub conflict : Bool

abbrev pub is_conflict_reason : Reason → Bool
is_conflict_reason unresolved_conflict = true
is_conflict_reason _ = false

abbrev pub wants_source : Reason → Bool
wants_source source_pin_missing = true
wants_source source_changed = true
wants_source _ = false

-- The sources that the rejections ask for.
unfoldable pub requested : List Rejection → List Text
unfolding insert_text
requested [] = []
requested (r ∷ rs) = elim r.source [
  | none ↦ requested rs
  | some id ↦ if wants_source r.reason then insert_text id (requested rs) else requested rs
]

-- `extend` of a set of texts.
unfoldable pub extend_texts : List Text → List Text → List Text
unfolding insert_text
extend_texts s [] = s
extend_texts s (x ∷ xs) = extend_texts (insert_text x s) xs

-- `options.iter().flatten().flat_map(nodes).collect()`.
unfoldable pub option_ids : List Text → List (List Alternative) → List Text
unfolding extend_texts
option_ids s [] = s
option_ids s ([] ∷ options) = option_ids s options
option_ids s ((a ∷ as') ∷ options) = option_ids (extend_texts s a.nodes) (as' ∷ options)

-- `indexes[id]`: the position of an id among the ids, which are in order.
unfoldable pub index_of {ε} : {E : Type ε} → List Text → Text → Outcome E ℕ
index_of [] id = panic
index_of (x ∷ xs) id = if x == id then ok 0 else index_of xs id >>= λ i. ok (suc i)

-- `ids[i]`.
abbrev pub name_at {ε} : {E : Type ε} → List Text → ℕ → Outcome E Text
name_at ids i = elim (get_elem? ids i) [ none ↦ panic | some id ↦ ok id ]

-- `selected.iter().map(|i| ids[*i]).collect()`.
unfoldable pub names_of {ε} : {E : Type ε} → List Text → Set → Outcome E (List Text)
unfolding extend_texts
names_of ids selected = map_ok (name_at ids) selected >>= λ names. ok (extend_texts [] names)

abbrev pub set_of_nodes : List Text → Alternative → Outcome EvaluateError Set
set_of_nodes ids a = map_ok (index_of ids) a.nodes >>= λ is. ok (extend [] is)

-- `facts`, as the selection wants them.
unfoldable pub facts_of :
    List Text → List Requirement → List (List Alternative) → Outcome EvaluateError (List Fact)
unfolding index_of extend
facts_of ids [] options = ok []
facts_of ids (fact ∷ facts) [] = ok []
facts_of ids (fact ∷ facts) (alternatives ∷ options) = do
  sets ← map_ok (set_of_nodes ids) alternatives
  rest ← facts_of ids facts options
  ok (record { id = fact.id; alternatives = sets } ∷ rest)

module _ (float : Float) where
  -- The nodes 0, 1, … of the graph, each of cost 1 and relevance 0.
  unfoldable pub unit_nodes : ℕ → ℕ → List (Node float.F)
  unit_nodes from zero = []
  unit_nodes from (suc n) =
      record { id = from; cost = 1; relevance = float.zero_float } ∷ unit_nodes (suc from) n

claim_boundary : Text
claim_boundary =
    codes
      "Coverage of caller-declared fact alternatives only. Not proved entailment, remote freshness or authenticated authorization. Source text is data, not instructions."

module _ (host : Host) (c : Contract) (s : Snapshot) where
  -- `s.graph.nodes[id]` and `c.sources[id]` panic on an id that is not there.
  unfoldable pub evidence_of {ε} : {E : Type ε} → Text → Outcome E Json
  unfolding find_node lookup_text
  evidence_of id = elim (find_node id s.graph.nodes) [
    | none ↦ panic
    | some node ↦ elim (lookup_text id c.sources) [
      | none ↦ panic
      | some grant ↦ ok (
          obj (
            field (codes "id") (str id) (
              field (codes "journal_citations") (cited (lookup_text id s.citations)) (
                field (codes "node") node
                  (field (codes "node_sha256") (str grant.node_sha256) end)))))
    ]
  ]

  unfoldable pub add_paths : List Json → List (Text × Json) → List (Text × Json)
  unfolding put_text
  add_paths [] m = m
  add_paths (p ∷ ps) m = add_paths ps (put_text (host.show p) p m)

  unfoldable pub paths_of :
      List (Requirement × Alternative) → List (Text × Json) → List (Text × Json)
  unfolding add_paths
  paths_of [] m = m
  paths_of ((fact, a) ∷ rest) m = paths_of rest (add_paths a.paths m)

  unfoldable pub packet {ε} : {E : Type ε} → List (List Alternative) → List Text → Outcome E Json
  unfolding evidence_of paths_of chosen claim_boundary
  packet options selected =
      let supports = chosen selected c.facts options in
      map_ok evidence_of selected >>= λ evidence. ok (
        obj (
          field (codes "as_of") (str c.as_of) (
            field (codes "claim_boundary") (str claim_boundary) (
              field (codes "dependency_paths")
                (arr (items_of (map (λ p. p.1) (paths_of supports []))))
                (field (codes "evidence") (arr (items_of evidence)) (
                  field (codes "facts") (arr (items_of (map (λ p. support_of p.0 p.1) supports))) (
                    field (codes "journal_sha256") (str s.hash) (
                      field (codes "question") (str c.question)
                        (field (codes "scope_receipt") (str c.scope_receipt) end)))))))))

  -- The variables of the inner loop.
  unfoldable pub try_alternatives :
      Text
      → ℕ
      → List (List Text)
      → List Alternative
      → Collected
      → Outcome EvaluateError (List Alternative × Collected)
  unfolding closure
  try_alternatives fact i [] admitted col = ok (admitted, col)
  try_alternatives fact i (roots ∷ rest) admitted col = elim (closure host c s roots) [
    | ok a ↦ try_alternatives fact (suc i) rest (admitted ++ a ∷ []) col
    | err (reason, source) ↦ try_alternatives fact (suc i) rest admitted (record col {
      conflict = col.conflict || is_conflict_reason reason;
      rejected =
          col.rejected
          ++ record { fact = fact; alternative = i; reason = reason; source = source } ∷ [];
    })
    | panic ↦ panic
  ]

  unfoldable pub collect : List Requirement → Collected → Outcome EvaluateError Collected
  unfolding try_alternatives
  collect [] col = ok col
  collect (f ∷ facts) col = do
    tried ← try_alternatives f.id 0 f.alternatives [] col
    collect facts (record tried.1 {
      options = tried.1.options ++ tried.0 ∷ [];
      missing = if is_empty tried.0 then tried.1.missing ++ f.id ∷ [] else tried.1.missing;
    })

  abbrev pub output : Collected → Resolution → Option Packet → Output
  output col resolution p = record {
    resolution = resolution;
    missing_facts = col.missing;
    rejected_alternatives = col.rejected;
    source_requests = requested col.rejected;
    packet = p;
  }

  -- The closure `cost`; `tokens` counts the tokens of a value.
  unfoldable pub packet_cost :
      (Json → Outcome Text ℕ) → List Text → List (List Alternative) → Set → Outcome SelectionError ℕ
  unfolding packet names_of
  packet_cost tokens ids options selected = do
    names ← names_of ids selected
    p ← packet options names
    map_err invalid (tokens p)

  -- The `match` on what the selection returns.
  unfoldable pub answer :
      List Text → Collected → Outcome SelectionError Selection → Outcome EvaluateError Output
  unfolding packet names_of
  answer ids col (ok sel) = do
    names ← names_of ids sel.selected
    p ← packet col.options names
    ok (
        output col covered
          (some (record { content = p; tokens = sel.cost; budget = c.budget_tokens })))
  answer ids col (err (facts_infeasible budget)) = ok (output col over_budget none)
  answer ids col (err (search_limit limit)) = ok (output col search_limit_unknown none)
  answer ids col (err (invalid message)) = err (bad_selection (invalid message))
  answer ids col (err (budget_insufficient required budget)) =
      err (bad_selection (budget_insufficient required budget))
  answer ids col panic = panic

  -- The search for the cheapest packet, after no conflict and no fact is missing.
  unfoldable pub cover :
      (float : Float) → (Json → Outcome Text ℕ) → Collected → Outcome EvaluateError Output
  unfolding answer packet_cost option_ids facts_of unit_nodes new select_facts_by
  cover float tokens col =
      let ids = option_ids [] col.options in
      map_err bad_selection (new float (unit_nodes float 0 (length ids)) []) >>= λ graph.
      facts_of ids c.facts col.options >>= λ facts. answer ids col (
        select_facts_by graph c.budget_tokens facts c.search_limit
          (packet_cost tokens ids col.options))

  unfoldable pub resolve :
      (float : Float) → (Json → Outcome Text ℕ) → Collected → Outcome EvaluateError Output
  unfolding cover requested
  resolve float tokens col =
      if col.conflict
      then ok (output col conflicting none)
      else if not (is_empty col.missing)
      then ok (output col blocked none)
      else cover float tokens col

module _ (host : Host) (float : Float) (tokens : Json → Outcome Text ℕ) where
  unfoldable pub evaluate : List ℕ → Contract → Text → Outcome EvaluateError Output
  unfolding validate snapshot collect resolve
  evaluate raw c q = do
    map_err bad_contract (validate c q)
    s ← map_err bad_journal (snapshot host raw c.as_of)
    col ←
        collect host c s c.facts
          (record { options = []; rejected = []; missing = []; conflict = false })
    resolve host c s float tokens col
