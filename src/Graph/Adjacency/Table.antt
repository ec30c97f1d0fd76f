-- ===== src/Graph/Adjacency/Table.antt =====
-- graph/adjacency.rs: `validate` against the rules of the table, which stand here a second time.
use innen.Common.{
  ◌≡◌, ◌↔◌, refl, true, false, ◌&&◌, Option, none, some, List, [], ◌∷◌, arith, nat_eq, list_eq,
  pair_eq, ◌==◌, ==_iff, Bool-cases, inl, inr, ◌⊎◌, All,
}
use innen.Common.Text.{Text, codes, is_blank, starts_with, contains_text}
use innen.Graph.Vocabulary.{
  NodeType, EdgeType, conversation, task, decision, experiment, dataset, model, artifact, project,
  product, belongs_to, follows_up, supports, evaluates, discussed_in, derived_from, supersedes,
  located_at, originated_at, contains_edge, part_of, informs, node_eq, edge_eq, node_beq, edge_beq,
}
use innen.Graph.Adjacency.{
  Endpoint, node, uri, is_uri_shape, locates, node_rows, is_uri_row, has_row, is_node_row,
  custom_party, has_valid_provenance,
}

-- The rows between nodes.
pub data TableRow : NodeType → EdgeType → NodeType → Type 0 where
  conversation_belongs_to_project : TableRow conversation belongs_to project
  task_belongs_to_project : TableRow task belongs_to project
  decision_belongs_to_project : TableRow decision belongs_to project
  experiment_belongs_to_project : TableRow experiment belongs_to project
  artifact_belongs_to_project : TableRow artifact belongs_to project
  conversation_follows_up_conversation : TableRow conversation follows_up conversation
  conversation_follows_up_task : TableRow conversation follows_up task
  task_follows_up_task : TableRow task follows_up task
  task_follows_up_decision : TableRow task follows_up decision
  task_follows_up_conversation : TableRow task follows_up conversation
  task_follows_up_artifact : TableRow task follows_up artifact
  decision_follows_up_task : TableRow decision follows_up task
  decision_follows_up_decision : TableRow decision follows_up decision
  decision_supports_task : TableRow decision supports task
  decision_supports_decision : TableRow decision supports decision
  experiment_supports_task : TableRow experiment supports task
  experiment_supports_decision : TableRow experiment supports decision
  experiment_evaluates_product : TableRow experiment evaluates product
  experiment_evaluates_dataset : TableRow experiment evaluates dataset
  experiment_evaluates_model : TableRow experiment evaluates model
  experiment_discussed_in_conversation : TableRow experiment discussed_in conversation
  decision_discussed_in_conversation : TableRow decision discussed_in conversation
  model_derived_from_dataset : TableRow model derived_from dataset
  model_derived_from_model : TableRow model derived_from model
  model_derived_from_conversation : TableRow model derived_from conversation
  dataset_derived_from_dataset : TableRow dataset derived_from dataset
  dataset_derived_from_model : TableRow dataset derived_from model
  dataset_derived_from_conversation : TableRow dataset derived_from conversation
  artifact_derived_from_dataset : TableRow artifact derived_from dataset
  artifact_derived_from_model : TableRow artifact derived_from model
  artifact_derived_from_conversation : TableRow artifact derived_from conversation
  artifact_supersedes_artifact : TableRow artifact supersedes artifact
  decision_supersedes_decision : TableRow decision supersedes decision
  artifact_contains_edge_artifact : TableRow artifact contains_edge artifact
  artifact_part_of_artifact : TableRow artifact part_of artifact
  product_informs_project : TableRow product informs project
  experiment_informs_project : TableRow experiment informs project

-- The edges that lead to a URI, and the kinds of node that they start from.
pub data Locates : EdgeType → Type 0 where
  by_place : Locates located_at
  by_origin : Locates originated_at

pub data HasPlace : NodeType → Type 0 where
  dataset_place : HasPlace dataset
  model_place : HasPlace model
  artifact_place : HasPlace artifact

-- A party of the caller's own making.
pub data IsCustomParty : NodeType → EdgeType → Endpoint → Type 0 where
  custom_from :
      {s : Text} {edge : EdgeType} {to : Endpoint} → IsCustomParty (NodeType.custom s) edge to
  custom_edge :
      {from : NodeType} {s : Text} {to : Endpoint} → IsCustomParty from (EdgeType.custom s) to
  custom_to :
      {from : NodeType} {edge : EdgeType} {s : Text}
      → IsCustomParty from edge (node (NodeType.custom s))

-- An absolute path, or a text with a scheme.
abbrev pub IsUri : Text → Type 0
IsUri u = (starts_with u (codes "/") ≡ true) ⊎ (contains_text u (codes "://") ≡ true)

-- Someone vouches, in words.
abbrev pub IsVouched : Option Text → Type 0
IsVouched provenance = (p : Text) × (provenance ≡ some p) × (is_blank p ≡ false)

-- Each row of the code's table is a row here.
rows-TableRow : All (λ (r : NodeType × EdgeType × NodeType). TableRow r.0 r.1 r.2) node_rows
rows-TableRow = (
  conversation_belongs_to_project,
  (
    task_belongs_to_project,
    (
      decision_belongs_to_project,
      (
        experiment_belongs_to_project,
        (
          artifact_belongs_to_project,
          (
            conversation_follows_up_conversation,
            (
              conversation_follows_up_task,
              (
                task_follows_up_task,
                (
                  task_follows_up_decision,
                  (
                    task_follows_up_conversation,
                    (
                      task_follows_up_artifact,
                      (
                        decision_follows_up_task,
                        (
                          decision_follows_up_decision,
                          (
                            decision_supports_task,
                            (
                              decision_supports_decision,
                              (
                                experiment_supports_task,
                                (
                                  experiment_supports_decision,
                                  (
                                    experiment_evaluates_product,
                                    (
                                      experiment_evaluates_dataset,
                                      (
                                        experiment_evaluates_model,
                                        (
                                          experiment_discussed_in_conversation,
                                          (
                                            decision_discussed_in_conversation,
                                            (
                                              model_derived_from_dataset,
                                              (
                                                model_derived_from_model,
                                                (
                                                  model_derived_from_conversation,
                                                  (
                                                    dataset_derived_from_dataset,
                                                    (
                                                      dataset_derived_from_model,
                                                      (
                                                        dataset_derived_from_conversation,
                                                        (
                                                          artifact_derived_from_dataset,
                                                          (
                                                            artifact_derived_from_model,
                                                            (
                                                            artifact_derived_from_conversation,
                                                            (
                                                            artifact_supersedes_artifact,
                                                            (
                                                            decision_supersedes_decision,
                                                            (
                                                            artifact_contains_edge_artifact,
                                                            (
                                                            artifact_part_of_artifact,
                                                            (
                                                            product_informs_project,
                                                            (experiment_informs_project, tt),
                                                            ),
                                                            ),
                                                            ),
                                                            ),
                                                            ),
                                                            ),
                                                          ),
                                                        ),
                                                      ),
                                                    ),
                                                  ),
                                                ),
                                              ),
                                            ),
                                          ),
                                        ),
                                      ),
                                    ),
                                  ),
                                ),
                              ),
                            ),
                          ),
                        ),
                      ),
                    ),
                  ),
                ),
              ),
            ),
          ),
        ),
      ),
    ),
  ),
)

has_row-TableRow :
    (rows : List (NodeType × EdgeType × NodeType)) (from : NodeType) (edge : EdgeType)
    (to : NodeType)
    → All (λ (r : NodeType × EdgeType × NodeType). TableRow r.0 r.1 r.2) rows
    → has_row rows from edge to ≡ true
    → TableRow from edge to
unfolding has_row
has_row-TableRow [] from edge to all h = cc
has_row-TableRow ((f, e, t) ∷ rows) from edge to all h =
    elim (Bool-cases (f == from && e == edge && t == to)) [
      | inl here' ↦
          let f_same = (==_iff f from).0 (ground arith) in
          let e_same = (==_iff e edge).0 (ground arith) in
          let t_same = (==_iff t to).0 (ground arith) in rw (← f_same, ← e_same, ← t_same) all.0
      | inr other ↦ has_row-TableRow rows from edge to all.1 (ground arith)
    ]

TableRow-has_row :
    {f : NodeType} {e : EdgeType} {t : NodeType} → TableRow f e t → has_row node_rows f e t ≡ true
unfolding node_beq edge_beq has_row
TableRow-has_row conversation_belongs_to_project = refl
TableRow-has_row task_belongs_to_project = refl
TableRow-has_row decision_belongs_to_project = refl
TableRow-has_row experiment_belongs_to_project = refl
TableRow-has_row artifact_belongs_to_project = refl
TableRow-has_row conversation_follows_up_conversation = refl
TableRow-has_row conversation_follows_up_task = refl
TableRow-has_row task_follows_up_task = refl
TableRow-has_row task_follows_up_decision = refl
TableRow-has_row task_follows_up_conversation = refl
TableRow-has_row task_follows_up_artifact = refl
TableRow-has_row decision_follows_up_task = refl
TableRow-has_row decision_follows_up_decision = refl
TableRow-has_row decision_supports_task = refl
TableRow-has_row decision_supports_decision = refl
TableRow-has_row experiment_supports_task = refl
TableRow-has_row experiment_supports_decision = refl
TableRow-has_row experiment_evaluates_product = refl
TableRow-has_row experiment_evaluates_dataset = refl
TableRow-has_row experiment_evaluates_model = refl
TableRow-has_row experiment_discussed_in_conversation = refl
TableRow-has_row decision_discussed_in_conversation = refl
TableRow-has_row model_derived_from_dataset = refl
TableRow-has_row model_derived_from_model = refl
TableRow-has_row model_derived_from_conversation = refl
TableRow-has_row dataset_derived_from_dataset = refl
TableRow-has_row dataset_derived_from_model = refl
TableRow-has_row dataset_derived_from_conversation = refl
TableRow-has_row artifact_derived_from_dataset = refl
TableRow-has_row artifact_derived_from_model = refl
TableRow-has_row artifact_derived_from_conversation = refl
TableRow-has_row artifact_supersedes_artifact = refl
TableRow-has_row decision_supersedes_decision = refl
TableRow-has_row artifact_contains_edge_artifact = refl
TableRow-has_row artifact_part_of_artifact = refl
TableRow-has_row product_informs_project = refl
TableRow-has_row experiment_informs_project = refl

pub is_node_row_iff :
    (from : NodeType) (edge : EdgeType) (to : NodeType)
    → (is_node_row from edge to ≡ true) ↔ TableRow from edge to
unfolding is_node_row
is_node_row_iff from edge to =
    (has_row-TableRow node_rows from edge to rows-TableRow, TableRow-has_row)

-- The rows that lead to a URI, for edges that do.
pub is_uri_row-Locates :
    (from : NodeType) (edge : EdgeType) → is_uri_row from edge ≡ true → HasPlace from × Locates edge
unfolding is_uri_row node_beq edge_beq
is_uri_row-Locates dataset located_at h = (dataset_place, by_place)
is_uri_row-Locates dataset originated_at h = (dataset_place, by_origin)
is_uri_row-Locates model located_at h = (model_place, by_place)
is_uri_row-Locates model originated_at h = (model_place, by_origin)
is_uri_row-Locates artifact located_at h = (artifact_place, by_place)
is_uri_row-Locates artifact originated_at h = (artifact_place, by_origin)
is_uri_row-Locates from edge h = cc

pub HasPlace-is_uri_row :
    {from : NodeType} {edge : EdgeType} → HasPlace from → Locates edge → is_uri_row from edge ≡ true
unfolding is_uri_row node_beq edge_beq
HasPlace-is_uri_row dataset_place by_place = refl
HasPlace-is_uri_row dataset_place by_origin = refl
HasPlace-is_uri_row model_place by_place = refl
HasPlace-is_uri_row model_place by_origin = refl
HasPlace-is_uri_row artifact_place by_place = refl
HasPlace-is_uri_row artifact_place by_origin = refl

pub locates_iff : (edge : EdgeType) → (locates edge ≡ true) ↔ Locates edge
unfolding locates
locates_iff edge = (there edge, back)
  where
    there : (edge : EdgeType) → locates edge ≡ true → Locates edge
    there located_at h = by_place
    there originated_at h = by_origin
    there edge h = cc

    back : {edge : EdgeType} → Locates edge → locates edge ≡ true
    back by_place = refl
    back by_origin = refl

pub custom_party_iff :
    (from : NodeType) (edge : EdgeType) (to : Endpoint)
    → (custom_party from edge to ≡ true) ↔ IsCustomParty from edge to
unfolding custom_party
custom_party_iff from edge to = (there from edge to, back)
  where
    there :
        (from : NodeType) (edge : EdgeType) (to : Endpoint)
        → custom_party from edge to ≡ true
        → IsCustomParty from edge to
    there (NodeType.custom s) edge to h = custom_from
    there from (EdgeType.custom s) to h = custom_edge
    there from edge (node (NodeType.custom s)) h = custom_to
    there from edge (node to) h = cc
    there from edge (uri u) h = cc

    back :
        {from : NodeType} {edge : EdgeType} {to : Endpoint}
        → IsCustomParty from edge to
        → custom_party from edge to ≡ true
    back custom_from = refl
    back custom_edge = ground arith
    back custom_to = ground arith

pub is_uri_shape_iff : (u : Text) → (is_uri_shape u ≡ true) ↔ IsUri u
unfolding is_uri_shape
is_uri_shape_iff u = (there u, back u)
  where
    there : (u : Text) → is_uri_shape u ≡ true → IsUri u
    there u h = elim (Bool-cases (starts_with u (codes "/"))) [
      | inl rooted ↦ inl rooted
      | inr other ↦ inr (ground arith)
    ]

    back : (u : Text) → IsUri u → is_uri_shape u ≡ true
    back [] (inl h) = cc
    back [] (inr h) = cc
    back (c ∷ u) (inl h) = ground arith
    back (c ∷ u) (inr h) = ground arith

pub has_valid_provenance_iff :
    (provenance : Option Text) → (has_valid_provenance provenance ≡ true) ↔ IsVouched provenance
has_valid_provenance_iff provenance = (there provenance, back provenance)
  where
    there :
        (provenance : Option Text) → has_valid_provenance provenance ≡ true → IsVouched provenance
    there none h = cc
    there (some p) h = (p, refl, ground arith)

    back :
        (provenance : Option Text) → IsVouched provenance → has_valid_provenance provenance ≡ true
    back provenance (p, e, words) = rw (e, words) refl

has_row-core :
    (rows : List (NodeType × EdgeType × NodeType)) (from : NodeType) (edge : EdgeType)
    (to : NodeType)
    → All (λ (r : NodeType × EdgeType × NodeType). custom_party r.0 r.1 (node r.2) ≡ false) rows
    → has_row rows from edge to ≡ true
    → custom_party from edge (node to) ≡ false
unfolding has_row
has_row-core [] from edge to all h = cc
has_row-core ((f, e, t) ∷ rows) from edge to all h =
    elim (Bool-cases (f == from && e == edge && t == to)) [
      | inl here' ↦
          let f_same = (==_iff f from).0 (ground arith) in
          let e_same = (==_iff e edge).0 (ground arith) in
          let t_same = (==_iff t to).0 (ground arith) in rw (← f_same, ← e_same, ← t_same) all.0
      | inr other ↦ has_row-core rows from edge to all.1 (ground arith)
    ]

-- No party of a row is custom.
pub TableRow-core :
    {from : NodeType} {edge : EdgeType} {to : NodeType}
    → TableRow from edge to
    → custom_party from edge (node to) ≡ false
unfolding custom_party
TableRow-core {from} {edge} {to} row =
    has_row-core node_rows from edge to
      ((
        refl,
        (
          refl,
          (
            refl,
            (
              refl,
              (
                refl,
                (
                  refl,
                  (
                    refl,
                    (
                      refl,
                      (
                        refl,
                        (
                          refl,
                          (
                            refl,
                            (
                              refl,
                              (
                                refl,
                                (
                                  refl,
                                  (
                                    refl,
                                    (
                                      refl,
                                      (
                                        refl,
                                        (
                                          refl,
                                          (
                                            refl,
                                            (
                                              refl,
                                              (
                                                refl,
                                                (
                                                  refl,
                                                  (
                                                    refl,
                                                    (
                                                      refl,
                                                      (
                                                        refl,
                                                        (
                                                          refl,
                                                          (
                                                            refl,
                                                            (
                                                            refl,
                                                            (
                                                            refl,
                                                            (
                                                            refl,
                                                            (
                                                            refl,
                                                            (
                                                            refl,
                                                            (
                                                            refl,
                                                            (refl, (refl, (refl, (refl, tt)))),
                                                            ),
                                                            ),
                                                            ),
                                                            ),
                                                            ),
                                                            ),
                                                          ),
                                                        ),
                                                      ),
                                                    ),
                                                  ),
                                                ),
                                              ),
                                            ),
                                          ),
                                        ),
                                      ),
                                    ),
                                  ),
                                ),
                              ),
                            ),
                          ),
                        ),
                      ),
                    ),
                  ),
                ),
              ),
            ),
          ),
        ),
      ))
      (TableRow-has_row row)

pub HasPlace-core :
    {from : NodeType} {edge : EdgeType} (u : Text)
    → HasPlace from
    → Locates edge
    → custom_party from edge (uri u) ≡ false
unfolding custom_party
HasPlace-core u dataset_place by_place = refl
HasPlace-core u dataset_place by_origin = refl
HasPlace-core u model_place by_place = refl
HasPlace-core u model_place by_origin = refl
HasPlace-core u artifact_place by_place = refl
HasPlace-core u artifact_place by_origin = refl
