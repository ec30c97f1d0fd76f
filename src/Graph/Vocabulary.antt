-- ===== src/Graph/Vocabulary.antt =====
-- graph/adjacency.rs: node kinds, edge kinds and their names.
pub mod Names
use innen.Common.{
  ℕ, ◌≡◌, Bool, true, false, ◌&&◌, Option, none, some, List, [], ◌∷◌, if◌then◌else◌, unwrap_or, eqb,
  ◌==◌, nat_eq, list_eq, ◌↔◌, arith, ==_iff, Eq,
}
use innen.Common.Text.{Text, codes, to_ascii_lowercase, to_ascii_uppercase}

pub data NodeType : Type 0 where
  conversation task decision experiment dataset model artifact project product : NodeType
  custom : Text → NodeType

pub data EdgeType : Type 0 where
  belongs_to follows_up supports evaluates discussed_in derived_from supersedes : EdgeType
  located_at originated_at contains_edge part_of informs : EdgeType
  custom : Text → EdgeType

-- `NodeType::name`.
unfoldable pub node_name : NodeType → Text
node_name conversation = codes "Conversation"
node_name task = codes "Task"
node_name decision = codes "Decision"
node_name experiment = codes "Experiment"
node_name dataset = codes "Dataset"
node_name model = codes "Model"
node_name artifact = codes "Artifact"
node_name project = codes "Project"
node_name product = codes "Product"
node_name (NodeType.custom s) = s

-- `EdgeType::name`.
unfoldable pub edge_name : EdgeType → Text
edge_name belongs_to = codes "BELONGS_TO"
edge_name follows_up = codes "FOLLOWS_UP"
edge_name supports = codes "SUPPORTS"
edge_name evaluates = codes "EVALUATES"
edge_name discussed_in = codes "DISCUSSED_IN"
edge_name derived_from = codes "DERIVED_FROM"
edge_name supersedes = codes "SUPERSEDES"
edge_name located_at = codes "LOCATED_AT"
edge_name originated_at = codes "ORIGINATED_AT"
edge_name contains_edge = codes "CONTAINS"
edge_name part_of = codes "PART_OF"
edge_name informs = codes "INFORMS"
edge_name (EdgeType.custom s) = s

-- The arms of a `match` on a text, tried in order.
unfoldable pub find_name {ℓ} : {A : Type ℓ} → Text → List (Text × A) → Option A
find_name s [] = none
find_name s ((name, a) ∷ arms) = let rest = find_name s arms in if name == s then some a else rest

abbrev pub node_arms : List (Text × NodeType)
node_arms =
    (codes "conversation", conversation)
    ∷ (codes "task", task)
    ∷ (codes "decision", decision)
    ∷ (codes "experiment", experiment)
    ∷ (codes "dataset", dataset)
    ∷ (codes "model", model)
    ∷ (codes "artifact", artifact)
    ∷ (codes "project", project)
    ∷ (codes "product", product)
    ∷ []

abbrev pub edge_arms : List (Text × EdgeType)
edge_arms =
    (codes "BELONGS_TO", belongs_to)
    ∷ (codes "FOLLOWS_UP", follows_up)
    ∷ (codes "SUPPORTS", supports)
    ∷ (codes "EVALUATES", evaluates)
    ∷ (codes "DISCUSSED_IN", discussed_in)
    ∷ (codes "DERIVED_FROM", derived_from)
    ∷ (codes "SUPERSEDES", supersedes)
    ∷ (codes "LOCATED_AT", located_at)
    ∷ (codes "ORIGINATED_AT", originated_at)
    ∷ (codes "CONTAINS", contains_edge)
    ∷ (codes "PART_OF", part_of)
    ∷ (codes "INFORMS", informs)
    ∷ []

-- `NodeType::from_str`, which never fails.
unfoldable pub parse_node_type : Text → NodeType
unfolding to_ascii_lowercase find_name
parse_node_type s = unwrap_or (find_name (to_ascii_lowercase s) node_arms) (NodeType.custom s)

-- `EdgeType::from_str`.
unfoldable pub parse_edge_type : Text → EdgeType
unfolding to_ascii_uppercase find_name
parse_edge_type s = unwrap_or (find_name (to_ascii_uppercase s) edge_arms) (EdgeType.custom s)

abbrev pub is_custom_node : NodeType → Bool
is_custom_node (NodeType.custom s) = true
is_custom_node _ = false

abbrev pub is_custom_edge : EdgeType → Bool
is_custom_edge (EdgeType.custom s) = true
is_custom_edge _ = false

-- The derived equality: the same constructor, and the same text under `Custom`.
abbrev pub node_tag : NodeType → ℕ
node_tag conversation = 0
node_tag task = 1
node_tag decision = 2
node_tag experiment = 3
node_tag dataset = 4
node_tag model = 5
node_tag artifact = 6
node_tag project = 7
node_tag product = 8
node_tag (NodeType.custom s) = 9

abbrev pub edge_tag : EdgeType → ℕ
edge_tag belongs_to = 0
edge_tag follows_up = 1
edge_tag supports = 2
edge_tag evaluates = 3
edge_tag discussed_in = 4
edge_tag derived_from = 5
edge_tag supersedes = 6
edge_tag located_at = 7
edge_tag originated_at = 8
edge_tag contains_edge = 9
edge_tag part_of = 10
edge_tag informs = 11
edge_tag (EdgeType.custom s) = 12

abbrev pub node_label : NodeType → Text
node_label (NodeType.custom s) = s
node_label _ = []

abbrev pub edge_label : EdgeType → Text
edge_label (EdgeType.custom s) = s
edge_label _ = []

unfoldable pub node_beq : NodeType → NodeType → Bool
node_beq a b = eqb (node_tag a) (node_tag b) && node_label a == node_label b

unfoldable pub edge_beq : EdgeType → EdgeType → Bool
edge_beq a b = eqb (edge_tag a) (edge_tag b) && edge_label a == edge_label b

pub node_beq_iff : (a b : NodeType) → (node_beq a b ≡ true) ↔ (a ≡ b)
unfolding node_beq
node_beq_iff a b = ground (arith, ==_iff (node_label a) (node_label b))

pub edge_beq_iff : (a b : EdgeType) → (edge_beq a b ≡ true) ↔ (a ≡ b)
unfolding edge_beq
edge_beq_iff a b = ground (arith, ==_iff (edge_label a) (edge_label b))

instance abbrev pub node_eq : Eq NodeType
node_eq = record { beq = node_beq; beq_iff = node_beq_iff }

instance abbrev pub edge_eq : Eq EdgeType
edge_eq = record { beq = edge_beq; beq_iff = edge_beq_iff }
