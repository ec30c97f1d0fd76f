-- ===== src/Graph/Vocabulary/Names.antt =====
-- graph/adjacency.rs: parsing a kind and printing it.
use innen.Common.{
  ◌≡◌, refl, sym, ◌∙◌, ap, some, List, [], ◌∷◌, arith, unwrap_or, ◌==◌, ==_iff, nat_eq, list_eq,
  All, All-mem, Memᴰ, Bool-cases, Option-cases, inl, inr, ◌⊎◌,
}
use innen.Common.Text.{Text, to_ascii_lowercase, to_ascii_uppercase}
use innen.Graph.Vocabulary.{
  NodeType, EdgeType, node_name, edge_name, find_name, node_arms, edge_arms, parse_node_type,
  parse_edge_type,
}

find_name-mem {ℓ} :
    {A : Type ℓ} (s : Text) (arms : List (Text × A)) (a : A)
    → find_name s arms ≡ some a
    → Memᴰ (s, a) arms
unfolding find_name
find_name-mem s [] a h = cc
find_name-mem s ((name, b) ∷ arms) a h = elim (Bool-cases (name == s)) [
  | inl same ↦ Memᴰ.head (ground (arith, ==_iff name s))
  | inr other ↦ Memᴰ.tail (find_name-mem s arms a (ground arith))
]

node_arms_agree :
    All (λ (arm : Text × NodeType). parse_node_type (node_name arm.1) ≡ arm.1) node_arms
unfolding parse_node_type node_name
node_arms_agree = (refl, (refl, (refl, (refl, (refl, (refl, (refl, (refl, (refl, tt)))))))))

edge_arms_agree :
    All (λ (arm : Text × EdgeType). parse_edge_type (edge_name arm.1) ≡ arm.1) edge_arms
unfolding parse_edge_type edge_name
edge_arms_agree = (
  refl,
  (refl, (refl, (refl, (refl, (refl, (refl, (refl, (refl, (refl, (refl, (refl, tt))))))))))),
)

parse_node_type-cases :
    (s : Text)
    → (parse_node_type s ≡ NodeType.custom s)
      ⊎ ((k : NodeType) × Memᴰ (to_ascii_lowercase s, k) node_arms × (parse_node_type s ≡ k))
unfolding parse_node_type
parse_node_type-cases s = elim (Option-cases (find_name (to_ascii_lowercase s) node_arms)) [
  | inl absent ↦ inl (ap (λ o. unwrap_or o (NodeType.custom s)) absent)
  | inr (k, found) ↦ inr (
    k,
    find_name-mem (to_ascii_lowercase s) node_arms k found,
    ap (λ o. unwrap_or o (NodeType.custom s)) found,
  )
]

parse_edge_type-cases :
    (s : Text)
    → (parse_edge_type s ≡ EdgeType.custom s)
      ⊎ ((k : EdgeType) × Memᴰ (to_ascii_uppercase s, k) edge_arms × (parse_edge_type s ≡ k))
unfolding parse_edge_type
parse_edge_type-cases s = elim (Option-cases (find_name (to_ascii_uppercase s) edge_arms)) [
  | inl absent ↦ inl (ap (λ o. unwrap_or o (EdgeType.custom s)) absent)
  | inr (k, found) ↦ inr (
    k,
    find_name-mem (to_ascii_uppercase s) edge_arms k found,
    ap (λ o. unwrap_or o (EdgeType.custom s)) found,
  )
]

-- Parsing a text, printing the kind and parsing again gives the same kind, for node kinds and for edge
-- kinds.
pub parse-name-parse :
    (s : Text)
    → (parse_node_type (node_name (parse_node_type s)) ≡ parse_node_type s)
      × (parse_edge_type (edge_name (parse_edge_type s)) ≡ parse_edge_type s)
unfolding node_name edge_name
parse-name-parse s = (
  elim (parse_node_type-cases s) [
    | inl other ↦ ap (λ k. parse_node_type (node_name k)) other
    | inr (k, m, known) ↦ rw known (
        All-mem (λ (arm : Text × NodeType). parse_node_type (node_name arm.1) ≡ arm.1) node_arms
          node_arms_agree m)
  ],
  elim (parse_edge_type-cases s) [
    | inl other ↦ ap (λ k. parse_edge_type (edge_name k)) other
    | inr (k, m, known) ↦ rw known (
        All-mem (λ (arm : Text × EdgeType). parse_edge_type (edge_name arm.1) ≡ arm.1) edge_arms
          edge_arms_agree m)
  ],
)

-- Node kinds are read without regard to ASCII case: two texts that differ in case alone are the same known
-- kind, or both are custom.
pub parse_ignores_case :
    (s t : Text)
    → to_ascii_lowercase s ≡ to_ascii_lowercase t
    → (parse_node_type s ≡ parse_node_type t)
      ⊎ (parse_node_type s ≡ NodeType.custom s) × (parse_node_type t ≡ NodeType.custom t)
unfolding parse_node_type
parse_ignores_case s t same = elim (Option-cases (find_name (to_ascii_lowercase s) node_arms)) [
  | inl absent ↦ inr (
    ap (λ o. unwrap_or o (NodeType.custom s)) absent,
    ap (λ o. unwrap_or o (NodeType.custom t)) (rw same at absent),
  )
  | inr (k, found) ↦ inl (
      ap (λ o. unwrap_or o (NodeType.custom s)) found
      ∙ sym (ap (λ o. unwrap_or o (NodeType.custom t)) (rw same at found)))
]
