-- ===== src/ContextSelection/Construct.antt =====
-- context_selection.rs, `ContextGraph::new`: what the graph holds when the constructor returns one.
use innen.Common.{
  ℕ, ◌<◌, ◌≡◌, refl, Bool, true, false, ◌||◌, ◌&&◌, some, List, [], ◌∷◌, arith, eqb, eqb_iff, any,
  contains, nat_eq, ok, >>=-eq-ok,
}
use innen.Common.Sets.{insert, contains-insert}
use innen.Common.Maps.{lookup, put, keys, lookup-put, contains-keys-put}
use innen.ContextSelection.Graph.{
  Float, Node, Edge, requires, related, ContextGraph, neighbors, knows, insert_nodes,
  add_requirement, add_edge, insert_edges, new,
}
use innen.ContextSelection.Closure.{IsWellFormed}

-- The edge says that `u` requires `v`.
abbrev pub says : ℕ → ℕ → Edge → Bool
says u v e = elim e.relation [ requires ↦ eqb e.from u && eqb e.to v | related ↦ false ]

contains-neighbors-add :
    {F : Type 0} (g : ContextGraph F) (e : Edge) (u v : ℕ)
    → contains (neighbors (add_edge g e) u) v ≡ (says u v e || contains (neighbors g u) v)
unfolding add_edge add_requirement neighbors
contains-neighbors-add g e u v = ground (
  arith,
  lookup-put e.from u (insert e.to (neighbors g e.from)) g.required,
  contains-insert e.to (neighbors g e.from) v,
  eqb_iff e.from u,
)

add_edge-nodes : {F : Type 0} (g : ContextGraph F) (e : Edge) → (add_edge g e).nodes ≡ g.nodes
unfolding add_edge add_requirement
add_edge-nodes g e = ground arith

module _ {F : Type 0} where
  insert_edges-nodes :
      (g t : ContextGraph F) (edges : List Edge) → insert_edges g edges ≡ ok t → t.nodes ≡ g.nodes
  unfolding insert_edges
  insert_edges-nodes g t [] h = ground arith
  insert_edges-nodes g t (e ∷ edges) h =
      ground (arith, insert_edges-nodes (add_edge g e) t edges, add_edge-nodes g e)

  insert_edges-neighbors :
      (g t : ContextGraph F) (edges : List Edge) (u v : ℕ)
      → insert_edges g edges ≡ ok t
      → contains (neighbors t u) v ≡ (any (says u v) edges || contains (neighbors g u) v)
  unfolding insert_edges
  insert_edges-neighbors g t [] u v h = ground arith
  insert_edges-neighbors g t (e ∷ edges) u v h =
      ground
        (arith, insert_edges-neighbors (add_edge g e) t edges u v, contains-neighbors-add g e u v)

  insert_edges-knows :
      (g t : ContextGraph F) (edges : List Edge) (u v : ℕ)
      → insert_edges g edges ≡ ok t
      → any (says u v) edges ≡ true
      → knows g v ≡ true
  unfolding insert_edges
  insert_edges-knows g t [] u v h m = cc
  insert_edges-knows g t (e ∷ edges) u v h m =
      ground
        (arith, insert_edges-knows (add_edge g e) t edges u v, add_edge-nodes g e, eqb_iff e.to v)

module _ (float : Float) where
  open float use {F}

  abbrev pub HasPositiveCosts : List (ℕ × Node F) → Type 0
  HasPositiveCosts m =
      (id : ℕ) (node : Node F) → lookup id m ≡ some node → (node.id ≡ id) × (0 < node.cost)

  insert_nodes-knows :
      (m t : List (ℕ × Node F)) (nodes : List (Node F)) (v : ℕ)
      → insert_nodes float m nodes ≡ ok t
      → contains (keys t) v ≡ (any (λ n. eqb n.id v) nodes || contains (keys m) v)
  unfolding insert_nodes
  insert_nodes-knows m t [] v h = ground arith
  insert_nodes-knows m t (n ∷ nodes) v h =
      ground (arith, insert_nodes-knows (put n.id n m) t nodes v, contains-keys-put n.id v n m)

  put-HasPositiveCosts :
      (m : List (ℕ × Node F)) (n : Node F)
      → HasPositiveCosts m
      → eqb n.cost 0 ≡ false
      → HasPositiveCosts (put n.id n m)
  put-HasPositiveCosts m n h positive id node found =
      ground (arith, lookup-put n.id id n m, h id node)

  insert_nodes-HasPositiveCosts :
      (m t : List (ℕ × Node F)) (nodes : List (Node F))
      → insert_nodes float m nodes ≡ ok t
      → HasPositiveCosts m
      → HasPositiveCosts t
  unfolding insert_nodes
  insert_nodes-HasPositiveCosts m t [] h p id node found = ground (arith, p id node)
  insert_nodes-HasPositiveCosts m t (n ∷ nodes) h p id node found =
      insert_nodes-HasPositiveCosts (put n.id n m) t nodes (ground arith)
        (put-HasPositiveCosts m n p (ground arith)) id node found

  new_parts :
      (nodes : List (Node F)) (edges : List Edge) (g : ContextGraph F)
      → new float nodes edges ≡ ok g
      → (m : List (ℕ × Node F)) × (insert_nodes float [] nodes ≡ ok m)
        × (insert_edges (record { nodes = m; required = [] }) edges ≡ ok g)
  unfolding new
  new_parts nodes edges g h =
      let (m, built, rest) = >>=-eq-ok (insert_nodes float [] nodes) _ h in (m, built, ground arith)

  none_found : HasPositiveCosts []
  unfolding lookup
  none_found id node found = cc

no_neighbors :
    {F : Type 0} (m : List (ℕ × Node F)) (u v : ℕ)
    → contains (neighbors (record { nodes = m; required = [] }) u) v ≡ false
unfolding neighbors lookup
no_neighbors m u v = refl

-- A graph that `new` returns has the ids of the given nodes as its nodes, requires `v` of `u` exactly
-- when a given `requires` edge leads from `u` to `v`, and every such `v` is a node. A node is stored
-- under its own id, and its cost is positive.
pub new_lem :
    (float : Float) (nodes : List (Node float.F)) (edges : List Edge) (g : ContextGraph float.F)
    → new float nodes edges ≡ ok g
    → ((v : ℕ) → knows g v ≡ any (λ n. eqb n.id v) nodes)
      × ((u v : ℕ) → contains (neighbors g u) v ≡ any (says u v) edges)
      × IsWellFormed g
      × HasPositiveCosts float g.nodes
new_lem float nodes edges g h =
    let (m, built, added) = new_parts float nodes edges g h in
    let start : ContextGraph float.F = record { nodes = m; required = [] } in
    let same = insert_edges-nodes start g edges added in
    let links = λ (u v : ℕ). insert_edges-neighbors start g edges u v added in
    (
      λ v. ground (arith, insert_nodes-knows float [] m nodes v built),
      λ u v. ground (arith, links u v, no_neighbors m u v),
      λ u v r.
          ground (arith, links u v, no_neighbors m u v, insert_edges-knows start g edges u v added),
      λ id node found.
          insert_nodes-HasPositiveCosts float [] m nodes built (none_found float) id node
            (ground arith),
    )
