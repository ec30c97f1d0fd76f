-- ===== src/EvidenceClosure/Linked.antt =====
-- evidence_closure/snapshot.rs: which edges are listed for a node.
use innen.Common.{
  ℕ, zero, suc, ◌+◌, ◌<◌, ◌≡◌, refl, sym, ◌∙◌, Bool, true, false, not, ◌||◌, ◌&&◌, some, List, [],
  ◌∷◌, get_elem?, if◌then◌else◌, contains, contains-append, nat_eq, list_eq, ◌==◌, ==_iff, eqb,
  eqb_iff, ok, >>=-eq-ok, ok-injective, Bool-cases, Option-cases, inl, inr, arith,
}
use innen.Common.Text.{Text}
use innen.Common.Dicts.{lookup_text, values_at, values_at-push_at, push_at}
use innen.Graph.Vocabulary.{edge_name}
use innen.Graph.Replay.{StoredEdge}
use innen.Graph.Requests.{lines}
use innen.EvidenceClosure.Ends.{IsIndexed}
use innen.EvidenceClosure.Snapshot.{
  Snapshot, Host, depends_on, contradicts, link_edge, link_edges, add_lines, snapshot,
}

-- A live dependency of the node, or a live conflict at either of its ends.
abbrev pub is_linked : Text → StoredEdge → Bool
is_linked u e =
    not e.retracted
    && (if edge_name e.edge == depends_on
        then e.from == u
        else edge_name e.edge == contradicts && (e.from == u || e.to == u))

contains-values_at :
    (k j : Text) (i n : ℕ) (m : List (Text × List ℕ))
    → contains (values_at j (push_at k i m)) n ≡ ((k == j && eqb i n) || contains (values_at j m) n)
contains-values_at k j i n m = elim (Bool-cases (k == j)) [
  | inl same ↦
      rw (values_at-push_at k j i m, same)
        (ground (arith, contains-append (values_at j m) (i ∷ []) n))
  | inr other ↦ rw (values_at-push_at k j i m, other) refl
]

contains-link_edge :
    (i : ℕ) (e : StoredEdge) (m : List (Text × List ℕ)) (u : Text) (n : ℕ)
    → contains (values_at u (link_edge i e m)) n
      ≡ ((eqb i n && is_linked u e) || contains (values_at u m) n)
unfolding link_edge
contains-link_edge i e m u n = ground (
  arith,
  contains-values_at e.from u i n m,
  contains-values_at e.to u i n (push_at e.from i m),
  ==_iff e.from e.to,
)

linked_at : ℕ → List StoredEdge → Text → ℕ → Bool
linked_at k [] u n = false
linked_at k (e ∷ es) u n = (eqb k n && is_linked u e) || linked_at (suc k) es u n

contains-link_edges :
    (k : ℕ) (es : List StoredEdge) (m : List (Text × List ℕ)) (u : Text) (n : ℕ)
    → contains (values_at u (link_edges k es m)) n
      ≡ (linked_at k es u n || contains (values_at u m) n)
unfolding link_edges linked_at
contains-link_edges k [] m u n = refl
contains-link_edges k (e ∷ es) m u n =
    ground
      (arith, contains-link_edges (suc k) es (link_edge k e m) u n, contains-link_edge k e m u n)

linked_at-low :
    (k : ℕ) (es : List StoredEdge) (u : Text) (n : ℕ) → n < k → linked_at k es u n ≡ false
unfolding linked_at
linked_at-low k [] u n h = refl
linked_at-low k (e ∷ es) u n h = ground (arith, linked_at-low (suc k) es u n)

linked_at-get_elem? :
    (k : ℕ) (es : List StoredEdge) (u : Text) (j : ℕ) {e : StoredEdge}
    → get_elem? es j ≡ some e
    → linked_at k es u (k + j) ≡ is_linked u e
unfolding linked_at
linked_at-get_elem? k [] u j h = cc
linked_at-get_elem? k (d ∷ es) u zero {e} h =
    let same : d ≡ e = cc h in rw (← same) (ground (arith, linked_at-low (suc k) es u (k + 0)))
linked_at-get_elem? k (d ∷ es) u (suc j) h =
    let next : suc k + j ≡ k + suc j = omega arith in
    ground (arith, rw next at (linked_at-get_elem? (suc k) es u j h))

abbrev Found : ℕ → List StoredEdge → ℕ → Type 0
Found k es n = (j : ℕ) × (n ≡ k + j) × ((e : StoredEdge) × (get_elem? es j ≡ some e))

linked_at-Found :
    (k : ℕ) (es : List StoredEdge) (u : Text) (n : ℕ) → linked_at k es u n ≡ true → Found k es n
unfolding linked_at
linked_at-Found k [] u n h = cc
linked_at-Found k (d ∷ es) u n h = elim (Bool-cases (eqb k n)) [
  | inl here' ↦ (0, ground (arith, eqb_iff k n), (d, refl))
  | inr other ↦
      let (j, at', found) = linked_at-Found (suc k) es u n (ground arith) in
      (suc j, omega arith, found)
]

module _ (host : Host) where
  -- The adjacency of a snapshot is that of its edges.
  snapshot-adjacency :
      (raw : List ℕ) (cutoff : Text) {s : Snapshot}
      → snapshot host raw cutoff ≡ ok s
      → s.adjacency ≡ link_edges 0 s.graph.edges []
  unfolding snapshot
  snapshot-adjacency raw cutoff {s} h = elim (Option-cases (host.from_utf8 raw)) [
    | inl not_text ↦ absurd (cc (rw (not_text, snapshot) at h))
    | inr (text, decoded) ↦
        let (b, _, last) =
          >>=-eq-ok
            (add_lines host cutoff 1 (lines text)
              (record { values = []; citations = []; edge_citations = [] }))
            _ (rw (decoded, snapshot) at h) in
        rw (← ok-injective last) refl
  ]

  module _ (raw : List ℕ) (cutoff : Text) {s : Snapshot}
      (taken : snapshot host raw cutoff ≡ ok s) where
    listed_lem :
        (u : Text) (n : ℕ) → contains (values_at u s.adjacency) n ≡ linked_at 0 s.graph.edges u n
    unfolding lookup_text
    listed_lem u n =
        rw (snapshot-adjacency raw cutoff taken)
          (contains-link_edges 0 s.graph.edges [] u n ∙ ground arith)

    -- An edge is listed for a node exactly if it is linked to it.
    pub listed-is_linked :
        (u : Text) (n : ℕ) (e : StoredEdge)
        → get_elem? s.graph.edges n ≡ some e
        → contains (values_at u s.adjacency) n ≡ is_linked u e
    listed-is_linked u n e found =
        let plus : 0 + n ≡ n = omega arith in
        listed_lem u n ∙ rw plus at (linked_at-get_elem? 0 s.graph.edges u n found)

    pub snapshot-IsIndexed : IsIndexed s
    snapshot-IsIndexed u i m =
        let (j, at', (e, found)) = linked_at-Found 0 s.graph.edges u i (sym (listed_lem u i) ∙ m) in
        let same : i ≡ j = omega arith in (e, rw same found)
