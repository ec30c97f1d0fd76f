-- ===== src/EvidenceClosure/Ends.antt =====
-- evidence_closure/closure.rs: the loop ends, and no index is out of range.
use innen.Common.{
  ℕ, zero, suc, ◌+◌, ◌≤◌, ◌≡◌, ◌≢◌, refl, ◌∙◌, Bool, true, false, not, ◌&&◌, some, List, [], ◌∷◌,
  leb, length, length-append, get_elem?, if◌then◌else◌, contains, nat_eq, list_eq, ◌==◌, ==_iff,
  eqb_iff, Outcome, ok, err, panic, reject_if, >>=-eq-ok, >>=-ne-panic, ok-injective, Bool-cases,
  Option-cases, inl, inr, arith, ◌⊎◌,
}
use innen.Common.Text.{Text}
use innen.Common.Json.{Json, obj}
use innen.Common.Dicts.{lookup_text, values_at, insert_text, contains-insert_text}
use innen.Contract.{Contract}
use innen.Graph.Replay.{StoredEdge}
use innen.EvidenceClosure.Snapshot.{Snapshot, Host, edge_receipt}
use innen.EvidenceClosure.Closure.{
  Walk, Reason, Problem, is_missing, map_problem, check_node, eligible, take_edge, follow,
  visit_edge, visit_edges, visit, drain, start_queue, closure, total,
}

-- What the ids that are not in the set have yet to push.
pending : List Text → List (Text × List ℕ) → ℕ
pending nodes [] = 0
pending nodes ((id, indexes) ∷ m) =
    (if contains nodes id then 0 else length indexes) + pending nodes m

pending-nil : (m : List (Text × List ℕ)) → pending [] m ≡ total m
unfolding pending
pending-nil [] = refl
pending-nil ((id, indexes) ∷ m) = omega (arith, pending-nil m)

pending-insert-le :
    (id : Text) (nodes : List Text) (m : List (Text × List ℕ))
    → pending (insert_text id nodes) m ≤ pending nodes m
unfolding pending
pending-insert-le id nodes [] = omega arith
pending-insert-le id nodes ((j, indexes) ∷ m) =
    ground (arith, pending-insert-le id nodes m, contains-insert_text id nodes j)

pending-insert :
    (id : Text) (nodes : List Text) (m : List (Text × List ℕ))
    → contains nodes id ≡ false
    → pending (insert_text id nodes) m + length (values_at id m) ≤ pending nodes m
unfolding pending lookup_text
pending-insert id nodes [] new = omega arith
pending-insert id nodes ((j, indexes) ∷ m) new = elim (Bool-cases (j == id)) [
  | inl same ↦
      rw (same, (==_iff j id).0 same, new, contains-insert_text id nodes id, (==_iff id id).1 refl)
        (omega (arith, pending-insert-le id nodes m))
  | inr other ↦
      ground (
        arith,
        pending-insert id nodes m,
        contains-insert_text id nodes j,
        ==_iff j id,
        ==_iff id j,
      )
]

map_problem-ne-panic :
    (c : Contract) (id : Text) (m : Outcome Reason (Unit {0}))
    → m ≢ panic
    → map_problem c id m ≢ panic
map_problem-ne-panic c id (ok u) h = λ q. cc
map_problem-ne-panic c id (err e) h = λ q. cc
map_problem-ne-panic c id panic h = absurd (h refl)

skipped_or_ran :
    (a b : Bool) (p : Problem) {w w' : Walk} (m : Outcome Problem Walk)
    → (if a then err p else if b then ok w else m) ≡ ok w'
    → (w ≡ w') ⊎ (m ≡ ok w')
skipped_or_ran true b p m h = cc
skipped_or_ran false true p m h = inl (ok-injective h)
skipped_or_ran false false p m h = inr h

-- Every index that is listed is that of an edge.
abbrev pub IsIndexed : Snapshot → Type 0
IsIndexed s =
    (u : Text) (i : ℕ)
    → contains (values_at u s.adjacency) i ≡ true
    → (e : StoredEdge) × (get_elem? s.graph.edges i ≡ some e)

module _ (host : Host) (c : Contract) (s : Snapshot) where
  check_node-ne-panic : (pin : Text) (node : Json) → check_node host c s pin node ≢ panic
  unfolding check_node
  check_node-ne-panic pin node = ground arith

  eligible-ne-panic : (id : Text) → eligible host c s id ≢ panic
  unfolding eligible
  eligible-ne-panic id = ground arith

  follow-ne-panic :
      (id : Text) (depth : ℕ) (e : StoredEdge) (w : Walk) → follow host c s id depth e w ≢ panic
  unfolding follow
  follow-ne-panic id depth e w =
      >>=-ne-panic (map_problem c e.to (eligible host c s e.to)) _
        (map_problem-ne-panic c e.to (eligible host c s e.to) (eligible-ne-panic e.to))
        (λ _ _. ground arith)

  visit_edge-ne-panic :
      (id : Text) (depth : ℕ) (e : StoredEdge) (w : Walk) → visit_edge host c s id depth e w ≢ panic
  unfolding visit_edge
  visit_edge-ne-panic id depth e w = ground (arith, follow-ne-panic id depth e w)

  -- One edge puts at most one entry in the queue, and leaves the nodes.
  take_edge-length :
      (depth : ℕ) (e : StoredEdge) (cs : List Json) (w : Walk)
      → (length (take_edge host c s depth e cs w).queue ≤ length w.queue + 1)
        × ((take_edge host c s depth e cs w).nodes ≡ w.nodes)
  unfolding take_edge
  take_edge-length depth e cs w = ground (arith, length-append w.queue ((e.to, suc depth) ∷ []))

  abbrev Short : ℕ → Walk → Walk → Type 0
  Short n w w' = (length w'.queue ≤ length w.queue + n) × (w'.nodes ≡ w.nodes)

  follow-Short :
      (id : Text) (depth : ℕ) (e : StoredEdge) (w : Walk) {w' : Walk}
      → follow host c s id depth e w ≡ ok w'
      → Short 1 w w'
  unfolding follow
  follow-Short id depth e w {w'} h =
      let (_, _, h1) = >>=-eq-ok (map_problem c e.to (eligible host c s e.to)) _ h in
      let (_, _, h2) = >>=-eq-ok (reject_if (is_missing e.provenance) _) _ h1 in
      let (_, _, h3) =
        >>=-eq-ok (reject_if (leb c.max_hops depth && not (contains w.nodes e.to)) _) _ h2 in
      elim (Option-cases (lookup_text (host.show (obj (edge_receipt e))) s.edge_citations)) [
        | inl no_trace ↦ absurd (cc (rw no_trace at h3))
        | inr (cs, traced) ↦
            let taken : take_edge host c s depth e cs w ≡ w' = ok-injective (rw traced at h3) in
            rw (← taken) (take_edge-length depth e cs w)
      ]

  visit_edge-Short :
      (id : Text) (depth : ℕ) (e : StoredEdge) (w : Walk) {w' : Walk}
      → visit_edge host c s id depth e w ≡ ok w'
      → Short 1 w w'
  unfolding visit_edge
  visit_edge-Short id depth e w h = elim (skipped_or_ran _ _ _ (follow host c s id depth e w) h) [
    | inl same ↦ rw (← same) (omega arith, refl)
    | inr ran ↦ follow-Short id depth e w ran
  ]

  visit_edges-Short :
      (id : Text) (depth : ℕ) (indexes : List ℕ) (w : Walk) {w' : Walk}
      → visit_edges host c s id depth indexes w ≡ ok w'
      → Short (length indexes) w w'
  unfolding visit_edges
  visit_edges-Short id depth [] w h = rw (← ok-injective h) (omega arith, refl)
  visit_edges-Short id depth (i ∷ indexes) w h = elim (Option-cases (get_elem? s.graph.edges i)) [
    | inl out ↦ absurd (cc (rw (out, visit_edges) at h))
    | inr (e, found) ↦
        let (w1, first, rest) =
          >>=-eq-ok (visit_edge host c s id depth e w) _ (rw (found, visit_edges) at h) in
        let (short, same) = visit_edge-Short id depth e w first in
        let (shorts, sames) = visit_edges-Short id depth indexes w1 rest in
        (omega arith, sames ∙ same)
  ]

  visit_edges-ne-panic :
      (id : Text) (depth : ℕ) (indexes : List ℕ) (w : Walk)
      → ((i : ℕ)
          → contains indexes i ≡ true
          → (e : StoredEdge) × (get_elem? s.graph.edges i ≡ some e))
      → visit_edges host c s id depth indexes w ≢ panic
  unfolding visit_edges
  visit_edges-ne-panic id depth [] w known = λ q. cc
  visit_edges-ne-panic id depth (i ∷ indexes) w known =
      let (e, found) = known i (ground (arith, eqb_iff i i)) in
      rw (found, visit_edges)
        (>>=-ne-panic (visit_edge host c s id depth e w) _ (visit_edge-ne-panic id depth e w)
          (λ w' _. visit_edges-ne-panic id depth indexes w' (λ j m. known j (ground arith))))

  visit-ne-panic :
      (id : Text) (depth : ℕ) (w : Walk) → IsIndexed s → visit host c s id depth w ≢ panic
  unfolding visit
  visit-ne-panic id depth w indexed =
      >>=-ne-panic (map_problem c id (eligible host c s id)) _
        (map_problem-ne-panic c id (eligible host c s id) (eligible-ne-panic id))
        (λ _ _.
          visit_edges-ne-panic id depth (values_at id s.adjacency)
            (record w { nodes = insert_text id w.nodes }) (indexed id))

  visit-Short :
      (id : Text) (depth : ℕ) (w : Walk) {w' : Walk}
      → contains w.nodes id ≡ false
      → visit host c s id depth w ≡ ok w'
      → length w'.queue + pending w'.nodes s.adjacency
        ≤ length w.queue + pending w.nodes s.adjacency
  unfolding visit
  visit-Short id depth w {w'} new h =
      let (_, _, ran) = >>=-eq-ok (map_problem c id (eligible host c s id)) _ h in
      let (short, same) =
        visit_edges-Short id depth (values_at id s.adjacency)
          (record w { nodes = insert_text id w.nodes }) ran in
      rw same (omega (arith, pending-insert id w.nodes s.adjacency new))

  drain-ne-panic :
      (fuel : ℕ) (q : List (Text × ℕ)) (w : Walk)
      → IsIndexed s
      → length q + pending w.nodes s.adjacency ≤ fuel
      → drain host c s fuel q w ≢ panic
  unfolding drain
  drain-ne-panic zero [] w indexed h = λ q. cc
  drain-ne-panic (suc fuel) [] w indexed h = λ q. cc
  drain-ne-panic zero (p ∷ q) w indexed h = absurd (omega arith)
  drain-ne-panic (suc fuel) ((id, depth) ∷ q) w indexed h =
      elim (Bool-cases (contains w.nodes id)) [
        | inl old ↦ rw (old, drain) (drain-ne-panic fuel q w indexed (omega arith))
        | inr new ↦
            rw (new, drain)
              (>>=-ne-panic (visit host c s id depth (record w { queue = q })) _
                (visit-ne-panic id depth (record w { queue = q }) indexed)
                (λ w' ran.
                  drain-ne-panic fuel w'.queue w' indexed
                    (omega (arith, visit-Short id depth (record w { queue = q }) new ran))))
      ]

  length-start_queue : (roots : List Text) → length (start_queue roots) ≡ length roots
  length-start_queue [] = refl
  length-start_queue (r ∷ roots) = omega (arith, length-start_queue roots)

  pub closure-ne-panic : (roots : List Text) → IsIndexed s → closure host c s roots ≢ panic
  unfolding closure
  closure-ne-panic roots indexed =
      let w0 : Walk = record { nodes = []; queue = []; paths = []; seen_edges = [] } in
      >>=-ne-panic (drain host c s (length roots + total s.adjacency) (start_queue roots) w0) _
        (drain-ne-panic (length roots + total s.adjacency) (start_queue roots) w0 indexed
          (omega (arith, length-start_queue roots, pending-nil s.adjacency)))
        (λ w _ q. cc)
