-- ===== src/EvidenceClosure/Follows.antt =====
-- evidence_closure/closure.rs: what one edge, and the edges of one node, do to the walk.
use innen.Common.{
  ℕ, suc, ◌≤◌, ◌≡◌, refl, ◌∙◌, Bool, true, false, not, ◌||◌, ◌&&◌, some, List, [], ◌∷◌, ◌++◌, map,
  leb, get_elem?, is_some, contains, nat_eq, list_eq, ◌==◌, ==_iff, eqb, eqb_iff, Outcome, ok, err,
  panic, reject_if, reject_if-eq-ok, >>=-eq-ok, ok-injective, Bool-cases, Option-cases, inl, inr,
  arith, All,
}
use innen.Common.Text.{Text}
use innen.Common.Json.{Json, obj}
use innen.Common.Dicts.{lookup_text, values_at}
use innen.Contract.{Contract}
use innen.Graph.Vocabulary.{edge_name}
use innen.Graph.Replay.{StoredEdge}
use innen.EvidenceClosure.Snapshot.{Snapshot, Host, edge_receipt, depends_on, contradicts}
use innen.EvidenceClosure.Closure.{
  Walk, Reason, is_missing, map_problem, eligible, take_edge, follow, visit_edge, visit_edges,
}

abbrev pub ids : List (Text × ℕ) → List Text
ids q = map (λ p. p.0) q

ids-append :
    (p q : List (Text × ℕ)) (v : Text)
    → contains (ids (p ++ q)) v ≡ (contains (ids p) v || contains (ids q) v)
ids-append [] q v = refl
ids-append (x ∷ p) q v = ground (arith, ids-append p q v)

All-snoc {ℓ κ} :
    {A : Type ℓ} (P : A → Type κ) (xs : List A) (x : A) → All P xs → P x → All P (xs ++ x ∷ [])
All-snoc P [] x h p = (p, tt)
All-snoc P (y ∷ xs) x h p = (h.0, All-snoc P xs x h.1 p)

pub map_problem-eq-ok :
    (c : Contract) (id : Text) (m : Outcome Reason (Unit {0})) {u : Unit {0}}
    → map_problem c id m ≡ ok u
    → m ≡ ok tt
map_problem-eq-ok c id (ok tt) h = refl
map_problem-eq-ok c id (err e) h = cc
map_problem-eq-ok c id panic h = cc

-- The edge makes a conflict of the node.
abbrev pub is_conflict : Text → StoredEdge → Bool
is_conflict id e = edge_name e.edge == contradicts && (e.from == id || e.to == id)

abbrev pub is_dependency : Text → StoredEdge → Bool
is_dependency id e = e.from == id && edge_name e.edge == depends_on

module _ (host : Host) (c : Contract) (s : Snapshot) where
  -- The edge stands under the node's indexes.
  abbrev pub Listed : Text → StoredEdge → Type 0
  Listed id e =
      (i : ℕ) × (contains (values_at id s.adjacency) i ≡ true)
      × (get_elem? s.graph.edges i ≡ some e)

  abbrev pub is_traced : StoredEdge → Bool
  is_traced e = is_some (lookup_text (host.show (obj (edge_receipt e))) s.edge_citations)

  -- Within so many dependencies of a root.
  pub data Reaches (roots : List Text) : Text → ℕ → Type 0 where
    root : {v : Text} → contains roots v ≡ true → Reaches roots v 0
    hop :
        {u : Text} {v : Text} {n : ℕ}
        → Reaches roots u n
        → (e : StoredEdge) → Listed u e
        → is_dependency u e ≡ true
        → v ≡ e.to
        → Reaches roots v (suc n)

  -- No conflict; and a dependency leads to a known id, has a provenance and a citation.
  abbrev pub Settled : (Text → Bool) → Text → StoredEdge → Type 0
  Settled known id e =
      (is_conflict id e ≡ false)
      × (is_dependency id e ≡ true
          → (known e.to ≡ true) × (is_missing e.provenance ≡ false) × (is_traced e ≡ true))

  abbrev pub waiting : Walk → Text → Bool
  waiting w v = contains w.nodes v || contains (ids w.queue) v

  abbrev pub Near : List Text → Text × ℕ → Type 0
  Near roots p = Reaches roots p.0 p.1 × (p.1 ≤ c.max_hops)

  -- What one edge, or the edges of a node, do to the walk.
  pub record Grows (roots : List Text) (w w' : Walk) : Type 0 where
    pub same : w'.nodes ≡ w.nodes
    pub kept : (v : Text) → contains (ids w.queue) v ≡ true → contains (ids w'.queue) v ≡ true
    pub near : All (Near roots) w.queue → All (Near roots) w'.queue

  Grows-refl : (roots : List Text) (w : Walk) → Grows roots w w
  Grows-refl roots w = record { same = refl; kept = λ v h. h; near = λ h. h }

  Grows-trans :
      (roots : List Text) (w w' w'' : Walk)
      → Grows roots w w'
      → Grows roots w' w''
      → Grows roots w w''
  Grows-trans roots w w' w'' g h = record {
    same = h.same ∙ g.same;
    kept = λ v m. h.kept v (g.kept v m);
    near = λ m. h.near (g.near m);
  }

  take_edge-waiting :
      (depth : ℕ) (e : StoredEdge) (cs : List Json) (w : Walk)
      → waiting (take_edge host c s depth e cs w) e.to ≡ true
  unfolding take_edge
  take_edge-waiting depth e cs w = elim (Bool-cases (contains w.nodes e.to)) [
    | inl old ↦ rw old refl
    | inr new ↦
        rw new
          (rw (ids-append w.queue ((e.to, suc depth) ∷ []) e.to) (ground (arith, ==_iff e.to e.to)))
  ]

  module _ (roots : List Text) where
    take_edge-Grows :
        (id : Text) (depth : ℕ) (e : StoredEdge) (cs : List Json) (w : Walk)
        → Reaches roots id depth
        → Listed id e
        → is_dependency id e ≡ true
        → (leb c.max_hops depth && not (contains w.nodes e.to)) ≡ false
        → Grows roots w (take_edge host c s depth e cs w)
    unfolding take_edge
    take_edge-Grows id depth e cs w reach listed dep hops =
        elim (Bool-cases (contains w.nodes e.to)) [
          | inl old ↦ rw old (record { same = refl; kept = λ v h. h; near = λ h. h })
          | inr new ↦ rw new (record {
            same = refl;
            kept = λ v h. ground (arith, ids-append w.queue ((e.to, suc depth) ∷ []) v);
            near = λ h.
                All-snoc (Near roots) w.queue (e.to, suc depth) h
                  (hop reach e listed dep refl, ground arith);
          })
        ]

    abbrev Follows : Text → StoredEdge → Walk → Walk → Type 0
    Follows id e w w' = Grows roots w w' × Settled (waiting w') id e

    follow-Follows :
        (id : Text) (depth : ℕ) (e : StoredEdge) (w : Walk) {w' : Walk}
        → Reaches roots id depth
        → Listed id e
        → is_dependency id e ≡ true
        → is_conflict id e ≡ false
        → follow host c s id depth e w ≡ ok w'
        → Follows id e w w'
    unfolding follow
    follow-Follows id depth e w {w'} reach listed dep free h =
        let (_, _, h1) = >>=-eq-ok (map_problem c e.to (eligible host c s e.to)) _ h in
        let (_, provenance, h2) = >>=-eq-ok (reject_if (is_missing e.provenance) _) _ h1 in
        let (_, hops, h3) =
          >>=-eq-ok (reject_if (leb c.max_hops depth && not (contains w.nodes e.to)) _) _ h2 in
        elim (Option-cases (lookup_text (host.show (obj (edge_receipt e))) s.edge_citations)) [
          | inl no_trace ↦ absurd (cc (rw no_trace at h3))
          | inr (cs, traced) ↦
              let taken : take_edge host c s depth e cs w ≡ w' = ok-injective (rw traced at h3) in
              rw (← taken) (
                take_edge-Grows id depth e cs w reach listed dep (reject_if-eq-ok _ _ hops),
                (
                  free,
                  λ _. (
                    take_edge-waiting depth e cs w,
                    reject_if-eq-ok _ _ provenance,
                    rw traced refl,
                  ),
                ),
              )
        ]

    visit_edge-Follows :
        (id : Text) (depth : ℕ) (e : StoredEdge) (w : Walk) {w' : Walk}
        → Reaches roots id depth
        → Listed id e
        → visit_edge host c s id depth e w ≡ ok w'
        → Follows id e w w'
    unfolding visit_edge
    visit_edge-Follows id depth e w reach listed h = elim (Bool-cases (is_conflict id e)) [
      | inl clash ↦ absurd (cc (rw clash at h))
      | inr free ↦ elim (Bool-cases (is_dependency id e)) [
        | inl dep ↦
            let skip : (not (e.from == id) || not (edge_name e.edge == depends_on)) ≡ false =
              ground arith in
            follow-Follows id depth e w reach listed dep free (rw (free, skip) at h)
        | inr none' ↦
            let skip : (not (e.from == id) || not (edge_name e.edge == depends_on)) ≡ true =
              ground arith in
            let same = ok-injective (rw (free, skip) at h) in
            rw (← same) (Grows-refl roots w, (free, λ dep. absurd (cc (rw none' at dep))))
      ]
    ]

    pub Grows-waiting :
        (w w' : Walk) (v : Text) → Grows roots w w' → waiting w v ≡ true → waiting w' v ≡ true
    Grows-waiting w w' v g h = rw g.same (ground (arith, g.kept v))

    Grows-Settled :
        (w w' : Walk) (id : Text) (e : StoredEdge)
        → Grows roots w w'
        → Settled (waiting w) id e
        → Settled (waiting w') id e
    Grows-Settled w w' id e g (free, deps) = (
      free,
      λ dep.
          let (there, provenance, traced) = deps dep in
          (Grows-waiting w w' e.to g there, provenance, traced),
    )

    pub visit_edges-Settled :
        (id : Text) (depth : ℕ) (indexes : List ℕ) (w : Walk) {w' : Walk}
        → Reaches roots id depth
        → ((i : ℕ) → contains indexes i ≡ true → contains (values_at id s.adjacency) i ≡ true)
        → visit_edges host c s id depth indexes w ≡ ok w'
        → Grows roots w w'
          × ((i : ℕ) (e : StoredEdge)
              → contains indexes i ≡ true
              → get_elem? s.graph.edges i ≡ some e
              → Settled (waiting w') id e)
    unfolding visit_edges
    visit_edges-Settled id depth [] w reach sub h =
        rw (← ok-injective h) (Grows-refl roots w, λ i e m. absurd (cc m))
    visit_edges-Settled id depth (j ∷ indexes) w {w'} reach sub h =
        elim (Option-cases (get_elem? s.graph.edges j)) [
          | inl out ↦ absurd (cc (rw (out, visit_edges) at h))
          | inr (d, found) ↦
              let (w1, first, rest) =
                >>=-eq-ok (visit_edge host c s id depth d w) _ (rw (found, visit_edges) at h) in
              let (g1, settled) =
                visit_edge-Follows id depth d w reach
                  (j, sub j (ground (arith, eqb_iff j j)), found) first in
              let (g2, others) =
                visit_edges-Settled id depth indexes w1 reach (λ i m. sub i (ground arith)) rest in
              (
                Grows-trans roots w w1 w' g1 g2,
                λ i e m at'. elim (Bool-cases (eqb j i)) [
                  | inl here' ↦
                      let same : d ≡ e = cc (found, at', (eqb_iff j i).0 here') in
                      rw (← same) (Grows-Settled w1 w' id d g2 settled)
                  | inr there ↦ others i e (ground arith) at'
                ],
              )
        ]
