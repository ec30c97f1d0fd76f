-- ===== src/EvidenceClosure/Closed.antt =====
-- evidence_closure: the closure over a snapshot of the journal, in terms of the edges of the graph.
use innen.Common.{
  ℕ, ◌≤◌, ◌≡◌, ◌≢◌, refl, ◌∙◌, true, false, ◌||◌, some, List, get_elem?, contains, nat_eq, list_eq,
  ◌==◌, ==_iff, ok, panic, Bool-cases, inl, inr, arith,
}
use innen.Common.Text.{Text}
use innen.Contract.{Contract}
use innen.Graph.Vocabulary.{edge_name}
use innen.Graph.Replay.{StoredEdge}
use innen.EvidenceClosure.Snapshot.{Snapshot, Host, depends_on, contradicts, snapshot}
use innen.EvidenceClosure.Closure.{Alternative, is_missing, eligible, closure}
use innen.EvidenceClosure.Follows.{is_conflict, is_traced, Listed, Reaches}
use innen.EvidenceClosure.Sound.{IsClosure, closure-IsClosure}
use innen.EvidenceClosure.Ends.{closure-ne-panic}
use innen.EvidenceClosure.Linked.{is_linked, listed-is_linked, snapshot-IsIndexed}

module _ (host : Host) (c : Contract) (s : Snapshot) where
  -- An edge of the graph that was not retracted.
  abbrev pub IsLive : StoredEdge → Type 0
  IsLive e = ((n : ℕ) × (get_elem? s.graph.edges n ≡ some e)) × (e.retracted ≡ false)

  -- The ids are eligible and within the hop limit of the roots, which they hold. No live conflict touches
  -- them, and every live dependency leads from them to them, with a provenance and a citation.
  pub record IsClosed (roots nodes : List Text) : Type 0 where
    pub rooted : (v : Text) → contains roots v ≡ true → contains nodes v ≡ true
    pub admitted : (v : Text) → contains nodes v ≡ true → eligible host c s v ≡ ok tt
    pub reached :
        (v : Text)
        → contains nodes v ≡ true
        → (n : ℕ) × Reaches host c s roots v n × (n ≤ c.max_hops)
    pub undisputed :
        (e : StoredEdge)
        → IsLive e
        → edge_name e.edge ≡ contradicts
        → (contains nodes e.from ≡ false) × (contains nodes e.to ≡ false)
    pub supported :
        (e : StoredEdge)
        → IsLive e
        → edge_name e.edge ≡ depends_on
        → contains nodes e.from ≡ true
        → (contains nodes e.to ≡ true)
          × (is_missing e.provenance ≡ false)
          × (is_traced host c s e ≡ true)

module _ (host : Host) (raw : List ℕ) (cutoff : Text) {s : Snapshot}
    (taken : snapshot host raw cutoff ≡ ok s) where
  live-Listed :
      (c : Contract) (u : Text) (e : StoredEdge)
      → IsLive host c s e
      → is_linked u e ≡ true
      → Listed host c s u e
  live-Listed c u e ((n, found), live) linked =
      (n, listed-is_linked host raw cutoff taken u n e found ∙ linked, found)

  dependency-is_linked :
      (e : StoredEdge)
      → e.retracted ≡ false
      → edge_name e.edge ≡ depends_on
      → is_linked e.from e ≡ true
  dependency-is_linked e live kind = rw (live, kind) ((==_iff e.from e.from).1 refl)

  conflict-is_linked :
      (e : StoredEdge) (u : Text)
      → e.retracted ≡ false
      → edge_name e.edge ≡ contradicts
      → (e.from == u || e.to == u) ≡ true
      → is_linked u e ≡ true
  conflict-is_linked e u live kind ends = rw (live, kind) ends

  no_conflict :
      (c : Contract) (roots : List Text) (a : Alternative)
      → IsClosure host c s roots a
      → (e : StoredEdge) (u : Text) → IsLive host c s e
      → edge_name e.edge ≡ contradicts
      → (e.from == u || e.to == u) ≡ true
      → contains a.nodes u ≡ false
  no_conflict c roots a closed e u live kind ends = elim (Bool-cases (contains a.nodes u)) [
    | inr out ↦ out
    | inl here' ↦
        let (free, _) =
          closed.settled u e here'
            (live-Listed c u e live (conflict-is_linked e u live.1 kind ends)) in
        let clash : is_conflict u e ≡ true = rw kind ends in cc
  ]

  -- Over a snapshot that is taken of a journal, the closure of any roots ends, without a panic.
  pub closure-ends : (c : Contract) (roots : List Text) → closure host c s roots ≢ panic
  closure-ends c roots = closure-ne-panic host c s roots (snapshot-IsIndexed host raw cutoff taken)

  -- Over a snapshot that is taken of a journal, an admitted closure of roots holds the roots and what
  -- they depend on within the hop limit, all of it eligible, with no live conflict at any of its ids and
  -- no live dependency that leads out of them, lacks a provenance or lacks a citation.
  pub closure-IsClosed :
      (c : Contract) (roots : List Text) (a : Alternative)
      → closure host c s roots ≡ ok a
      → IsClosed host c s roots a.nodes
  closure-IsClosed c roots a h =
      let closed = closure-IsClosure host c s roots h in
      record {
        rooted = closed.rooted;
        admitted = closed.admitted;
        reached = closed.reached;
        undisputed = λ e live kind. (
          no_conflict c roots a closed e e.from live kind (rw ((==_iff e.from e.from).1 refl) refl),
          no_conflict c roots a closed e e.to live kind (ground (arith, ==_iff e.to e.to)),
        );
        supported = λ e live kind here'.
            let listed = live-Listed c e.from e live (dependency-is_linked e live.1 kind) in
            let (_, deps) = closed.settled e.from e here' listed in
            deps (rw kind (rw ((==_iff e.from e.from).1 refl) refl));
      }
