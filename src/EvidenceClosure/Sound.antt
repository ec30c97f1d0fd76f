-- ===== src/EvidenceClosure/Sound.antt =====
-- evidence_closure/closure.rs: what a closure that is admitted holds.
use innen.Common.{
  ℕ, zero, suc, ◌+◌, ◌≤◌, ◌≡◌, refl, subst, sym, ◌∙◌, Bool, true, ◌||◌, List, [], ◌∷◌, length,
  contains, nat_eq, list_eq, ◌==◌, ==_iff, ok, >>=-eq-ok, ok-injective, Bool-cases, inl, inr, arith,
  All,
}
use innen.Common.Text.{Text}
use innen.Common.Dicts.{values_at, insert_text, contains-insert_text}
use innen.Contract.{Contract}
use innen.Graph.Replay.{StoredEdge}
use innen.EvidenceClosure.Snapshot.{Snapshot, Host}
use innen.EvidenceClosure.Closure.{
  Walk, Alternative, map_problem, eligible, visit, drain, start_queue, closure, total,
}
use innen.EvidenceClosure.Follows.{
  ids, map_problem-eq-ok, Listed, Reaches, root, Settled, Near, Grows-waiting, visit_edges-Settled,
}

module _ (host : Host) (c : Contract) (s : Snapshot) where
  module _ (roots : List Text) where
    abbrev known : List Text → List (Text × ℕ) → Text → Bool
    known nodes q v = contains nodes v || contains (ids q) v

    record Inv (nodes : List Text) (q : List (Text × ℕ)) : Type 0 where
      rooted : (v : Text) → contains roots v ≡ true → known nodes q v ≡ true
      admitted : (v : Text) → contains nodes v ≡ true → eligible host c s v ≡ ok tt
      near : All (Near host c s roots) q
      reached :
          (v : Text)
          → contains nodes v ≡ true
          → (n : ℕ) × Reaches host c s roots v n × (n ≤ c.max_hops)
      settled :
          (u : Text) (e : StoredEdge)
          → contains nodes u ≡ true
          → Listed host c s u e
          → Settled host c s (known nodes q) u e

    Settled-mono :
        (p q : Text → Bool) (id : Text) (e : StoredEdge)
        → ((v : Text) → p v ≡ true → q v ≡ true)
        → Settled host c s p id e
        → Settled host c s q id e
    Settled-mono p q id e sub (free, deps) = (
      free,
      λ dep. let (there, provenance, traced) = deps dep in (sub e.to there, provenance, traced),
    )

    known-skip :
        (nodes : List Text) (id : Text) (depth : ℕ) (q : List (Text × ℕ)) (v : Text)
        → contains nodes id ≡ true
        → known nodes ((id, depth) ∷ q) v ≡ true
        → known nodes q v ≡ true
    known-skip nodes id depth q v here' h = elim (Bool-cases (id == v)) [
      | inl same ↦
          let there : contains nodes v ≡ true = rw (← (==_iff id v).0 same) here' in rw there refl
      | inr other ↦ ground arith
    ]

    Inv-skip :
        (nodes : List Text) (id : Text) (depth : ℕ) (q : List (Text × ℕ))
        → contains nodes id ≡ true
        → Inv nodes ((id, depth) ∷ q)
        → Inv nodes q
    Inv-skip nodes id depth q here' h = record {
      rooted = λ v m. known-skip nodes id depth q v here' (h.rooted v m);
      admitted = h.admitted;
      near = h.near.1;
      reached = h.reached;
      settled = λ u e m l.
          Settled-mono (known nodes ((id, depth) ∷ q)) (known nodes q) u e
            (λ v. known-skip nodes id depth q v here') (h.settled u e m l);
    }

    Inv-visit :
        (id : Text) (depth : ℕ) (q : List (Text × ℕ)) (w : Walk) {w' : Walk}
        → Inv w.nodes ((id, depth) ∷ q)
        → visit host c s id depth (record w { queue = q }) ≡ ok w'
        → Inv w'.nodes w'.queue
    unfolding visit
    Inv-visit id depth q w {w'} h ran =
        let w0 : Walk = record w { nodes = insert_text id w.nodes; queue = q } in
        let (_, passed, ran') = >>=-eq-ok (map_problem c id (eligible host c s id)) _ ran in
        let listed = values_at id s.adjacency in
        let (reach, low) = h.near.0 in
        let (g, here') =
          visit_edges-Settled host c s roots id depth listed w0 reach (λ i m. m) ran' in
        let grown = λ (v : Text). contains-insert_text id w.nodes v in
        let sub = λ (v : Text) (k : known w.nodes ((id, depth) ∷ q) v ≡ true).
          Grows-waiting host c s roots w0 w' v g (ground (arith, grown v)) in
        let split = λ (v : Text) (m : contains w'.nodes v ≡ true).
          let m' : contains (insert_text id w.nodes) v ≡ true = rw (← g.same) m in
          let e : (id == v || contains w.nodes v) ≡ true = sym (grown v) ∙ m' in e in
        record {
          rooted = λ v m. sub v (h.rooted v m);
          admitted = λ v m. elim (Bool-cases (id == v)) [
            | inl same ↦
                subst (λ x. eligible host c s x ≡ ok tt) ((==_iff id v).0 same)
                  (map_problem-eq-ok c id (eligible host c s id) passed)
            | inr other ↦ h.admitted v (ground (arith, split v m))
          ];
          near = g.near h.near.1;
          reached = λ v m. elim (Bool-cases (id == v)) [
            | inl same ↦ (depth, rw (← (==_iff id v).0 same) reach, low)
            | inr other ↦ h.reached v (ground (arith, split v m))
          ];
          settled = λ u e m (i, l, at'). elim (Bool-cases (id == u)) [
            | inl same ↦
                let same' = (==_iff id u).0 same in rw (← same') (here' i e (rw same' l) at')
            | inr other ↦
                Settled-mono (known w.nodes ((id, depth) ∷ q)) (known w'.nodes w'.queue) u e sub
                  (h.settled u e (ground (arith, split u m)) (i, l, at'))
          ];
        }

    drain-Inv :
        (fuel : ℕ) (q : List (Text × ℕ)) (w : Walk) {w' : Walk}
        → Inv w.nodes q
        → drain host c s fuel q w ≡ ok w'
        → Inv w'.nodes []
    unfolding drain
    drain-Inv zero [] w h e = rw (← ok-injective e) h
    drain-Inv (suc fuel) [] w h e = rw (← ok-injective e) h
    drain-Inv zero (p ∷ q) w h e = absurd (cc e)
    drain-Inv (suc fuel) ((id, depth) ∷ q) w h e = elim (Bool-cases (contains w.nodes id)) [
      | inl old ↦ drain-Inv fuel q w (Inv-skip w.nodes id depth q old h) (rw (old, drain) at e)
      | inr new ↦
          let (w1, ran, rest) =
            >>=-eq-ok (visit host c s id depth (record w { queue = q })) _ (rw (new, drain) at e) in
          drain-Inv fuel w1.queue w1 (Inv-visit id depth q w h ran) rest
    ]

  -- The closure of the roots: it holds them, each of its ids is eligible and within the hop limit, and
  -- each edge that is listed for one of them is settled within it.
  pub record IsClosure (roots : List Text) (a : Alternative) : Type 0 where
    pub same_roots : a.roots ≡ roots
    pub rooted : (v : Text) → contains roots v ≡ true → contains a.nodes v ≡ true
    pub admitted : (v : Text) → contains a.nodes v ≡ true → eligible host c s v ≡ ok tt
    pub reached :
        (v : Text)
        → contains a.nodes v ≡ true
        → (n : ℕ) × Reaches host c s roots v n × (n ≤ c.max_hops)
    pub settled :
        (u : Text) (e : StoredEdge)
        → contains a.nodes u ≡ true
        → Listed host c s u e
        → Settled host c s (contains a.nodes) u e

  start-rooted :
      (roots : List Text) (v : Text)
      → contains roots v ≡ true
      → contains (ids (start_queue roots)) v ≡ true
  start-rooted [] v h = cc
  start-rooted (r ∷ roots) v h = ground (arith, start-rooted roots v)

  start-Near :
      (all rest : List Text)
      → ((v : Text) → contains rest v ≡ true → contains all v ≡ true)
      → All (Near host c s all) (start_queue rest)
  start-Near all [] sub = tt
  start-Near all (r ∷ rest) sub = (
    (root (sub r (ground (arith, ==_iff r r))), omega arith),
    start-Near all rest (λ v m. sub v (ground arith)),
  )

  pub closure-IsClosure :
      (roots : List Text) {a : Alternative} → closure host c s roots ≡ ok a → IsClosure roots a
  unfolding closure
  closure-IsClosure roots {a} h =
      let w0 : Walk = record { nodes = []; queue = []; paths = []; seen_edges = [] } in
      let q0 = start_queue roots in
      let (w, ran, last) =
        >>=-eq-ok (drain host c s (length roots + total s.adjacency) q0 w0) _ h in
      let inv =
        drain-Inv roots (length roots + total s.adjacency) q0 w0
          (record {
            rooted = λ v m. start-rooted roots v m;
            admitted = λ v m. absurd (cc m);
            near = start-Near roots roots (λ v m. m);
            reached = λ v m. absurd (cc m);
            settled = λ u e m l. absurd (cc m);
          })
          ran in
      let flat = λ (v : Text) (k : known roots w.nodes [] v ≡ true).
        let r : contains w.nodes v ≡ true = ground arith in r in
      rw (← ok-injective last) (record {
        same_roots = refl;
        rooted = λ v m. flat v (inv.rooted v m);
        admitted = inv.admitted;
        reached = inv.reached;
        settled = λ u e m l.
            Settled-mono roots (known roots w.nodes []) (contains w.nodes) u e flat
              (inv.settled u e m l);
      })
