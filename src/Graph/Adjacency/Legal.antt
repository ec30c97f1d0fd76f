-- ===== src/Graph/Adjacency/Legal.antt =====
-- graph/adjacency.rs: `validate` against the rules as a relation.
use innen.Common.{
  ◌≡◌, ◌↔◌, true, false, not, ◌&&◌, Bool, Option, arith, ok, err, Bool-cases, inl, inr, ◌∙◌, sym,
}
use mathlib.Core.Bool.{false≢true}
use innen.Common.Text.{Text}
use innen.Graph.Vocabulary.{NodeType, EdgeType}
use innen.Graph.Adjacency.{
  Endpoint, node, uri, AdjacencyError, missing_provenance, bad_uri, illegal, has_valid_provenance,
  is_uri_shape, locates, is_uri_row, custom_party, validate,
}
use innen.Graph.Adjacency.Table.{
  TableRow, Locates, HasPlace, IsCustomParty, IsUri, IsVouched, is_node_row_iff, is_uri_row-Locates,
  HasPlace-is_uri_row, locates_iff, custom_party_iff, is_uri_shape_iff, has_valid_provenance_iff,
  TableRow-core, HasPlace-core,
}

-- What may be written. A party that is custom opens the table, if someone vouches for it; a URI stands
-- under the two locating edges only.
pub data Legal (provenance : Option Text) : NodeType → EdgeType → Endpoint → Type 0 where
  node_row :
      {from : NodeType} {edge : EdgeType} {to : NodeType}
      → TableRow from edge to
      → Legal provenance from edge (node to)
  uri_row :
      {from : NodeType} {edge : EdgeType} {u : Text}
      → HasPlace from
      → Locates edge
      → IsUri u
      → Legal provenance from edge (uri u)
  open_node :
      {from : NodeType} {edge : EdgeType} {to : NodeType}
      → IsCustomParty from edge (node to)
      → IsVouched provenance
      → Legal provenance from edge (node to)
  open_uri :
      {from : NodeType} {edge : EdgeType} {u : Text}
      → IsCustomParty from edge (uri u)
      → IsVouched provenance
      → Locates edge
      → IsUri u
      → Legal provenance from edge (uri u)

-- Why a triple is refused. Who vouches comes first, then whether the edge may lead to a URI, then the
-- shape of the URI, and then the table, which is closed where no party is custom.
pub data Refused (provenance : Option Text)
    : NodeType → EdgeType → Endpoint → AdjacencyError → Type 0 where
  unvouched :
      {from : NodeType} {edge : EdgeType} {to : Endpoint}
      → IsCustomParty from edge to
      → ¬ IsVouched provenance
      → Refused provenance from edge to missing_provenance
  misplaced :
      {from : NodeType} {edge : EdgeType} {u : Text}
      → (IsCustomParty from edge (uri u) → IsVouched provenance)
      → ¬ Locates edge
      → Refused provenance from edge (uri u) (illegal from edge (uri u))
  shapeless :
      {from : NodeType} {edge : EdgeType} {u : Text}
      → (IsCustomParty from edge (uri u) → IsVouched provenance)
      → Locates edge
      → ¬ IsUri u
      → Refused provenance from edge (uri u) (bad_uri u)
  no_place :
      {from : NodeType} {edge : EdgeType} {u : Text}
      → ¬ IsCustomParty from edge (uri u)
      → Locates edge
      → IsUri u
      → ¬ HasPlace from
      → Refused provenance from edge (uri u) (illegal from edge (uri u))
  no_row :
      {from : NodeType} {edge : EdgeType} {to : NodeType}
      → ¬ IsCustomParty from edge (node to)
      → ¬ TableRow from edge to
      → Refused provenance from edge (node to) (illegal from edge (node to))

-- A test that decides a proposition.
no_of : {b : Bool} {P : Type 0} → (b ≡ true) ↔ P → b ≡ false → ¬ P
no_of (there, back) h p = false≢true (sym h ∙ back p)

module _ (from : NodeType) (edge : EdgeType) (provenance : Option Text) where
  -- The code's tests, and what they decide.
  party-IsVouched :
      (to : Endpoint)
      → (custom_party from edge to && not (has_valid_provenance provenance)) ≡ false
      → IsCustomParty from edge to
      → IsVouched provenance
  party-IsVouched to h custom =
      let party = (custom_party_iff from edge to).1 custom in
      (has_valid_provenance_iff provenance).0 (ground arith)

  vouched_test :
      (to : Endpoint)
      → (IsCustomParty from edge to → IsVouched provenance)
      → (custom_party from edge to && not (has_valid_provenance provenance)) ≡ false
  vouched_test to h = elim (Bool-cases (custom_party from edge to)) [
    | inl party ↦
        let vouch =
          (has_valid_provenance_iff provenance).1 (h ((custom_party_iff from edge to).0 party)) in
        ground arith
    | inr core ↦ ground arith
  ]

  validate-Legal :
      (to : Endpoint) → validate from edge to provenance ≡ ok tt → Legal provenance from edge to
  unfolding validate
  validate-Legal (node to) h = elim (Bool-cases (custom_party from edge (node to))) [
    | inl custom ↦
        open_node ((custom_party_iff from edge (node to)).0 custom)
          ((has_valid_provenance_iff provenance).0 (ground arith))
    | inr core ↦ node_row ((is_node_row_iff from edge to).0 (ground arith))
  ]
  validate-Legal (uri u) h =
      let by = (locates_iff edge).0 (ground arith) in
      let shape = (is_uri_shape_iff u).0 (ground arith) in
      elim (Bool-cases (custom_party from edge (uri u))) [
        | inl custom ↦
            open_uri ((custom_party_iff from edge (uri u)).0 custom)
              ((has_valid_provenance_iff provenance).0 (ground arith)) by shape
        | inr core ↦ uri_row (is_uri_row-Locates from edge (ground arith)).0 by shape
      ]

  Legal-validate :
      (to : Endpoint) → Legal provenance from edge to → validate from edge to provenance ≡ ok tt
  unfolding validate
  Legal-validate (node to) (node_row row) =
      let core = TableRow-core row in
      let listed = (is_node_row_iff from edge to).1 row in ground arith
  Legal-validate (node to) (open_node custom vouched) =
      let party = (custom_party_iff from edge (node to)).1 custom in
      let vouch = (has_valid_provenance_iff provenance).1 vouched in ground arith
  Legal-validate (uri u) (uri_row place by shape) =
      let core = HasPlace-core u place by in
      let listed = HasPlace-is_uri_row place by in
      let located = (locates_iff edge).1 by in
      let shaped = (is_uri_shape_iff u).1 shape in ground arith
  Legal-validate (uri u) (open_uri custom vouched by shape) =
      let party = (custom_party_iff from edge (uri u)).1 custom in
      let vouch = (has_valid_provenance_iff provenance).1 vouched in
      let located = (locates_iff edge).1 by in
      let shaped = (is_uri_shape_iff u).1 shape in ground arith

  HasPlace-row : (u : Text) → Locates edge → is_uri_row from edge ≡ false → ¬ HasPlace from
  HasPlace-row u by h place = false≢true (sym h ∙ HasPlace-is_uri_row place by)

  validate-Refused_uri :
      (u : Text) (e : AdjacencyError)
      → (custom_party from edge (uri u) && not (has_valid_provenance provenance)) ≡ false
      → validate from edge (uri u) provenance ≡ err e
      → Refused provenance from edge (uri u) e
  unfolding validate
  validate-Refused_uri u e fine h = elim (Bool-cases (locates edge)) [
    | inr elsewhere ↦
        let same : illegal from edge (uri u) ≡ e = ground arith in
        rw (← same) (misplaced (party-IsVouched (uri u) fine) (no_of (locates_iff edge) elsewhere))
    | inl located ↦
        let by = (locates_iff edge).0 located in
        elim (Bool-cases (is_uri_shape u)) [
          | inr bent ↦
              let same : bad_uri u ≡ e = ground arith in
              rw (← same)
                (shapeless (party-IsVouched (uri u) fine) by (no_of (is_uri_shape_iff u) bent))
          | inl shaped ↦
              let same : illegal from edge (uri u) ≡ e = ground arith in
              rw (← same) (
                no_place (no_of (custom_party_iff from edge (uri u)) (ground arith)) by
                  ((is_uri_shape_iff u).0 shaped) (HasPlace-row u by (ground arith)))
        ]
  ]

  -- The test of a proposition that does not hold.
  test_of : {b : Bool} {P : Type 0} → (b ≡ true) ↔ P → ¬ P → b ≡ false
  test_of {b} (there, back) never = elim (Bool-cases b) [
    | inl yes' ↦ absurd (never (there yes'))
    | inr no' ↦ no'
  ]

  validate-Refused :
      (to : Endpoint) (e : AdjacencyError)
      → validate from edge to provenance ≡ err e
      → Refused provenance from edge to e
  unfolding validate
  validate-Refused (node to) e h =
      elim (Bool-cases
        (custom_party from edge (node to) && not (has_valid_provenance provenance))) [
          | inl bad ↦
              let same : missing_provenance ≡ e = ground arith in
              rw (← same) (
                unvouched ((custom_party_iff from edge (node to)).0 (ground arith))
                  (no_of (has_valid_provenance_iff provenance) (ground arith)))
          | inr fine ↦
              let same : illegal from edge (node to) ≡ e = ground arith in
              rw (← same) (
                no_row (no_of (custom_party_iff from edge (node to)) (ground arith))
                  (no_of (is_node_row_iff from edge to) (ground arith)))
        ]
  validate-Refused (uri u) e h =
      elim (Bool-cases (custom_party from edge (uri u) && not (has_valid_provenance provenance))) [
        | inl bad ↦
            let same : missing_provenance ≡ e = ground arith in
            rw (← same) (
              unvouched ((custom_party_iff from edge (uri u)).0 (ground arith))
                (no_of (has_valid_provenance_iff provenance) (ground arith)))
        | inr fine ↦ validate-Refused_uri u e fine h
      ]

  Refused-validate :
      (to : Endpoint) (e : AdjacencyError)
      → Refused provenance from edge to e
      → validate from edge to provenance ≡ err e
  unfolding validate
  Refused-validate to e (unvouched custom no_one) =
      let party = (custom_party_iff from edge to).1 custom in
      let vouch = test_of (has_valid_provenance_iff provenance) no_one in ground arith
  Refused-validate (uri u) e (misplaced vouched elsewhere) =
      let fine = vouched_test (uri u) vouched in
      let located = test_of (locates_iff edge) elsewhere in ground arith
  Refused-validate (uri u) e (shapeless vouched by bent) =
      let fine = vouched_test (uri u) vouched in
      let located = (locates_iff edge).1 by in
      let shape = test_of (is_uri_shape_iff u) bent in ground arith
  Refused-validate (uri u) e (no_place core by shape outside) =
      let party = test_of (custom_party_iff from edge (uri u)) core in
      let located = (locates_iff edge).1 by in
      let shaped = (is_uri_shape_iff u).1 shape in
      let unlisted : is_uri_row from edge ≡ false = elim (Bool-cases (is_uri_row from edge)) [
        | inl row ↦ absurd (outside (is_uri_row-Locates from edge row).0)
        | inr other ↦ other
      ] in
      ground arith
  Refused-validate (node to) e (no_row core unlisted) =
      let party = test_of (custom_party_iff from edge (node to)) core in
      let row = test_of (is_node_row_iff from edge to) unlisted in ground arith

-- `validate` accepts exactly the triples that the rules allow, which are those of the table between core
-- parties, and any where a party is custom and someone vouches; a URI must have its shape and stand under
-- a locating edge.
pub validate_iff :
    (from : NodeType) (edge : EdgeType) (to : Endpoint) (provenance : Option Text)
    → (validate from edge to provenance ≡ ok tt) ↔ Legal provenance from edge to
validate_iff from edge to provenance =
    (validate-Legal from edge provenance to, Legal-validate from edge provenance to)

-- `validate` returns an error exactly where the rules give that reason to refuse.
pub validate-err :
    (from : NodeType) (edge : EdgeType) (to : Endpoint) (provenance : Option Text)
    (e : AdjacencyError)
    → (validate from edge to provenance ≡ err e) ↔ Refused provenance from edge to e
validate-err from edge to provenance e =
    (validate-Refused from edge provenance to e, Refused-validate from edge provenance to e)
