-- ===== src/Retention/Gates.antt =====
-- session_retention/policy.rs: every gate that an eligible session has passed.
use innen.Common.{
  ◌≡◌, refl, ap, ◌∙◌, Bool, true, false, not, Option, none, some, List, [], ◌∷◌, ◌++◌, arith, any,
  filter, find?-eq-some, is_empty, is_some, if◌then◌else◌, Bool-cases, inl, inr, Memᴰ, Outcome, ok,
  >>=-eq-ok, ok-injective,
}
use mathlib.Core.List.Memᴰ
use innen.Common.Text.{Text, codes}
use innen.Common.Json.{Json}
use innen.Graph.Replay.{Materialized, find_node}
use innen.Retention.{
  Source, Candidate, Native, Bundle, Assessment, Blocker, Activity, idle, active, unknown,
  is_opencode, is_trustworthy_modified, has_text, is_proof, knowledge_ids, conversation_id, is_link,
  check_knowledge, check_all_knowledge, check_proof, check_children, check_activity, proofs,
  blocked, liveness_targets, found_children, find_blockers, assess_bundle, is_recent,
  assess_candidate_with_graph, stored_values,
}

-- Knowledge that is in the graph and linked to the conversation.
abbrev pub IsAnchored : Materialized → Text → Text → Type 0
IsAnchored graph conversation id =
    (is_some (find_node id graph.nodes) ≡ true) × (any (is_link id conversation) graph.edges ≡ true)

-- What must hold of a session before its native bytes may go.
pub record IsReleased (native : Native) (graph : Materialized) (candidate : Candidate)
    (bundle : Bundle) : Type 0 where
  pub present : any native.exists native.candidate_targets ≡ true
  pub dated : is_trustworthy_modified candidate.modified ≡ true
  pub old : is_recent native graph candidate ≡ false
  pub childless : is_opencode candidate.source ≡ true → native.child_sessions ≡ ok []
  pub proof : Json
  pub stored : Memᴰ proof (stored_values graph.nodes)
  pub attested : is_proof candidate proof ≡ true
  pub exact : has_text (codes "source_sha256") bundle.sha256 proof ≡ true
  pub known : is_empty (knowledge_ids proof) ≡ false
  pub anchored :
      (id : Text) → Memᴰ id (knowledge_ids proof) → IsAnchored graph (conversation_id candidate) id
  pub quiet : is_opencode candidate.source ≡ false → native.session_activity bundle.targets ≡ idle

is_empty-append :
    (xs ys : List Blocker)
    → is_empty (xs ++ ys) ≡ true
    → (is_empty xs ≡ true) × (is_empty ys ≡ true)
is_empty-append [] ys h = (refl, h)
is_empty-append (x ∷ xs) ys h = cc

Memᴰ-filter :
    (p : Json → Bool) (xs : List Json) {a : Json} → Memᴰ a (filter p xs) → Memᴰ a xs × (p a ≡ true)
Memᴰ-filter p [] m = absurd (Memᴰ.not-nil m)
Memᴰ-filter p (x ∷ xs) {a} m = elim (Bool-cases (p x)) [
  | inl kept ↦ elim (Memᴰ.cases_cons (rw (kept, filter) at m)) [
    | inl same ↦ (Memᴰ.head same, rw same kept)
    | inr there ↦ let (n, q) = Memᴰ-filter p xs there in (Memᴰ.tail n, q)
  ]
  | inr dropped ↦ let (n, q) = Memᴰ-filter p xs (rw (dropped, filter) at m) in (Memᴰ.tail n, q)
]

check_knowledge-IsAnchored :
    (graph : Materialized) (conversation id : Text)
    → is_empty (check_knowledge graph conversation id) ≡ true
    → IsAnchored graph conversation id
unfolding check_knowledge
check_knowledge-IsAnchored graph conversation id h = ground arith

check_all_knowledge-IsAnchored :
    (graph : Materialized) (conversation : Text) (ids : List Text)
    → is_empty (check_all_knowledge graph conversation ids) ≡ true
    → (id : Text) → Memᴰ id ids
    → IsAnchored graph conversation id
unfolding check_all_knowledge
check_all_knowledge-IsAnchored graph conversation [] h id m = absurd (Memᴰ.not-nil m)
check_all_knowledge-IsAnchored graph conversation (i ∷ ids) h id m =
    let (now, later) = is_empty-append (check_knowledge graph conversation i) _ h in
    elim (Memᴰ.cases_cons m) [
      | inl same ↦ rw same (check_knowledge-IsAnchored graph conversation i now)
      | inr there ↦ check_all_knowledge-IsAnchored graph conversation ids later id there
    ]

check_activity-empty :
    (activity : Activity) (blockers : List Blocker)
    → is_empty (check_activity activity blockers) ≡ true
    → (is_empty blockers ≡ true) × (activity ≡ idle)
unfolding check_activity
check_activity-empty idle [] h = (refl, refl)
check_activity-empty active [] h = cc
check_activity-empty (unknown detail) [] h = cc
check_activity-empty activity (b ∷ blockers) h = cc

check_children-empty :
    (child_ids : List Text) → is_empty (check_children child_ids) ≡ true → child_ids ≡ []
check_children-empty [] h = refl
check_children-empty (child ∷ rest) h = cc

check_proof-empty :
    (graph : Materialized) (candidate : Candidate) (found : Option Json)
    → is_empty (check_proof graph candidate found) ≡ true
    → (proof : Json) × (found ≡ some proof)
      × (is_empty (knowledge_ids proof) ≡ false)
      × ((id : Text)
          → Memᴰ id (knowledge_ids proof)
          → IsAnchored graph (conversation_id candidate) id)
unfolding check_proof
check_proof-empty graph candidate none h = cc
check_proof-empty graph candidate (some proof) h =
    elim (Bool-cases (is_empty (knowledge_ids proof))) [
      | inl nothing ↦ absurd (ground arith)
      | inr known ↦ (
        proof,
        refl,
        known,
        check_all_knowledge-IsAnchored graph (conversation_id candidate) (knowledge_ids proof)
            (is_empty-append _ _ h).1,
      )
    ]

refused :
    (b a : Assessment)
    → ◌≡◌ {A = Outcome Text Assessment} (ok b) (ok a)
    → b.eligible ≡ false
    → a.eligible ≡ true
    → ⊥
refused b a h no' yes' =
    absurd (cc (ap (λ (x : Assessment). x.eligible) (ok-injective h), no', yes'))

-- The early returns in their order, each with an assessment that is not eligible.
early_returns :
    (present dated recent unproved : Bool) (b₁ b₂ b₃ b₄ a : Assessment)
    (last : Outcome Text Assessment)
    → (b₁.eligible ≡ false) × (b₂.eligible ≡ false) × (b₃.eligible ≡ false) × (b₄.eligible ≡ false)
    → (if not present
        then ok b₁
        else if not dated
        then ok b₂
        else if recent
        then ok b₃
        else if unproved
        then ok b₄
        else last)
      ≡ ok a
    → a.eligible ≡ true
    → (present ≡ true) × (dated ≡ true) × (recent ≡ false) × (last ≡ ok a)
early_returns false dated recent unproved b₁ b₂ b₃ b₄ a last no' h yes' =
    absurd (refused b₁ a h no'.0 yes')
early_returns true false recent unproved b₁ b₂ b₃ b₄ a last no' h yes' =
    absurd (refused b₂ a h no'.1 yes')
early_returns true true true unproved b₁ b₂ b₃ b₄ a last no' h yes' =
    absurd (refused b₃ a h no'.2 yes')
early_returns true true false true b₁ b₂ b₃ b₄ a last no' h yes' =
    absurd (refused b₄ a h no'.3 yes')
early_returns true true false false b₁ b₂ b₃ b₄ a last no' h yes' = (refl, refl, refl, h)

found_children-childless :
    (native : Native) (graph : Materialized) (candidate : Candidate)
    → found_children native graph candidate ≡ ok []
    → is_opencode candidate.source ≡ true
    → native.child_sessions ≡ ok []
found_children-childless native graph candidate h yes' = ground arith

liveness_targets-own :
    (source : Source) (targets : List Text)
    → is_opencode source ≡ false
    → liveness_targets source targets ≡ targets
unfolding liveness_targets
liveness_targets-own source targets own = rw own refl

pub eligible-IsReleased :
    (native : Native) (graph : Materialized) (candidate : Candidate) (a : Assessment)
    → assess_candidate_with_graph native graph candidate ≡ ok a
    → a.eligible ≡ true
    → (bundle : Bundle) × (native.bundle ≡ ok bundle) × IsReleased native graph candidate bundle
unfolding assess_candidate_with_graph blocked assess_bundle find_blockers
eligible-IsReleased native graph candidate a h eligible =
    let (present, dated, old, reached) =
      early_returns (any native.exists native.candidate_targets)
        (is_trustworthy_modified candidate.modified) (is_recent native graph candidate)
        (is_empty (proofs native graph candidate)) _ _ _ _ a _ (refl, refl, refl, refl) h
        eligible in
    let (bundle, bundled, rest) = >>=-eq-ok native.bundle _ reached in
    let (child_ids, counted, last) = >>=-eq-ok (found_children native graph candidate) _ rest in
    let clear = ap (λ (x : Assessment). x.eligible) (ok-injective last) ∙ eligible in
    let (none_left, quiet) =
      check_activity-empty
        (native.session_activity (liveness_targets candidate.source bundle.targets)) _ clear in
    let (no_children, proved) = is_empty-append (check_children child_ids) _ none_left in
    let (proof, found, known, anchored) = check_proof-empty graph candidate _ proved in
    let (m, exact) = find?-eq-some _ (proofs native graph candidate) found in
    let (stored, attested) = Memᴰ-filter (is_proof candidate) (stored_values graph.nodes) m in
    (
      bundle,
      bundled,
      record {
        present = present;
        dated = dated;
        old = old;
        childless =
            found_children-childless native graph candidate
              (rw (check_children-empty child_ids no_children) at counted);
        proof = proof;
        stored = stored;
        attested = attested;
        exact = exact;
        known = known;
        anchored = anchored;
        quiet = λ own. rw (← liveness_targets-own candidate.source bundle.targets own) quiet;
      },
    )
