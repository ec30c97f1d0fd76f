-- ===== src/Contract/Bounds.antt =====
-- evidence_closure/contract.rs: what the evaluation may rely on, once a contract is admitted.
use innen.Common.{
  ◌≤◌, ◌<◌, ◌≡◌, refl, sym, Bool, true, false, not, ◌||◌, List, [], ◌∷◌, arith, any, is_empty,
  length, contains, ==_iff, nat_eq, list_eq, ok, reject_if, ◌>>◌, reject_if-eq-ok, >>=-eq-ok, inl,
  inr, Memᴰ, ltb, all,
}
use mathlib.Core.List.Memᴰ
use innen.Common.Text.{Text, is_blank, text_le, text_lt}
use innen.Contract.{
  SourceGrant, Requirement, Contract, timestamp, is_bad_grant, is_bad_fact, validate_scope,
  validate_facts, validate, is_hex_digit, is_unidentified, is_unordered, is_unlimited,
  identity_required, unordered_timestamps, unbounded_limits, invalid_grants,
}

abbrev pub fact_ids : List Requirement → List Text
fact_ids [] = []
fact_ids (fact ∷ facts) = fact.id ∷ fact_ids facts

-- Ids that are not blank and all different.
abbrev pub AreNamed : List Text → Type 0
AreNamed [] = Unit
AreNamed (id ∷ ids) = (is_blank id ≡ false) × (contains ids id ≡ false) × AreNamed ids

-- Between one and sixteen alternatives, each of one to sixty-four ids.
abbrev pub AreBounded : List Requirement → Type 0
AreBounded facts =
    (fact : Requirement)
    → Memᴰ fact facts
    → (0 < length fact.alternatives)
      × (length fact.alternatives ≤ 16)
      × ((a : List Text) → Memᴰ a fact.alternatives → (0 < length a) × (length a ≤ 64))

any-mem {ℓ} :
    {A : Type ℓ} (p : A → Bool) (xs : List A) {a : A} → any p xs ≡ false → Memᴰ a xs → p a ≡ false
any-mem p [] h m = absurd (Memᴰ.not-nil m)
any-mem p (x ∷ xs) h m = elim (Memᴰ.cases_cons m) [
  | inl e ↦ rw e (ground arith)
  | inr later ↦ any-mem p xs (ground arith) later
]

-- An id that comes later was not there before.
validate_facts-fresh :
    (ids : List Text) (facts : List Requirement) (id : Text)
    → validate_facts ids facts ≡ ok tt
    → contains ids id ≡ true
    → contains (fact_ids facts) id ≡ false
unfolding validate_facts is_bad_fact
validate_facts-fresh ids [] id h m = refl
validate_facts-fresh ids (fact ∷ facts) id h m =
    ground (arith, validate_facts-fresh (fact.id ∷ ids) facts id, ==_iff fact.id id)

validate_facts-AreNamed :
    (ids : List Text) (facts : List Requirement)
    → validate_facts ids facts ≡ ok tt
    → AreNamed (fact_ids facts)
unfolding validate_facts is_bad_fact
validate_facts-AreNamed ids [] h = tt
validate_facts-AreNamed ids (fact ∷ facts) h = ground (
  arith,
  validate_facts-AreNamed (fact.id ∷ ids) facts,
  validate_facts-fresh (fact.id ∷ ids) facts fact.id,
  ==_iff fact.id fact.id,
)

validate_facts-AreBounded :
    (ids : List Text) (facts : List Requirement)
    → validate_facts ids facts ≡ ok tt
    → AreBounded facts
unfolding validate_facts is_bad_fact
validate_facts-AreBounded ids [] h fact m = absurd (Memᴰ.not-nil m)
validate_facts-AreBounded ids (f ∷ facts) h fact m =
    let (_, fine, rest) = >>=-eq-ok (reject_if (is_bad_fact ids f) _) _ h in
    let good = reject_if-eq-ok (is_bad_fact ids f) _ fine in
    elim (Memᴰ.cases_cons m) [
      | inl same ↦ rw same (
        ground arith,
        ground arith,
        λ a n.
            ground (
              arith,
              any-mem (λ b. is_empty b || ltb 64 (length b)) f.alternatives (ground arith) n,
            ),
      )
      | inr later ↦ validate_facts-AreBounded (f.id ∷ ids) facts rest fact later
    ]

all_passed :
    (a b c d : Bool)
    → (do
      reject_if a identity_required
      reject_if b unordered_timestamps
      reject_if c unbounded_limits
      reject_if d invalid_grants)
      ≡ ok tt
    → (a ≡ false) × (b ≡ false) × (c ≡ false) × (d ≡ false)
all_passed a b c d h = ground arith

fact_bound :
    (facts : List Requirement)
    → (is_empty facts || ltb 16 (length facts)) ≡ false
    → (0 < length facts) × (length facts ≤ 16)
fact_bound facts h = ground arith

validate_scope-parts :
    (c : Contract) (q : Text)
    → validate_scope c q ≡ ok tt
    → (is_unidentified c q ≡ false)
      × (is_unordered c ≡ false)
      × (is_unlimited c ≡ false)
      × (any is_bad_grant c.sources ≡ false)
unfolding validate_scope
validate_scope-parts c q h =
    all_passed (is_unidentified c q) (is_unordered c) (is_unlimited c) (any is_bad_grant c.sources)
      h

identified :
    (c : Contract) (q : Text)
    → is_unidentified c q ≡ false
    → (c.version ≡ 1)
      × (c.question ≡ q)
      × (is_blank c.question ≡ false)
      × (is_blank c.scope_receipt ≡ false)
unfolding is_unidentified
identified c q h = ground (arith, ==_iff c.question q)

ordered_times :
    (a b late : Bool)
    → (not a || not b || late) ≡ false
    → (b ≡ true) × (a ≡ true) × (not late ≡ true)
ordered_times a b late h = ground arith

dated :
    (c : Contract)
    → is_unordered c ≡ false
    → (timestamp c.min_observed_utc ≡ true)
      × (timestamp c.as_of ≡ true)
      × (text_le c.min_observed_utc c.as_of ≡ true)
unfolding is_unordered text_le
dated c h =
    ordered_times (timestamp c.as_of) (timestamp c.min_observed_utc)
      (text_lt c.as_of c.min_observed_utc) h

limited :
    (c : Contract)
    → is_unlimited c ≡ false
    → (0 < length c.scope_nodes)
      × (length c.scope_nodes ≤ 2000)
      × (length c.sources ≤ 2000)
      × (0 < c.max_hops)
      × (c.max_hops ≤ 16)
      × (0 < c.search_limit)
      × (c.search_limit ≤ 100000)
      × (0 < c.budget_tokens)
unfolding is_unlimited
limited c h = ground arith

granted_lem :
    (grant : Text × SourceGrant)
    → is_bad_grant grant ≡ false
    → (is_blank grant.0 ≡ false)
      × (length grant.1.node_sha256 ≡ 64)
      × (all is_hex_digit grant.1.node_sha256 ≡ true)
unfolding is_bad_grant
granted_lem grant h = ground arith

-- What an admitted contract for a question satisfies.
pub record IsAdmissible (c : Contract) (q : Text) : Type 0 where
  pub versioned : c.version ≡ 1
  pub asked : c.question ≡ q
  pub worded : is_blank q ≡ false
  pub received : is_blank c.scope_receipt ≡ false
  pub started : timestamp c.min_observed_utc ≡ true
  pub ended : timestamp c.as_of ≡ true
  pub ordered : text_le c.min_observed_utc c.as_of ≡ true
  pub scoped : (0 < length c.scope_nodes) × (length c.scope_nodes ≤ 2000)
  pub sourced : length c.sources ≤ 2000
  pub granted :
      (grant : Text × SourceGrant)
      → Memᴰ grant c.sources
      → (is_blank grant.0 ≡ false)
        × (length grant.1.node_sha256 ≡ 64)
        × (all is_hex_digit grant.1.node_sha256 ≡ true)
  pub hops : (0 < c.max_hops) × (c.max_hops ≤ 16)
  pub states : (0 < c.search_limit) × (c.search_limit ≤ 100000)
  pub budgeted : 0 < c.budget_tokens
  pub facts_bounded : (0 < length c.facts) × (length c.facts ≤ 16)
  pub named : AreNamed (fact_ids c.facts)
  pub bounded : AreBounded c.facts

-- Validation accepts a contract for a question only if the contract asks exactly that question, its
-- times are dates in order, its limits are positive and bounded, each grant is a SHA-256 value under a
-- name, and its one to sixteen facts have different names and one to sixteen alternatives of one to
-- sixty-four ids.
pub validate-IsAdmissible : (c : Contract) (q : Text) → validate c q ≡ ok tt → IsAdmissible c q
unfolding validate
validate-IsAdmissible c q h =
    let (_, scope, facts) = >>=-eq-ok (validate_scope c q) _ h in
    let (_, some_facts, each) =
      >>=-eq-ok (reject_if (is_empty c.facts || ltb 16 (length c.facts)) _) _ facts in
    let counted = reject_if-eq-ok (is_empty c.facts || ltb 16 (length c.facts)) _ some_facts in
    let (identity, times, limits, grants) = validate_scope-parts c q scope in
    let (version, question, worded, receipt) = identified c q identity in
    let (started, ended, ordered) = dated c times in
    let (nodes, few_nodes, few_sources, hop, few_hops, state, few_states, budget) =
      limited c limits in
    record {
      versioned = version;
      asked = question;
      worded = rw (sym question) worded;
      received = receipt;
      started = started;
      ended = ended;
      ordered = ordered;
      scoped = (nodes, few_nodes);
      sourced = few_sources;
      granted = λ grant m. granted_lem grant (any-mem is_bad_grant c.sources grants m);
      hops = (hop, few_hops);
      states = (state, few_states);
      budgeted = budget;
      facts_bounded = fact_bound c.facts counted;
      named = validate_facts-AreNamed [] c.facts each;
      bounded = validate_facts-AreBounded [] c.facts each;
    }
