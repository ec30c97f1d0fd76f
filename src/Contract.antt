-- ===== src/Contract.antt =====
-- evidence_closure/contract.rs: the bounds that a contract must meet before it is evaluated.
pub mod Bounds
mod Tests
use innen.Common.{
  ℕ, ◌+◌, ◌-◌, ◌*◌, ◌%◌, Bool, true, false, not, ◌||◌, ◌&&◌, Option, List, [], ◌∷◌, zero, suc, take,
  any, all, is_empty, length, contains, foldl, leb, ltb, eqb, if◌then◌else◌, ◌==◌, nat_eq, list_eq,
  Outcome, ok, err, panic, reject_if, ◌>>◌, ◌>>=◌,
}
use innen.Common.Text.{Text, is_ascii_digit, is_blank, text_lt}
use innen.Graph.Replay.{is_canonical_ts}

pub record SourceGrant : Type 0 where
  pub node_sha256 : Text

pub record Requirement : Type 0 where
  pub id : Text
  pub description : Option Text
  pub alternatives : List (List Text)

pub record Contract : Type 0 where
  pub version : ℕ
  pub question : Text
  pub scope_receipt : Text
  pub scope_nodes : List Text
  pub as_of : Text
  pub min_observed_utc : Text
  pub sources : List (Text × SourceGrant)
  pub facts : List Requirement
  pub budget_tokens : ℕ
  pub max_hops : ℕ
  pub search_limit : ℕ

abbrev pub drop : ℕ → Text → Text
drop zero s = s
drop (suc n) [] = []
drop (suc n) (c ∷ s) = drop n s

-- `s[a..z].parse::<u32>()` of digits.
unfoldable pub number : Text → ℕ → ℕ → ℕ
number s a z = foldl (λ n c. n * 10 + (c - 48)) 0 (take (z - a) (drop a s))

abbrev pub is_leap : ℕ → Bool
is_leap y = eqb (y % 4) 0 && (not (eqb (y % 100) 0) || eqb (y % 400) 0)

unfoldable pub days_of : ℕ → ℕ → ℕ
days_of y m =
    if contains (1 ∷ 3 ∷ 5 ∷ 7 ∷ 8 ∷ 10 ∷ 12 ∷ []) m
    then 31
    else if contains (4 ∷ 6 ∷ 9 ∷ 11 ∷ []) m
    then 30
    else if eqb m 2
    then (if is_leap y then 29 else 28)
    else 0

-- The shape of `YYYY-MM-DDTHH:MM:SSZ` is that of `is_canonical_ts`; the numbers make a date and a time.
unfoldable pub timestamp : Text → Bool
unfolding number days_of is_canonical_ts
timestamp s =
    let y = number s 0 4 in
    let d = number s 8 10 in
    is_canonical_ts s
    && leb 1970 y
    && ltb 0 d
    && leb d (days_of y (number s 5 7))
    && ltb (number s 11 13) 24
    && ltb (number s 14 16) 60
    && ltb (number s 17 19) 60

-- The messages of the refusals.
pub data ContractError : Type 0 where
  identity_required unordered_timestamps unbounded_limits invalid_grants : ContractError
  unbounded_facts invalid_facts : ContractError

abbrev pub is_hex_digit : ℕ → Bool
is_hex_digit c = is_ascii_digit c || leb b'a' c && leb c b'f' || leb b'A' c && leb c b'F'

unfoldable pub is_bad_grant : Text × SourceGrant → Bool
is_bad_grant grant =
    is_blank grant.0
    || not (eqb (length grant.1.node_sha256) 64)
    || not (all is_hex_digit grant.1.node_sha256)

abbrev pub is_within : ℕ → ℕ → ℕ → Bool
is_within low high n = leb low n && leb n high

-- The conditions of the four refusals.
unfoldable pub is_unidentified : Contract → Text → Bool
unfolding is_blank
is_unidentified c q =
    not (eqb c.version 1)
    || not (c.question == q)
    || is_blank c.question
    || is_blank c.scope_receipt

unfoldable pub is_unordered : Contract → Bool
unfolding timestamp text_lt
is_unordered c =
    not (timestamp c.as_of)
    || not (timestamp c.min_observed_utc)
    || text_lt c.as_of c.min_observed_utc

unfoldable pub is_unlimited : Contract → Bool
is_unlimited c =
    is_empty c.scope_nodes
    || ltb 2000 (length c.scope_nodes)
    || ltb 2000 (length c.sources)
    || not (is_within 1 16 c.max_hops)
    || not (is_within 1 100000 c.search_limit)
    || eqb c.budget_tokens 0

unfoldable pub validate_scope : Contract → Text → Outcome ContractError (Unit {0})
unfolding is_unidentified is_unordered is_unlimited is_bad_grant
validate_scope c q = do
  reject_if (is_unidentified c q) identity_required
  reject_if (is_unordered c) unordered_timestamps
  reject_if (is_unlimited c) unbounded_limits
  reject_if (any is_bad_grant c.sources) invalid_grants

-- The condition in the loop over the facts; `ids` holds the ids that went before.
unfoldable pub is_bad_fact : List Text → Requirement → Bool
is_bad_fact ids fact =
    is_blank fact.id
    || contains ids fact.id
    || is_empty fact.alternatives
    || ltb 16 (length fact.alternatives)
    || any (λ a. is_empty a || ltb 64 (length a)) fact.alternatives

unfoldable pub validate_facts : List Text → List Requirement → Outcome ContractError (Unit {0})
unfolding is_bad_fact
validate_facts ids [] = ok tt
validate_facts ids (fact ∷ facts) = do
  reject_if (is_bad_fact ids fact) invalid_facts
  validate_facts (fact.id ∷ ids) facts

unfoldable pub validate : Contract → Text → Outcome ContractError (Unit {0})
unfolding validate_scope validate_facts
validate c q = do
  validate_scope c q
  reject_if (is_empty c.facts || ltb 16 (length c.facts)) unbounded_facts
  validate_facts [] c.facts
