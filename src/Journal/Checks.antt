-- ===== src/Journal/Checks.antt =====
-- journal.rs, `validate`: what may be appended.
use innen.Common.{
  ◌≡◌, sym, ◌∙◌, ◌↔◌, refl, Bool, true, false, some, List, [], ◌∷◌, arith, Bool-cases, Option-cases,
  Option, none, err, inl, inr, contains→Memᴰ, All-mem, ◌>>◌, nat_eq, list_eq, ◌==◌, ok,
  if◌then◌else◌, all, panic, ◌≢◌,
}
use mathlib.Core.Bool.{false≢true}
use innen.Common.Text.{Text, codes}
use innen.Common.Json.{Json, Fields, get_field}
use innen.Graph.Replay.{as_object}
use innen.Journal.{
  allowed_ops, is_allowed, is_string, need, need_keys, validate, JournalError, unknown_op,
  not_an_object,
}

-- The keys that an operation needs, each with a string.
unfoldable pub keys_of : Text → List Text
keys_of op =
    if op == codes "node.upsert"
    then codes "id" ∷ []
    else if op == codes "config.set"
    then codes "key" ∷ []
    else codes "from" ∷ codes "to" ∷ codes "type" ∷ []

abbrev pub has_string : Fields → Text → Bool
has_string fields key = is_string (get_field key fields)

-- One of the four operations, with an object that has a string at each key that the operation needs.
abbrev pub IsEvent : Text → Json → Type 0
IsEvent op payload =
    (is_allowed op ≡ true)
    × ((fields : Fields) × (as_object payload ≡ some fields)
        × (all (has_string fields) (keys_of op) ≡ true))

three_needs :
    (op : Text) (fields : Fields) (a b c : Text)
    → ((do need op fields a; need op fields b; need op fields c) ≡ ok tt)
      ↔ (all (has_string fields) (a ∷ b ∷ c ∷ []) ≡ true)
unfolding need
three_needs op fields a b c = ground arith

three_needs-ne-panic :
    (op : Text) (fields : Fields) (a b c : Text)
    → (do need op fields a; need op fields b; need op fields c) ≢ panic
unfolding need
three_needs-ne-panic op fields a b c = ground arith

one_need :
    (op : Text) (fields : Fields) (a : Text)
    → ((need op fields a ≡ ok tt) ↔ (all (has_string fields) (a ∷ []) ≡ true))
      × (need op fields a ≢ panic)
unfolding need
one_need op fields a = ground arith

abbrev NeedsKeys : Fields → Text → Type 0
NeedsKeys fields op =
    ((need_keys op fields ≡ ok tt) ↔ (all (has_string fields) (keys_of op) ≡ true))
    × (need_keys op fields ≢ panic)

need_keys-allowed : (fields : Fields) (op : Text) → is_allowed op ≡ true → NeedsKeys fields op
unfolding is_allowed need_keys keys_of
need_keys-allowed fields op allowed =
    All-mem (NeedsKeys fields) allowed_ops
      (
        one_need (codes "node.upsert") fields (codes "id"),
        (
          edge (codes "edge.assert"),
          (edge (codes "edge.retract"), (one_need (codes "config.set") fields (codes "key"), tt)),
        ),
      )
      (contains→Memᴰ allowed_ops op allowed)
  where
    edge :
        (op : Text)
        → (((do
          need op fields (codes "from")
          need op fields (codes "to")
          need op fields (codes "type"))
              ≡ ok tt)
            ↔ (all (has_string fields) (codes "from" ∷ codes "to" ∷ codes "type" ∷ []) ≡ true))
          × ((do
            need op fields (codes "from")
            need op fields (codes "to")
            need op fields (codes "type"))
              ≢ panic)
    edge op = (
      three_needs op fields (codes "from") (codes "to") (codes "type"),
      three_needs-ne-panic op fields (codes "from") (codes "to") (codes "type"),
    )

passed :
    (op : Text) (payload : Json) (fields : Fields)
    → is_allowed op ≡ true
    → as_object payload ≡ some fields
    → validate op payload ≡ need_keys op fields
unfolding validate
passed op payload fields allowed is_object = rw (allowed, is_object) refl

unknown_lem :
    (op : Text) (payload : Json) → is_allowed op ≡ false → validate op payload ≡ err (unknown_op op)
unfolding validate
unknown_lem op payload unknown = rw unknown refl

no_object_lem :
    (op : Text) (payload : Json)
    → is_allowed op ≡ true
    → as_object payload ≡ none
    → validate op payload ≡ err (not_an_object op)
unfolding validate
no_object_lem op payload allowed no_object = rw (allowed, no_object) refl

some-injective : {x y : Fields} → ◌≡◌ {A = Option Fields} (some x) (some y) → x ≡ y
some-injective h = cc

none≢some : {x : Fields} → ◌≡◌ {A = Option Fields} none (some x) → ⊥
none≢some h = cc

refused :
    (op : Text) (payload : Json) (e : JournalError)
    → validate op payload ≡ err e
    → ¬ IsEvent op payload
    → ((validate op payload ≡ ok tt) ↔ IsEvent op payload) × (validate op payload ≢ panic)
refused op payload e h no_event = rw h ((λ q. cc, λ q. absurd (no_event q)), λ q. cc)

-- An append passes the check exactly if the operation is one of the four and the payload is an object
-- with a string at each key that the operation needs; and the check never reaches its unreachable arm.
pub validate-IsEvent :
    (op : Text) (payload : Json)
    → ((validate op payload ≡ ok tt) ↔ IsEvent op payload) × (validate op payload ≢ panic)
validate-IsEvent op payload = elim (Bool-cases (is_allowed op)) [
  | inr unknown ↦
      refused op payload (unknown_op op) (unknown_lem op payload unknown)
        (λ q. false≢true (sym unknown ∙ q.0))
  | inl allowed ↦ elim (Option-cases (as_object payload)) [
    | inl no_object ↦
        refused op payload (not_an_object op) (no_object_lem op payload allowed no_object)
          (λ q. none≢some (sym no_object ∙ q.1.1))
    | inr (fields, is_object) ↦
        let (same, safe) = need_keys-allowed fields op allowed in
        let there = passed op payload fields allowed is_object in
        (
          (
            λ h. (allowed, (fields, is_object, same.0 (sym there ∙ h))),
            λ (_, (x, x_object, has)).
                there ∙ same.1 (rw (some-injective (sym x_object ∙ is_object)) at has),
          ),
          rw there safe,
        )
  ]
]
