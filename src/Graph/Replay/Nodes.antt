-- ===== src/Graph/Replay/Nodes.antt =====
-- graph/materialize.rs: what `node.upsert` makes of the stored fields of a node.
use innen.Common.{
  ◌≡◌, refl, sym, ◌∙◌, ap, true, false, Option, none, some, [], ◌∷◌, arith, if◌then◌else◌,
  Bool-cases, Option-cases, ◌⊎◌, inl, inr, ◌==◌, nat_eq, list_eq, ==_iff, ==_sym, ==_refl,
}
use innen.Common.Text.{Text, text_lt, text_le}
use innen.Common.Json.{
  Json, str, obj, Fields, end, field, get_field, insert_field, text_of, get_field-insert_field,
  get_field-insert_other,
}
use innen.Graph.Replay.{observed, is_newer, merge_field, merge_fields, touch, upsert_value}

text_lt_irrefl : (s : Text) → text_lt s s ≡ false
unfolding text_lt
text_lt_irrefl [] = refl
text_lt_irrefl (c ∷ s) = ground (arith, text_lt_irrefl s)

pub text_le_refl : (s : Text) → text_le s s ≡ true
unfolding text_le
text_le_refl s = ground (arith, text_lt_irrefl s)

text_lt-comparison :
    (s t u : Text) → text_lt t s ≡ false → text_lt u t ≡ false → text_lt u s ≡ false
unfolding text_lt
text_lt-comparison [] t [] h k = refl
text_lt-comparison [] t (e ∷ u) h k = refl
text_lt-comparison (c ∷ s) [] u h k = cc
text_lt-comparison (c ∷ s) (d ∷ t) [] h k = cc
text_lt-comparison (c ∷ s) (d ∷ t) (e ∷ u) h k = ground (arith, text_lt-comparison s t u)

pub text_le_trans : (s t u : Text) → text_le s t ≡ true → text_le t u ≡ true → text_le s u ≡ true
unfolding text_le
text_le_trans s t u h k = ground (arith, text_lt-comparison s t u)

text_le-total : (s t : Text) → text_le s t ≡ false → text_le t s ≡ true
unfolding text_le text_lt
text_le-total [] t h = cc
text_le-total (c ∷ s) [] h = refl
text_le-total (c ∷ s) (d ∷ t) h = ground (arith, text_le-total s t)

-- The value of the last field of that name.
pub last_field : Text → Fields → Option Json
last_field k end = none
last_field k (field j v fields) = elim (last_field k fields) [
  | none ↦ if j == k then some v else none
  | some w ↦ some w
]

abbrev pub or_else : Option Json → Option Json → Option Json
or_else none other = other
or_else (some v) other = some v

get_field-merge_field :
    (k j : Text) (v : Json) (stored : Fields)
    → (k == observed) ≡ false
    → get_field k (merge_field j v stored) ≡ (if j == k then some v else get_field k stored)
unfolding merge_field
get_field-merge_field k j v stored other =
    ground
      (arith, get_field-insert_field j k v stored, ==_iff j k, ==_iff j observed, ==_iff k observed)

get_field-merge_fields :
    (k : Text) (stored payload : Fields)
    → (k == observed) ≡ false
    → get_field k (merge_fields stored payload)
      ≡ or_else (last_field k payload) (get_field k stored)
unfolding merge_fields last_field
get_field-merge_fields k stored end other = refl
get_field-merge_fields k stored (field j v payload) other = ground (
  arith,
  get_field-merge_fields k (merge_field j v stored) payload other,
  get_field-merge_field k j v stored other,
)

get_field-touch :
    (k : Text) (env : Option Text) (stored : Fields)
    → (k == observed) ≡ false
    → get_field k (touch env stored) ≡ get_field k stored
unfolding touch
get_field-touch k none stored other = refl
get_field-touch k (some env) stored other = elim (Bool-cases (is_newer stored env)) [
  | inl newer ↦ rw (newer, touch)
  | inr older ↦
      rw (older, touch)
        (get_field-insert_other k observed (str env) stored (==_sym observed k ∙ other))
]

is_newer-insert :
    (time t : Text) (stored : Fields)
    → is_newer (insert_field observed (str time) stored) t ≡ text_le t time
is_newer-insert time t stored = rw (
    get_field-insert_field observed observed (str time) stored
    ∙ ap (λ b. if b then some (str time) else get_field observed stored) (==_refl observed))

-- The stored time is at least any time that it was at least, and at least the new one.
later_time :
    (stored : Fields) (time t : Text)
    → is_newer stored time ≡ false
    → is_newer stored t ≡ true
    → text_le t time ≡ true
later_time stored time t old kept = elim (Option-cases (text_of observed stored)) [
  | inl absent ↦ ground arith
  | inr (cur, found) ↦
      text_le_trans t cur time (ground arith) (text_le-total time cur (ground arith))
]

-- The payload gives its own time as a text, if at all.
abbrev pub IsTimed : Fields → Type 0
IsTimed end = Unit
IsTimed (field k v payload) =
    ((k == observed) ≡ true → (time : Text) × (v ≡ str time)) × IsTimed payload

merge_field-other :
    (k : Text) (v : Json) (stored : Fields)
    → (k == observed) ≡ false
    → merge_field k v stored ≡ insert_field k v stored
unfolding merge_field
merge_field-other k v stored other = rw other

merge_field-observed :
    (time : Text) (stored : Fields)
    → merge_field observed (str time) stored
      ≡ (if is_newer stored time then stored else insert_field observed (str time) stored)
unfolding merge_field
merge_field-observed time stored = refl

-- Merging a time keeps what the node was newer than, and makes it as new as that time.
merge-time :
    (time t : Text) (stored : Fields)
    → (is_newer stored t ≡ true → is_newer (merge_field observed (str time) stored) t ≡ true)
      × (is_newer (merge_field observed (str time) stored) time ≡ true)
merge-time time t stored = elim (Bool-cases (is_newer stored time)) [
  | inl newer ↦ rw (merge_field-observed time stored) (rw newer (λ h. h, newer))
  | inr older ↦ rw (merge_field-observed time stored) (
      rw older (
        λ h. is_newer-insert time t stored ∙ later_time stored time t older h,
        is_newer-insert time time stored ∙ text_le_refl time,
      ))
]

merge_field-keeps :
    (k : Text) (v : Json) (stored : Fields) (t : Text)
    → ((k == observed) ≡ true → (time : Text) × (v ≡ str time))
    → is_newer stored t ≡ true
    → is_newer (merge_field k v stored) t ≡ true
merge_field-keeps k v stored t timed h = elim (Bool-cases (k == observed)) [
  | inl same ↦
      let (time, e) = timed same in
      rw ((==_iff k observed).0 same, e) ((merge-time time t stored).0 h)
  | inr other ↦
      rw (merge_field-other k v stored other, get_field-insert_other observed k v stored other) h
]

merge_fields-keeps :
    (stored payload : Fields) (t : Text)
    → IsTimed payload
    → is_newer stored t ≡ true
    → is_newer (merge_fields stored payload) t ≡ true
unfolding merge_fields
merge_fields-keeps stored end t timed h = h
merge_fields-keeps stored (field k v payload) t timed h =
    merge_fields-keeps (merge_field k v stored) payload t timed.1
      (merge_field-keeps k v stored t timed.0 h)

text_of-head :
    (o k : Text) (time t : Text) (payload : Fields)
    → (k == o) ≡ true
    → text_of o (field k (str time) payload) ≡ some t
    → time ≡ t
text_of-head o k time t payload same h = ground arith

text_of-tail :
    (o k : Text) (v : Json) (payload : Fields)
    → (k == o) ≡ false
    → text_of o (field k v payload) ≡ text_of o payload
text_of-tail o k v payload other = ground arith

merge_fields-time :
    (stored payload : Fields) (t : Text)
    → IsTimed payload
    → text_of observed payload ≡ some t
    → is_newer (merge_fields stored payload) t ≡ true
unfolding merge_fields
merge_fields-time stored end t timed h = cc
merge_fields-time stored (field k v payload) t timed h = elim (Bool-cases (k == observed)) [
  | inl same ↦
      let (time, e) = timed.0 same in
      merge_fields-keeps (merge_field k v stored) payload t timed.1 (
        rw
          (
            (==_iff k observed).0 same,
            e,
            sym (text_of-head observed k time t payload same (rw e at h)),
          )
          (merge-time time time stored).1)
  | inr other ↦
      merge_fields-time (merge_field k v stored) payload t timed.1
        (sym (text_of-tail observed k v payload other) ∙ h)
]

touch-keeps :
    (env : Option Text) (stored : Fields) (t : Text)
    → is_newer stored t ≡ true
    → is_newer (touch env stored) t ≡ true
unfolding touch
touch-keeps none stored t h = h
touch-keeps (some time) stored t h = elim (Bool-cases (is_newer stored time)) [
  | inl newer ↦ rw (newer, touch) h
  | inr older ↦ rw (older, touch) (is_newer-insert time t stored ∙ later_time stored time t older h)
]

touch-time : (time : Text) (stored : Fields) → is_newer (touch (some time) stored) time ≡ true
unfolding touch
touch-time time stored = elim (Bool-cases (is_newer stored time)) [
  | inl newer ↦ rw (newer, touch) newer
  | inr older ↦ rw (older, touch) (is_newer-insert time time stored ∙ text_le_refl time)
]

-- Upserting a payload whose own time, if it has one, is a text, into a node that is an object gives an
-- object. There each field but the time has the last value that the payload gives, or else its stored
-- value. The time is at least the stored one, at least the payload's and at least the envelope's, so
-- that an event that is replayed late does not set a node back.
pub upsert_value-merges :
    (payload stored : Fields) (env : Option Text)
    → IsTimed payload
    → (final : Fields) × (upsert_value payload env (obj stored) ≡ obj final)
      × ((k : Text)
          → (k == observed) ≡ false
          → get_field k final ≡ or_else (last_field k payload) (get_field k stored))
      × ((t : Text)
          → (text_of observed stored ≡ some t)
            ⊎ (text_of observed payload ≡ some t)
            ⊎ (env ≡ some t)
          → is_newer final t ≡ true)
unfolding upsert_value
upsert_value-merges payload stored env timed = (
  touch env (merge_fields stored payload),
  refl,
  λ k other.
      get_field-touch k env (merge_fields stored payload) other
      ∙ get_field-merge_fields k stored payload other,
  λ t given. elim given [
    | inl old ↦
        touch-keeps env (merge_fields stored payload) t
          (merge_fields-keeps stored payload t timed (rw old (text_le_refl t)))
    | inr (inl own) ↦
        touch-keeps env (merge_fields stored payload) t
          (merge_fields-time stored payload t timed own)
    | inr (inr enveloped) ↦ rw enveloped (touch-time t (merge_fields stored payload))
  ],
)
