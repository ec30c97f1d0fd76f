-- ===== src/Journal/Sample.antt =====
-- A codec that meets what is assumed of `serde_json`, for the examples: a postfix program of tags and
-- numbers, all from 100 up, which a stack machine reads.
use innen.Common.{
  ltb, ℕ, ◌<◌, ◌+◌, ◌-◌, ◌≡◌, refl, ap, ◌∙◌, true, false, Option, none, some, List, [], ◌∷◌, arith,
  contains, nat_eq, if◌then◌else◌, eqb,
}
use innen.Common.Text.{Text, codes, is_blank}
use innen.Common.Json.{
  Json, Items, Fields, null, bool, num, neg, real, str, arr, obj, nil, cons, end, field,
}
use innen.Graph.Requests.{JournalEntry}
use innen.Journal.{Codec, keep_line, is_utf8}
use innen.Journal.Reading.{IsFaithful, IsStable}

pub data Op : Type 0 where
  push_null : Op
  push_bool : Op
  push_num : Op
  push_neg : Op
  push_real : Op
  push_text : Op
  add_char : Op
  make_str : Op
  push_nil : Op
  make_cons : Op
  make_arr : Op
  push_end : Op
  make_field : Op
  make_obj : Op

pub data Val : Type 0 where
  text : Text → Val
  json : Json → Val
  items : Items → Val
  fields : Fields → Val

abbrev op_code : Op → ℕ
op_code push_null = 100
op_code push_bool = 101
op_code push_num = 102
op_code push_neg = 103
op_code push_real = 104
op_code push_text = 105
op_code add_char = 106
op_code make_str = 107
op_code push_nil = 108
op_code make_cons = 109
op_code make_arr = 110
op_code push_end = 111
op_code make_field = 112
op_code make_obj = 113

op_of : ℕ → Op
op_of c =
    if eqb c 100
    then push_null
    else if eqb c 101
    then push_bool
    else if eqb c 102
    then push_num
    else if eqb c 103
    then push_neg
    else if eqb c 104
    then push_real
    else if eqb c 105
    then push_text
    else if eqb c 106
    then add_char
    else if eqb c 107
    then make_str
    else if eqb c 108
    then push_nil
    else if eqb c 109
    then make_cons
    else if eqb c 110
    then make_arr
    else if eqb c 111
    then push_end
    else if eqb c 112
    then make_field
    else make_obj

op_of-op_code : (o : Op) → op_of (op_code o) ≡ o
unfolding op_of
op_of-op_code push_null = refl
op_of-op_code o = refl

step : Op → ℕ → List Val → List Val
step push_null a st = json null ∷ st
step push_bool a st = json (bool (eqb a 1)) ∷ st
step push_num a st = json (num a) ∷ st
step push_neg a st = json (neg a) ∷ st
step push_real a st = json (real a) ∷ st
step push_text a st = text [] ∷ st
step add_char a (text s ∷ st) = text (a ∷ s) ∷ st
step make_str a (text s ∷ st) = json (str s) ∷ st
step push_nil a st = items nil ∷ st
step make_cons a (items xs ∷ json x ∷ st) = items (cons x xs) ∷ st
step make_arr a (items xs ∷ st) = json (arr xs) ∷ st
step push_end a st = fields end ∷ st
step make_field a (fields fs ∷ json v ∷ text k ∷ st) = fields (field k v fs) ∷ st
step make_obj a (fields fs ∷ st) = json (obj fs) ∷ st
step o a st = st

-- Numbers from 100 up, without those that are no characters.
code_of : ℕ → ℕ
code_of a = if ltb a 50000 then a + 100 else a + 10100

number_of : ℕ → ℕ
number_of c = if ltb c 50100 then c - 100 else c - 10100

number_of-code_of : (a : ℕ) → number_of (code_of a) ≡ a
unfolding number_of code_of
number_of-code_of a = ground arith

run : Text → List Val → List Val
unfolding number_of
run (c ∷ a ∷ rest) st = run rest (step (op_of c) (number_of a) st)
run s st = st

abbrev emit : Op → ℕ → Text → Text
emit o a rest = op_code o ∷ code_of a ∷ rest

run-emit :
    (o : Op) (a : ℕ) (rest : Text) (st : List Val) → run (emit o a rest) st ≡ run rest (step o a st)
unfolding run
run-emit o a rest st = rw (op_of-op_code o, number_of-code_of a) refl

write_text : Text → Text → Text
write_text [] rest = emit push_text 0 rest
write_text (c ∷ s) rest = write_text s (emit add_char c rest)

mutual
  write_json : Json → Text → Text
  write_json null rest = emit push_null 0 rest
  write_json (bool b) rest = emit push_bool (if b then 1 else 0) rest
  write_json (num n) rest = emit push_num n rest
  write_json (neg n) rest = emit push_neg n rest
  write_json (real n) rest = emit push_real n rest
  write_json (str s) rest = write_text s (emit make_str 0 rest)
  write_json (arr xs) rest = write_items xs (emit make_arr 0 rest)
  write_json (obj fs) rest = write_fields fs (emit make_obj 0 rest)

  write_items : Items → Text → Text
  write_items nil rest = emit push_nil 0 rest
  write_items (cons x xs) rest = write_json x (write_items xs (emit make_cons 0 rest))

  write_fields : Fields → Text → Text
  write_fields end rest = emit push_end 0 rest
  write_fields (field k v fs) rest =
      write_text k (write_json v (write_fields fs (emit make_field 0 rest)))

run-write_text :
    (s rest : Text) (st : List Val) → run (write_text s rest) st ≡ run rest (text s ∷ st)
unfolding write_text step
run-write_text [] rest st = run-emit push_text 0 rest st
run-write_text (c ∷ s) rest st =
    run-write_text s (emit add_char c rest) st ∙ run-emit add_char c rest (text s ∷ st)

mutual
  unfolding write_json write_items write_fields step

  run-write_json :
      (j : Json) (rest : Text) (st : List Val) → run (write_json j rest) st ≡ run rest (json j ∷ st)
  run-write_json null rest st = run-emit push_null 0 rest st
  run-write_json (bool true) rest st = run-emit push_bool 1 rest st
  run-write_json (bool false) rest st = run-emit push_bool 0 rest st
  run-write_json (num n) rest st = run-emit push_num n rest st
  run-write_json (neg n) rest st = run-emit push_neg n rest st
  run-write_json (real n) rest st = run-emit push_real n rest st
  run-write_json (str s) rest st =
      run-write_text s (emit make_str 0 rest) st ∙ run-emit make_str 0 rest (text s ∷ st)
  run-write_json (arr xs) rest st =
      run-write_items xs (emit make_arr 0 rest) st ∙ run-emit make_arr 0 rest (items xs ∷ st)
  run-write_json (obj fs) rest st =
      run-write_fields fs (emit make_obj 0 rest) st ∙ run-emit make_obj 0 rest (fields fs ∷ st)

  run-write_items :
      (xs : Items) (rest : Text) (st : List Val)
      → run (write_items xs rest) st ≡ run rest (items xs ∷ st)
  run-write_items nil rest st = run-emit push_nil 0 rest st
  run-write_items (cons x xs) rest st =
      run-write_json x (write_items xs (emit make_cons 0 rest)) st
      ∙ run-write_items xs (emit make_cons 0 rest) (json x ∷ st)
      ∙ run-emit make_cons 0 rest (items xs ∷ json x ∷ st)

  run-write_fields :
      (fs : Fields) (rest : Text) (st : List Val)
      → run (write_fields fs rest) st ≡ run rest (fields fs ∷ st)
  run-write_fields end rest st = run-emit push_end 0 rest st
  run-write_fields (field k v fs) rest st =
      run-write_text k (write_json v (write_fields fs (emit make_field 0 rest))) st
      ∙ run-write_json v (write_fields fs (emit make_field 0 rest)) (text k ∷ st)
      ∙ run-write_fields fs (emit make_field 0 rest) (json v ∷ text k ∷ st)
      ∙ run-emit make_field 0 rest (fields fs ∷ json v ∷ text k ∷ st)

-- What each step of the program keeps, the program keeps.
module _ (P : Text → Type 0)
    (keep : (o : Op) (a : ℕ) (rest : Text) → P rest → P (emit o a rest)) where
  write_text-keeps : (s rest : Text) → P rest → P (write_text s rest)
  unfolding write_text
  write_text-keeps [] rest h = keep push_text 0 rest h
  write_text-keeps (d ∷ s) rest h =
      write_text-keeps s (emit add_char d rest) (keep add_char d rest h)

  mutual
    unfolding write_json write_items write_fields

    write_json-keeps : (j : Json) (rest : Text) → P rest → P (write_json j rest)
    write_json-keeps null rest h = keep push_null 0 rest h
    write_json-keeps (bool b) rest h = keep push_bool (if b then 1 else 0) rest h
    write_json-keeps (num n) rest h = keep push_num n rest h
    write_json-keeps (neg n) rest h = keep push_neg n rest h
    write_json-keeps (real n) rest h = keep push_real n rest h
    write_json-keeps (str s) rest h =
        write_text-keeps s (emit make_str 0 rest) (keep make_str 0 rest h)
    write_json-keeps (arr xs) rest h =
        write_items-keeps xs (emit make_arr 0 rest) (keep make_arr 0 rest h)
    write_json-keeps (obj fs) rest h =
        write_fields-keeps fs (emit make_obj 0 rest) (keep make_obj 0 rest h)

    write_items-keeps : (xs : Items) (rest : Text) → P rest → P (write_items xs rest)
    write_items-keeps nil rest h = keep push_nil 0 rest h
    write_items-keeps (cons x xs) rest h =
        write_json-keeps x (write_items xs (emit make_cons 0 rest))
          (write_items-keeps xs (emit make_cons 0 rest) (keep make_cons 0 rest h))

    write_fields-keeps : (fs : Fields) (rest : Text) → P rest → P (write_fields fs rest)
    write_fields-keeps end rest h = keep push_end 0 rest h
    write_fields-keeps (field k v fs) rest h =
        write_text-keeps k (write_json v (write_fields fs (emit make_field 0 rest))) (
          write_json-keeps v (write_fields fs (emit make_field 0 rest))
            (write_fields-keeps fs (emit make_field 0 rest) (keep make_field 0 rest h)))

write_text-is_blank : (s rest : Text) → is_blank (write_text s rest) ≡ false
unfolding write_text is_blank
write_text-is_blank [] rest = refl
write_text-is_blank (c ∷ s) rest = write_text-is_blank s (emit add_char c rest)

unfoldable pub render : JournalEntry → Text
unfolding write_text write_json write_items write_fields code_of
render e = write_text e.id (write_text e.op (write_json e.payload (write_text e.observed_utc [])))

entry_of : List Val → Option JournalEntry
entry_of (text t ∷ json p ∷ text o ∷ text i ∷ []) =
    some (record { id = i; op = o; payload = p; observed_utc = t })
entry_of st = none

unfoldable pub parse_entry : Text → Option JournalEntry
unfolding entry_of run step op_of number_of
parse_entry s = entry_of (run s [])

abbrev pub object_of : JournalEntry → Json
object_of e = obj (field (codes "id") (str e.id) (field (codes "op") (str e.op) end))

abbrev pub parse_object : Option JournalEntry → Option Json
parse_object none = none
parse_object (some e) = some (object_of e)

abbrev pub sample : Codec
sample = record {
  parse = λ s. parse_object (parse_entry s);
  parse_entry = parse_entry;
  render = render;
  event_id = λ op payload. op;
}

parse_entry-render : (e : JournalEntry) → parse_entry (render e) ≡ some e
unfolding render parse_entry entry_of run
parse_entry-render e =
    let later = write_text e.observed_utc [] in
    ap entry_of (
      run-write_text e.id (write_text e.op (write_json e.payload later)) []
      ∙ run-write_text e.op (write_json e.payload later) (text e.id ∷ [])
      ∙ run-write_json e.payload later (text e.op ∷ text e.id ∷ [])
      ∙ run-write_text e.observed_utc [] (json e.payload ∷ text e.op ∷ text e.id ∷ []))

render-keeps :
    (P : Text → Type 0)
    → ((o : Op) (a : ℕ) (rest : Text) → P rest → P (emit o a rest))
    → P []
    → (e : JournalEntry) → P (render e)
unfolding render
render-keeps P keep empty e =
    let later = write_text e.observed_utc [] in
    write_text-keeps P keep e.id (write_text e.op (write_json e.payload later)) (
      write_text-keeps P keep e.op (write_json e.payload later)
        (write_json-keeps P keep e.payload later (write_text-keeps P keep e.observed_utc [] empty)))

-- The character does not occur, where it is below 100.
abbrev Lacks : ℕ → Text → Type 0
Lacks c s = contains s c ≡ false

emit-Lacks :
    (c : ℕ) → c < 100 → (o : Op) (a : ℕ) (rest : Text) → Lacks c rest → Lacks c (emit o a rest)
unfolding code_of
emit-Lacks c low push_null a rest h = ground arith
emit-Lacks c low o a rest h = ground arith

emit-is_utf8 : (o : Op) (a : ℕ) (rest : Text) → is_utf8 rest ≡ true → is_utf8 (emit o a rest) ≡ true
unfolding code_of
emit-is_utf8 push_null a rest h = ground arith
emit-is_utf8 o a rest h = ground arith

render-Lacks : (c : ℕ) → c < 100 → (e : JournalEntry) → Lacks c (render e)
render-Lacks c low = render-keeps (Lacks c) (emit-Lacks c low) refl

render-is_blank : (e : JournalEntry) → is_blank (render e) ≡ false
unfolding render
render-is_blank e = write_text-is_blank e.id _

pub sample-IsFaithful : IsFaithful sample
sample-IsFaithful = record {
  one_line = λ e. (render-Lacks 10 (omega arith) e, render-Lacks 13 (omega arith) e);
  not_blank = render-is_blank;
  valid = render-keeps (λ s. is_utf8 s ≡ true) emit-is_utf8 refl;
}

pub sample-IsStable : (e : JournalEntry) → IsStable sample e
unfolding keep_line
sample-IsStable e = record {
  reads_back = parse_entry-render e;
  kept = rw (parse_entry-render e) refl;
}
