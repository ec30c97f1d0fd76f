-- ===== src/Retention/Purge.antt =====
-- session_retention/purge.rs: a purge of one session, as the result and the actions that it took. The
-- journal's refusals, the loading of the graph from it, the hard links and the source's own deletion are
-- arguments, `System`.
pub mod Safe
use innen.Common.{
  ℕ, Bool, true, false, not, ◌&&◌, Option, none, some, List, [], ◌∷◌, ◌++◌, map, filter, is_empty,
  is_some_and, take, length, ltb, if◌then◌else◌, ◌==◌, nat_eq, list_eq, Outcome, ok, err, panic,
}
use innen.Common.Text.{Text, codes}
use innen.Graph.Replay.{Materialized}
use innen.Retention.{
  Source, codex, source_name, Candidate, Native, Blocker, Assessment, assess_candidate_with_graph,
}

pub data PurgeError : Type 0 where
  children_first : List Text → PurgeError
  rejected : List Blocker → PurgeError
  failure : Text → PurgeError

-- The nodes that are written, by what varies in them.
pub data Note : Type 0 where
  attempt : (id : Text) → (retention_days : ℕ) → Note
  purge_failure : (id attempt_id : Text) → PurgeError → Note
  purged :
      (id : Text)
      → (attempt_id : Option Text) → (source_sha256 : Text) → (deleted_targets : List Text) → Note

pub data Action : Type 0 where
  noted : Note → Action
  deletion : Assessment → Action

pub record PurgeReceipt : Type 0 where
  pub session_id : Text
  pub source : Text
  pub executed : Bool
  pub deleted_targets : List Text
  pub source_sha256 : Text
  pub other_hard_links : ℕ
  pub hard_linked_bytes : ℕ

pub record System : Type 0 where
  pub native : Native
  pub load_graph : List Action → Outcome Text Materialized
  pub refuses : List Action → Note → Option Text
  pub hard_links : List Text → ℕ × ℕ
  pub delete_candidate : Assessment → Outcome Text (List Text)
  pub nonce : Text

abbrev pub Run : Type 0 → Type 0
Run A = Outcome PurgeError A × List Action

abbrev pub is_codex : Source → Bool
is_codex codex = true
is_codex _ = false

module _ (system : System) (candidate : Candidate) (retention_days : ℕ) where
  -- `append_retention_node`: nothing is written when the journal refuses.
  unfoldable pub write_note : Note → List Action → Run (Unit {0})
  write_note note actions = elim (system.refuses actions note) [
    | none ↦ (ok tt, actions ++ noted note ∷ [])
    | some e ↦ (err (failure e), actions)
  ]

  abbrev pub attempt_name : Text
  attempt_name =
      codes "session-purge-attempt:"
      ++ (source_name candidate.source
          ++ (codes ":" ++ (candidate.id ++ (codes ":" ++ system.nonce))))

  unfoldable pub live_children : List Candidate → List Text
  live_children store =
      map (λ (child : Candidate). child.id)
        (filter
          (λ (child : Candidate).
            is_some_and child.parent_id (λ parent. parent == candidate.id)
            && system.native.exists child.path)
          store)

  -- `record_purge_failure` where there was an attempt; a refusal takes the place of the error.
  unfoldable pub give_up : Option Text → PurgeError → List Action → Run PurgeReceipt
  unfolding write_note
  give_up none e actions = (err e, actions)
  give_up (some id) e actions =
      let (done, after) = write_note (purge_failure (id ++ codes ":failure") id e) actions in
      (elim done [ ok _ ↦ err e | err e' ↦ err e' | panic ↦ panic ], after)

  abbrev pub purge_receipt : Bool → List Text → Assessment → PurgeReceipt
  purge_receipt executed targets a = record {
    session_id = candidate.id;
    source = source_name candidate.source;
    executed = executed;
    deleted_targets = targets;
    source_sha256 = a.source_sha256;
    other_hard_links = (system.hard_links a.targets).0;
    hard_linked_bytes = (system.hard_links a.targets).1;
  }

  -- `&assessment.source_sha256[..16]` and the receipt's node.
  unfoldable pub write_receipt :
      Option Text → Assessment → List Text → List Action → Run PurgeReceipt
  unfolding write_note
  write_receipt attempt_id a targets actions =
      if ltb (length a.source_sha256) 16
      then (panic, actions)
      else let name =
          codes "session-purge:"
          ++ (source_name candidate.source
              ++ (codes ":" ++ (candidate.id ++ (codes ":" ++ take 16 a.source_sha256)))) in
        let (done, after) = write_note (purged name attempt_id a.source_sha256 targets) actions in
        (
          elim done [ ok _ ↦ ok (purge_receipt true targets a) | err e ↦ err e | panic ↦ panic ],
          after,
        )

  unfoldable pub remove : Option Text → Assessment → List Action → Run PurgeReceipt
  unfolding give_up write_receipt
  remove attempt_id a actions = elim (system.delete_candidate a) [
    | ok targets ↦ write_receipt attempt_id a targets (actions ++ deletion a ∷ [])
    | err e ↦ give_up attempt_id (failure e) (actions ++ deletion a ∷ [])
    | panic ↦ (panic, actions ++ deletion a ∷ [])
  ]

  unfoldable pub judge : Bool → Option Text → Assessment → List Action → Run PurgeReceipt
  unfolding give_up remove
  judge execute attempt_id a actions =
      if not a.eligible
      then give_up attempt_id (rejected a.blockers) actions
      else if not execute
      then (ok (purge_receipt false [] a), actions)
      else remove attempt_id a actions

  -- `assess_candidate`: the graph is loaded from the journal as the attempt left it.
  unfoldable pub assess_candidate : List Action → Outcome Text Assessment
  unfolding assess_candidate_with_graph
  assess_candidate actions = elim (system.load_graph actions) [
    | ok graph ↦ assess_candidate_with_graph system.native graph candidate
    | err e ↦ err e
    | panic ↦ panic
  ]

  unfoldable pub assess_and_judge : Bool → Option Text → List Action → Run PurgeReceipt
  unfolding assess_candidate judge give_up
  assess_and_judge execute attempt_id actions = elim (assess_candidate actions) [
    | ok a ↦ judge execute attempt_id a actions
    | err e ↦ give_up attempt_id (failure e) actions
    | panic ↦ (panic, actions)
  ]

  -- `record_purge_attempt(…)?` and what follows.
  unfoldable pub run_attempt : Run (Unit {0}) → Run PurgeReceipt
  unfolding assess_and_judge
  run_attempt (ok _, actions) = assess_and_judge true (some attempt_name) actions
  run_attempt (err e, actions) = (err e, actions)
  run_attempt (panic, actions) = (panic, actions)

  unfoldable pub purge_candidate : List Candidate → Bool → Run PurgeReceipt
  unfolding live_children write_note assess_and_judge run_attempt
  purge_candidate store execute =
      if is_codex candidate.source && not (is_empty (live_children store))
      then (err (children_first (live_children store)), [])
      else if not execute
      then assess_and_judge execute none []
      else run_attempt (write_note (attempt attempt_name retention_days) [])
