-- ===== src/Retention/Purge/Safe.antt =====
-- session_retention/purge.rs: when a purge deletes.
use innen.Common.{
  ◌≡◌, refl, ap, sym, ◌∙◌, ℕ, Bool, true, false, not, ◌&&◌, Option, none, some, List, [], ◌∷◌, ◌++◌,
  is_empty, length, ltb, if◌then◌else◌, Outcome, ok, err, panic, Bool-cases, Option-cases, inl, inr,
  ◌⊎◌, arith,
}
use mathlib.Core.List.{append-nil}
use innen.Common.Text.{Text}
use innen.Graph.Replay.{Materialized}
use innen.Retention.{Candidate, Assessment, Bundle}
use innen.Retention.Gates.{IsReleased, eligible-IsReleased}
use innen.Retention.Purge.{
  Run, PurgeReceipt, PurgeError, failure, Note, attempt, Action, noted, deletion, System, is_codex,
  write_note, attempt_name, live_children, give_up, write_receipt, remove, judge, assess_candidate,
  assess_and_judge, run_attempt, purge_candidate,
}

abbrev pub deletions : List Action → List Assessment
deletions [] = []
deletions (noted n ∷ rest) = deletions rest
deletions (deletion a ∷ rest) = a ∷ deletions rest

-- More was noted, and nothing deleted.
abbrev Quiet : List Action → List Action → Type 0
Quiet before after = (rest : List Action) × (after ≡ before ++ rest) × (deletions rest ≡ [])

Quiet-refl : (t : List Action) → Quiet t t
Quiet-refl t = ([], sym (append-nil t), refl)

Outcome-cases :
    {E A : Type 0} (m : Outcome E A)
    → ((a : A) × (m ≡ ok a)) ⊎ (((e : E) × (m ≡ err e)) ⊎ (m ≡ panic))
Outcome-cases (ok a) = inl (a, refl)
Outcome-cases (err e) = inr (inl (e, refl))
Outcome-cases panic = inr (inr refl)

module _ (system : System) (candidate : Candidate) (retention_days : ℕ) where
  write_note-written :
      (note : Note) (t : List Action)
      → system.refuses t note ≡ none
      → write_note system candidate retention_days note t ≡ (ok tt, t ++ noted note ∷ [])
  unfolding write_note
  write_note-written note t written = rw (written, write_note) refl

  write_note-refused :
      (note : Note) (t : List Action) (e : Text)
      → system.refuses t note ≡ some e
      → write_note system candidate retention_days note t ≡ (err (failure e), t)
  unfolding write_note
  write_note-refused note t e refused = rw (refused, write_note) refl

  write_note-Quiet :
      (note : Note) (t : List Action)
      → Quiet t (write_note system candidate retention_days note t).1
  write_note-Quiet note t = elim (Option-cases (system.refuses t note)) [
    | inl written ↦ rw (write_note-written note t written) (noted note ∷ [], refl, refl)
    | inr (e, refused) ↦ rw (write_note-refused note t e refused) (Quiet-refl t)
  ]

  give_up-Quiet :
      (id : Option Text) (e : PurgeError) (t : List Action)
      → Quiet t (give_up system candidate retention_days id e t).1
  unfolding give_up
  give_up-Quiet none e t = Quiet-refl t
  give_up-Quiet (some id) e t = write_note-Quiet _ t

  write_receipt-Quiet :
      (id : Option Text) (a : Assessment) (targets : List Text) (t : List Action)
      → Quiet t (write_receipt system candidate retention_days id a targets t).1
  unfolding write_receipt
  write_receipt-Quiet id a targets t = elim (Bool-cases (ltb (length a.source_sha256) 16)) [
    | inl short ↦ rw (short, write_receipt) (Quiet-refl t)
    | inr long ↦ rw (long, write_receipt) (write_note-Quiet _ t)
  ]

  remove-Quiet :
      (id : Option Text) (a : Assessment) (t : List Action)
      → Quiet (t ++ deletion a ∷ []) (remove system candidate retention_days id a t).1
  unfolding remove
  remove-Quiet id a t = elim (Outcome-cases (system.delete_candidate a)) [
    | inl (targets, gone) ↦ rw (gone, remove) (write_receipt-Quiet id a targets _)
    | inr (inl (e, failed)) ↦ rw (failed, remove) (give_up-Quiet id _ _)
    | inr (inr broken) ↦ rw (broken, remove) (Quiet-refl _)
  ]

  -- Either nothing is deleted, or the session that is assessed as eligible.
  abbrev Deletes : Bool → List Action → List Action → Type 0
  Deletes execute before after =
      Quiet before after
      ⊎ (a : Assessment) × (assess_candidate system candidate retention_days before ≡ ok a)
        × (a.eligible ≡ true)
        × (execute ≡ true)
        × Quiet (before ++ deletion a ∷ []) after

  -- A run that is decided by a test that is known.
  taken : {A : Type 0} (b : Bool) (x y : A) → b ≡ true → (if not b then x else y) ≡ y
  taken true x y h = refl
  taken false x y h = cc

  judge-remove :
      (execute : Bool) (id : Option Text) (a : Assessment) (t : List Action)
      → a.eligible ≡ true
      → execute ≡ true
      → judge system candidate retention_days execute id a t
        ≡ remove system candidate retention_days id a t
  unfolding judge
  judge-remove execute id a t eligible go = taken a.eligible _ _ eligible ∙ taken execute _ _ go

  assess_and_judge-judge :
      (execute : Bool) (id : Option Text) (t : List Action) (a : Assessment)
      → assess_candidate system candidate retention_days t ≡ ok a
      → assess_and_judge system candidate retention_days execute id t
        ≡ judge system candidate retention_days execute id a t
  unfolding assess_and_judge
  assess_and_judge-judge execute id t a assessed = rw (assessed, assess_and_judge) refl

  judge-Deletes :
      (execute : Bool) (id : Option Text) (a : Assessment) (t : List Action)
      → assess_candidate system candidate retention_days t ≡ ok a
      → Deletes execute t (judge system candidate retention_days execute id a t).1
  unfolding judge
  judge-Deletes execute id a t assessed = elim (Bool-cases a.eligible) [
    | inr blocked ↦ rw (blocked, judge) (inl (give_up-Quiet id _ t))
    | inl eligible ↦ elim (Bool-cases execute) [
      | inl go ↦
          rw (judge-remove execute id a t eligible go)
            (inr (a, assessed, eligible, go, remove-Quiet id a t))
      | inr dry ↦ rw (eligible, dry, judge) (inl (Quiet-refl t))
    ]
  ]

  assess_and_judge-Deletes :
      (execute : Bool) (id : Option Text) (t : List Action)
      → Deletes execute t (assess_and_judge system candidate retention_days execute id t).1
  unfolding assess_and_judge
  assess_and_judge-Deletes execute id t =
      elim (Outcome-cases (assess_candidate system candidate retention_days t)) [
        | inl (a, assessed) ↦
            rw (assess_and_judge-judge execute id t a assessed)
              (judge-Deletes execute id a t assessed)
        | inr (inl (e, failed)) ↦ rw (failed, assess_and_judge) (inl (give_up-Quiet id _ t))
        | inr (inr broken) ↦ rw (broken, assess_and_judge) (inl (Quiet-refl t))
      ]

  assess_candidate-IsReleased :
      (t : List Action) (a : Assessment)
      → assess_candidate system candidate retention_days t ≡ ok a
      → a.eligible ≡ true
      → (graph : Materialized) × (system.load_graph t ≡ ok graph)
        × ((bundle : Bundle) × (system.native.bundle ≡ ok bundle)
            × IsReleased system.native graph candidate bundle)
  unfolding assess_candidate
  assess_candidate-IsReleased t a h eligible = elim (Outcome-cases (system.load_graph t)) [
    | inl (graph, loaded) ↦ (
      graph,
      loaded,
      eligible-IsReleased system.native graph candidate a (rw (loaded, assess_candidate) at h)
          eligible,
    )
    | inr (inl (e, failed)) ↦ absurd (cc (rw (failed, assess_candidate) at h))
    | inr (inr broken) ↦ absurd (cc (rw (broken, assess_candidate) at h))
  ]

  -- What stands in front of a deletion: the attempt is noted, the session has no live child that would go
  -- with it, and it is released as the graph stands after that note.
  pub record IsOrderly (store : List Candidate) (execute : Bool) (a : Assessment)
      (actions : List Action) : Type 0 where
    pub wanted : execute ≡ true
    pub childless :
        is_codex candidate.source ≡ true
        → is_empty (live_children system candidate retention_days store) ≡ true
    pub first :
        (rest : List Action) × (actions
          ≡ noted (attempt (attempt_name system candidate retention_days) retention_days)
            ∷ deletion a
            ∷ rest)
    pub released :
        (graph : Materialized) × (system.load_graph
            (noted (attempt (attempt_name system candidate retention_days) retention_days) ∷ [])
          ≡ ok graph)
        × ((bundle : Bundle) × (system.native.bundle ≡ ok bundle)
            × IsReleased system.native graph candidate bundle)

  abbrev note0 : Note
  note0 = attempt (attempt_name system candidate retention_days) retention_days

  abbrev is_parent : List Candidate → Bool
  is_parent store =
      is_codex candidate.source
      && not (is_empty (live_children system candidate retention_days store))

  stopped : {A : Type 0} (b : Bool) (x y : A) → b ≡ true → (if b then x else y) ≡ x
  stopped true x y h = refl
  stopped false x y h = cc

  passed : {A : Type 0} (b : Bool) (x y : A) → b ≡ false → (if b then x else y) ≡ y
  passed false x y h = refl
  passed true x y h = cc

  purge_candidate-parent :
      (store : List Candidate) (execute : Bool)
      → is_parent store ≡ true
      → (purge_candidate system candidate retention_days store execute).1 ≡ []
  unfolding purge_candidate
  purge_candidate-parent store execute parent =
      ap (λ (r : Run PurgeReceipt). r.1) (stopped (is_parent store) _ _ parent)

  purge_candidate-planned :
      (store : List Candidate)
      → is_parent store ≡ false
      → purge_candidate system candidate retention_days store false
        ≡ assess_and_judge system candidate retention_days false none []
  unfolding purge_candidate
  purge_candidate-planned store clear = passed (is_parent store) _ _ clear

  purge_candidate-refused :
      (store : List Candidate) (e : Text)
      → is_parent store ≡ false
      → system.refuses [] note0 ≡ some e
      → (purge_candidate system candidate retention_days store true).1 ≡ []
  unfolding purge_candidate run_attempt
  purge_candidate-refused store e clear refused =
      ap (λ (r : Run PurgeReceipt). r.1) (passed (is_parent store) _ _ clear)
      ∙ ap (λ w. (run_attempt system candidate retention_days w).1)
          (write_note-refused note0 [] e refused)

  purge_candidate-started :
      (store : List Candidate)
      → is_parent store ≡ false
      → system.refuses [] note0 ≡ none
      → purge_candidate system candidate retention_days store true
        ≡ assess_and_judge system candidate retention_days true
            (some (attempt_name system candidate retention_days))
            (noted note0 ∷ [])
  unfolding purge_candidate run_attempt
  purge_candidate-started store clear written =
      passed (is_parent store) _ _ clear
      ∙ ap (run_attempt system candidate retention_days) (write_note-written note0 [] written)

  abbrev IsSafe : List Candidate → Bool → List Action → Type 0
  IsSafe store execute actions =
      (deletions actions ≡ [])
      ⊎ (a : Assessment) × (deletions actions ≡ a ∷ []) × IsOrderly store execute a actions

  planned-IsSafe :
      (store : List Candidate) (after : List Action)
      → Deletes false [] after
      → IsSafe store false after
  planned-IsSafe store after (inl (rest, same, quiet)) = inl (ap deletions same ∙ quiet)
  planned-IsSafe store after (inr (a, assessed, eligible, impossible, rest)) = cc

  started-IsSafe :
      (store : List Candidate) (after : List Action)
      → is_parent store ≡ false
      → Deletes true (noted note0 ∷ []) after
      → IsSafe store true after
  started-IsSafe store after clear (inl (rest, same, quiet)) = inl (ap deletions same ∙ quiet)
  started-IsSafe store after clear (inr (a, assessed, eligible, wanted, (rest, same, quiet))) =
      inr (
        a,
        ap deletions same ∙ ap (λ l. a ∷ l) quiet,
        record {
          wanted = refl;
          childless = λ codex. ground arith;
          first = (rest, same);
          released = assess_candidate-IsReleased (noted note0 ∷ []) a assessed eligible;
        },
      )

  -- A purge deletes nothing, or it deletes one session, of which it holds: the purge was to be executed, a
  -- Codex session has no child session that still exists, the note of the attempt is the first action and the
  -- deletion the second, and in the graph as loaded after that note the session has passed every gate.
  pub purge_candidate-deletes :
      (store : List Candidate) (execute : Bool)
      → (deletions (purge_candidate system candidate retention_days store execute).1 ≡ [])
        ⊎ (a : Assessment) × (deletions
              (purge_candidate system candidate retention_days store execute).1
            ≡ a ∷ [])
          × IsOrderly store execute a
              (purge_candidate system candidate retention_days store execute).1
  purge_candidate-deletes store execute = elim (Bool-cases (is_parent store)) [
    | inl parent ↦ inl (ap deletions (purge_candidate-parent store execute parent))
    | inr clear ↦ allowed execute clear
  ]
    where
      allowed :
          (execute : Bool)
          → is_parent store ≡ false
          → IsSafe store execute (purge_candidate system candidate retention_days store execute).1
      allowed false clear =
          rw (purge_candidate-planned store clear)
            (planned-IsSafe store _ (assess_and_judge-Deletes false none []))
      allowed true clear = elim (Option-cases (system.refuses [] note0)) [
        | inl written ↦
            rw (purge_candidate-started store clear written)
              (started-IsSafe store _ clear (assess_and_judge-Deletes true _ (noted note0 ∷ [])))
        | inr (e, refused) ↦ inl (ap deletions (purge_candidate-refused store e clear refused))
      ]
