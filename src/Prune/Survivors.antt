-- ===== src/Prune/Survivors.antt =====
-- conversation/prune/rules.rs: what the rules may prune.
use innen.Common.{
  ℕ, ◌<◌, ◌≡◌, refl, sym, true, false, ◌∙◌, subst, Option, none, some, List, [], ◌∷◌, ◌++◌, arith,
  any, find?, find?-eq-some, eqb, eqb_iff, Bool-cases, Option-cases, inl, inr, ◌⊎◌, Memᴰ, All, ◌==◌,
  ==_iff, nat_eq, list_eq,
}
use mathlib.Core.List.Memᴰ
use mathlib.Core.List.{append_assoc, append-nil}
use innen.Common.Text.{Text, text_lt}
use innen.Common.Maps.{lookup, lookup-put}
use innen.Prune.{
  PairedTool, ToolAction, read_file, write_file, search, status_check, Reason, superseded,
  redundant, no_results, Decision, PruneDecisions, RuleOutcome, is_kept, is_later_write, is_between,
  decide, writes_of, check_next, check_read, check_reads, check_paths, check_search, check_searches,
  push_read, group_reads, evaluate_prune_rules, is_empty_search_output,
}

-- One tool of a list, and another one at a later place of it.
pub data Behind (tool next : PairedTool) : List PairedTool → Type 0 where
  at_head : {rest : List PairedTool} → Memᴰ next rest → Behind tool next (tool ∷ rest)
  at_tail :
      {other : PairedTool} {rest : List PairedTool}
      → Behind tool next rest
      → Behind tool next (other ∷ rest)

Behind-later :
    (tool next : PairedTool) (before rest : List PairedTool)
    → Memᴰ tool before
    → Behind tool next (before ++ next ∷ rest)
Behind-later tool next [] rest m = absurd (Memᴰ.not-nil m)
Behind-later tool next (first ∷ before) rest m = elim (Memᴰ.cases_cons m) [
  | inl same ↦ rw (← same) (at_head (Memᴰ-middle before))
  | inr there ↦ at_tail (Behind-later tool next before rest there)
]
  where
    Memᴰ-middle : (xs : List PairedTool) → Memᴰ next (xs ++ next ∷ rest)
    Memᴰ-middle [] = Memᴰ.head refl
    Memᴰ-middle (x ∷ xs) = Memᴰ.tail (Memᴰ-middle xs)

-- What licenses each reason for pruning the output of a tool: a write behind its record; or, where no
-- write is behind its record, a read of the same path at a later place; or an empty search.
pub data Licensed (paired : List PairedTool) (file_writes : List (Text × List (ℕ × ℕ)))
    (tool : PairedTool) : Reason → Type 0 where
  by_write :
      {path : Text} {write : ℕ × ℕ}
      → tool.action ≡ read_file path
      → Memᴰ write (writes_of path file_writes)
      → tool.output_idx < write.0
      → Licensed paired file_writes tool (superseded path write.1)
  by_read :
      {path : Text} {next : PairedTool}
      → tool.action ≡ read_file path
      → Behind tool next paired
      → next.action ≡ read_file path
      → find? (is_later_write tool) (writes_of path file_writes) ≡ none
      → any (is_between tool next) (writes_of path file_writes) ≡ false
      → Licensed paired file_writes tool (redundant path next.output_line)
  by_nothing :
      {query : Text}
      → tool.action ≡ search query
      → is_empty_search_output tool.content_preview ≡ true
      → Licensed paired file_writes tool (no_results query)

ToolAction-cases :
    (a : ToolAction)
    → ((path : Text) × (a ≡ read_file path))
      ⊎ ((query : Text) × (a ≡ search query))
      ⊎ ((path : Text) × (a ≡ write_file path))
      ⊎ ((cmd : Text) × (a ≡ status_check cmd))
ToolAction-cases (read_file path) = inl (path, refl)
ToolAction-cases (search query) = inr (inl (query, refl))
ToolAction-cases (write_file path) = inr (inr (inl (path, refl)))
ToolAction-cases (status_check cmd) = inr (inr (inr (cmd, refl)))

-- The decision for a record is about a tool with its output there, which is no error and not recent.
abbrev pub IsDue : List PairedTool → List (Text × List (ℕ × ℕ)) → ℕ → ℕ → Decision → Type 0
IsDue paired file_writes keep_threshold i d =
    (tool : PairedTool) × Memᴰ tool paired
    × (tool.output_idx ≡ i)
    × (tool.is_error ≡ false)
    × (i < keep_threshold)
    × (d.chars ≡ tool.original_chars)
    × Licensed paired file_writes tool d.reason

module _ (paired : List PairedTool) (file_writes : List (Text × List (ℕ × ℕ)))
    (keep_threshold : ℕ) where
  abbrev AreDue : PruneDecisions → Type 0
  AreDue decisions =
      (i : ℕ) (d : Decision)
      → lookup i decisions ≡ some d
      → IsDue paired file_writes keep_threshold i d

  -- The first of the reads stands behind the tool.
  abbrev IsNext : PairedTool → List PairedTool → Type 0
  IsNext tool [] = Unit
  IsNext tool (next ∷ rest) = Behind tool next paired

  -- The reads of a group, each a read of the path and each behind the one before.
  abbrev AreReads : Text → List PairedTool → Type 0
  AreReads path [] = Unit
  AreReads path (tool ∷ rest) =
      (Memᴰ tool paired × (tool.action ≡ read_file path)) × IsNext tool rest × AreReads path rest

  -- The same of the tools that went before.
  abbrev AreGroups : List PairedTool → List (Text × List PairedTool) → Type 0
  AreGroups before groups =
      All
        (λ (group : Text × List PairedTool).
          AreReads group.0 group.1 × All (λ (tool : PairedTool). Memᴰ tool before) group.1)
        groups

  some-injective : {x y : Decision} → ◌≡◌ {A = Option Decision} (some x) (some y) → x ≡ y
  some-injective h = cc

  decide-AreDue :
      (tool : PairedTool) (reason : Reason) (decisions : PruneDecisions)
      → Memᴰ tool paired
      → is_kept keep_threshold tool ≡ false
      → Licensed paired file_writes tool reason
      → AreDue decisions
      → AreDue (decide tool reason decisions)
  unfolding is_kept
  decide-AreDue tool reason decisions m due licensed h i d found =
      let fresh : Decision = record { reason = reason; chars = tool.original_chars } in
      elim (Bool-cases (eqb tool.output_idx i)) [
        | inl same ↦
            let e : fresh ≡ d =
              some-injective (ground (arith, lookup-put tool.output_idx i fresh decisions, same)) in
            rw (sym e) (tool, m, (eqb_iff _ _).0 same, ground arith, ground arith, refl, licensed)
        | inr other ↦ h i d (ground (arith, lookup-put tool.output_idx i fresh decisions))
      ]

  check_next-AreDue :
      (path : Text) (tool : PairedTool) (rest : List PairedTool) (out : RuleOutcome)
      → AreReads path (tool ∷ rest)
      → is_kept keep_threshold tool ≡ false
      → find? (is_later_write tool) (writes_of path file_writes) ≡ none
      → AreDue out.decisions
      → AreDue (check_next path (writes_of path file_writes) tool rest out).decisions
  unfolding check_next
  check_next-AreDue path tool [] out reads due never h = h
  check_next-AreDue path tool (next ∷ rest) out reads due never h =
      elim (Bool-cases (any (is_between tool next) (writes_of path file_writes))) [
        | inl written ↦ rw (written, check_next) h
        | inr clear ↦
            let ((m, is_read), behind, ((_, is_next), _, _)) = reads in
            rw (clear, check_next)
              (decide-AreDue tool (redundant path next.output_line) out.decisions m due
                (by_read is_read behind is_next never clear) h)
      ]

  check_read-AreDue :
      (path : Text) (tool : PairedTool) (rest : List PairedTool) (out : RuleOutcome)
      → AreReads path (tool ∷ rest)
      → AreDue out.decisions
      → AreDue (check_read keep_threshold path (writes_of path file_writes) tool rest out).decisions
  unfolding check_read
  check_read-AreDue path tool rest out reads h = elim (Bool-cases (is_kept keep_threshold tool)) [
    | inl kept ↦ rw (kept, check_read) h
    | inr due ↦
        let ((m, is_read), _, _) = reads in
        elim (Option-cases (find? (is_later_write tool) (writes_of path file_writes))) [
          | inl never ↦
              rw (due, never, check_read) (check_next-AreDue path tool rest out reads due never h)
          | inr (write, found) ↦
              let (w, later) =
                find?-eq-some (is_later_write tool) (writes_of path file_writes) found in
              rw (due, found, check_read)
                (decide-AreDue tool (superseded path write.1) out.decisions m due
                  (by_write is_read w (ground arith)) h)
        ]
  ]

  check_reads-AreDue :
      (path : Text) (reads : List PairedTool) (out : RuleOutcome)
      → AreReads path reads
      → AreDue out.decisions
      → AreDue (check_reads keep_threshold path (writes_of path file_writes) reads out).decisions
  unfolding check_reads
  check_reads-AreDue path [] out reads h = h
  check_reads-AreDue path (tool ∷ rest) out reads h =
      check_reads-AreDue path rest _ reads.2 (check_read-AreDue path tool rest out reads h)

  check_paths-AreDue :
      (before : List PairedTool) (groups : List (Text × List PairedTool)) (out : RuleOutcome)
      → AreGroups before groups
      → AreDue out.decisions
      → AreDue (check_paths keep_threshold file_writes groups out).decisions
  unfolding check_paths
  check_paths-AreDue before [] out all h = h
  check_paths-AreDue before ((path, reads) ∷ groups) out all h =
      check_paths-AreDue before groups _ all.1 (check_reads-AreDue path reads out all.0.0 h)

  -- A read is pushed behind those that went before it.
  AreReads-push :
      (path : Text) (reads before rest : List PairedTool) (tool : PairedTool)
      → AreReads path reads
      → All (λ (t : PairedTool). Memᴰ t before) reads
      → paired ≡ before ++ tool ∷ rest
      → Memᴰ tool paired
      → tool.action ≡ read_file path
      → AreReads path (reads ++ tool ∷ [])
  AreReads-push path [] before rest tool h old split m is_read = ((m, is_read), tt, tt)
  AreReads-push path (read ∷ []) before rest tool h old split m is_read =
      (h.0, rw split (Behind-later read tool before rest old.0), ((m, is_read), tt, tt))
  AreReads-push path (read ∷ second ∷ reads) before rest tool h old split m is_read =
      (h.0, h.1, AreReads-push path (second ∷ reads) before rest tool h.2 old.1 split m is_read)

  Memᴰ-left :
      (tool last : PairedTool) (before : List PairedTool)
      → Memᴰ tool before
      → Memᴰ tool (before ++ last ∷ [])
  Memᴰ-left tool last [] m = absurd (Memᴰ.not-nil m)
  Memᴰ-left tool last (first ∷ before) m = elim (Memᴰ.cases_cons m) [
    | inl same ↦ Memᴰ.head same
    | inr there ↦ Memᴰ.tail (Memᴰ-left tool last before there)
  ]

  Memᴰ-last : (tool : PairedTool) (before : List PairedTool) → Memᴰ tool (before ++ tool ∷ [])
  Memᴰ-last tool [] = Memᴰ.head refl
  Memᴰ-last tool (first ∷ before) = Memᴰ.tail (Memᴰ-last tool before)

  All-left :
      (last : PairedTool) (before reads : List PairedTool)
      → All (λ (t : PairedTool). Memᴰ t before) reads
      → All (λ (t : PairedTool). Memᴰ t (before ++ last ∷ [])) reads
  All-left last before [] h = tt
  All-left last before (read ∷ reads) h =
      (Memᴰ-left read last before h.0, All-left last before reads h.1)

  All-push :
      (last : PairedTool) (before reads : List PairedTool)
      → All (λ (t : PairedTool). Memᴰ t before) reads
      → All (λ (t : PairedTool). Memᴰ t (before ++ last ∷ [])) (reads ++ last ∷ [])
  All-push last before [] h = (Memᴰ-last last before, tt)
  All-push last before (read ∷ reads) h =
      (Memᴰ-left read last before h.0, All-push last before reads h.1)

  AreGroups-left :
      (last : PairedTool) (before : List PairedTool) (groups : List (Text × List PairedTool))
      → AreGroups before groups
      → AreGroups (before ++ last ∷ []) groups
  AreGroups-left last before [] h = tt
  AreGroups-left last before ((p, reads) ∷ groups) h =
      ((h.0.0, All-left last before reads h.0.1), AreGroups-left last before groups h.1)

  push_read-AreGroups :
      (path : Text) (tool : PairedTool) (before rest : List PairedTool)
      (groups : List (Text × List PairedTool))
      → paired ≡ before ++ tool ∷ rest
      → Memᴰ tool paired
      → tool.action ≡ read_file path
      → AreGroups before groups
      → AreGroups (before ++ tool ∷ []) (push_read path tool groups)
  unfolding push_read
  push_read-AreGroups path tool before rest [] split m is_read all =
      ((((m, is_read), tt, tt), (Memᴰ-last tool before, tt)), tt)
  push_read-AreGroups path tool before rest ((p, reads) ∷ groups) split m is_read all =
      elim (Bool-cases (p == path)) [
        | inl same ↦
            rw (same, push_read)
              (
                (
                  AreReads-push p reads before rest tool all.0.0 all.0.1 split m
                      (rw ((==_iff p path).0 same) is_read),
                  All-push tool before reads all.0.1,
                ),
                AreGroups-left tool before groups all.1,
              )
        | inr other ↦ elim (Bool-cases (text_lt path p)) [
          | inl first ↦
              rw (other, first, push_read)
                (
                  (((m, is_read), tt, tt), (Memᴰ-last tool before, tt)),
                  AreGroups-left tool before ((p, reads) ∷ groups) all,
                )
          | inr behind ↦
              rw (other, behind, push_read)
                (
                  (all.0.0, All-left tool before reads all.0.1),
                  push_read-AreGroups path tool before rest groups split m is_read all.1,
                )
        ]
      ]

  group_reads-AreGroups :
      (before tools : List PairedTool) (groups : List (Text × List PairedTool))
      → paired ≡ before ++ tools
      → All (λ tool. Memᴰ tool paired) tools
      → AreGroups before groups
      → AreGroups paired (group_reads tools groups)
  unfolding group_reads
  group_reads-AreGroups before [] groups split all h =
      subst (λ b. AreGroups b groups) (sym (split ∙ append-nil before)) h
  group_reads-AreGroups before (tool ∷ tools) groups split all h =
      let split' = split ∙ sym (append_assoc before (tool ∷ []) tools) in
      let skipped =
        group_reads-AreGroups (before ++ tool ∷ []) tools groups split' all.1
          (AreGroups-left tool before groups h) in
      elim (ToolAction-cases tool.action) [
        | inl (path, e) ↦
            rw (e, group_reads)
              (group_reads-AreGroups (before ++ tool ∷ []) tools (push_read path tool groups) split'
                all.1 (push_read-AreGroups path tool before tools groups split all.0 e h))
        | inr (inl (query, e)) ↦ rw (e, group_reads) skipped
        | inr (inr (inl (path, e))) ↦ rw (e, group_reads) skipped
        | inr (inr (inr (cmd, e))) ↦ rw (e, group_reads) skipped
      ]

  check_found-AreDue :
      (tool : PairedTool) (query : Text) (out : RuleOutcome)
      → Memᴰ tool paired
      → is_kept keep_threshold tool ≡ false
      → tool.action ≡ search query
      → AreDue out.decisions
      → AreDue (check_search keep_threshold tool out).decisions
  unfolding check_search
  check_found-AreDue tool query out m due e h =
      elim (Bool-cases (is_empty_search_output tool.content_preview)) [
        | inl nothing ↦
            rw (due, e, nothing, check_search)
              (decide-AreDue tool (no_results query) out.decisions m due (by_nothing e nothing) h)
        | inr something ↦ rw (due, e, something, check_search) h
      ]

  check_search-AreDue :
      (tool : PairedTool) (out : RuleOutcome)
      → Memᴰ tool paired
      → AreDue out.decisions
      → AreDue (check_search keep_threshold tool out).decisions
  unfolding check_search
  check_search-AreDue tool out m h = elim (Bool-cases (is_kept keep_threshold tool)) [
    | inl kept ↦ rw (kept, check_search) h
    | inr due ↦ elim (ToolAction-cases tool.action) [
      | inl (path, e) ↦ rw (due, e, check_search) h
      | inr (inl (query, e)) ↦ check_found-AreDue tool query out m due e h
      | inr (inr (inl (path, e))) ↦ rw (due, e, check_search) h
      | inr (inr (inr (cmd, e))) ↦ rw (due, e, check_search) h
    ]
  ]

  check_searches-AreDue :
      (tools : List PairedTool) (out : RuleOutcome)
      → All (λ tool. Memᴰ tool paired) tools
      → AreDue out.decisions
      → AreDue (check_searches keep_threshold tools out).decisions
  unfolding check_searches
  check_searches-AreDue [] out all h = h
  check_searches-AreDue (tool ∷ tools) out all h =
      check_searches-AreDue tools _ all.1 (check_search-AreDue tool out all.0 h)

All-weaken :
    (tool : PairedTool) (paired tools : List PairedTool)
    → All (λ t. Memᴰ t paired) tools
    → All (λ t. Memᴰ t (tool ∷ paired)) tools
All-weaken tool paired [] all = tt
All-weaken tool paired (t ∷ tools) all = (Memᴰ.tail all.0, All-weaken tool paired tools all.1)

All-self : (paired : List PairedTool) → All (λ t. Memᴰ t paired) paired
All-self [] = tt
All-self (tool ∷ paired) = (Memᴰ.head refl, All-weaken tool paired paired (All-self paired))

-- Each decision of the rules is due: it is about the output of a paired tool, saves the characters of
-- that output, and has a reason that the tools and the writes license. That output is no error, and
-- its record is not among the recent ones.
pub evaluate_prune_rules-IsDue :
    (paired : List PairedTool) (file_writes : List (Text × List (ℕ × ℕ))) (keep_threshold : ℕ)
    (i : ℕ) (d : Decision)
    → lookup i (evaluate_prune_rules paired file_writes keep_threshold).decisions ≡ some d
    → IsDue paired file_writes keep_threshold i d
unfolding evaluate_prune_rules lookup
evaluate_prune_rules-IsDue paired file_writes keep_threshold i d found =
    check_searches-AreDue paired file_writes keep_threshold paired _ (All-self paired)
      (check_paths-AreDue paired file_writes keep_threshold paired (group_reads paired []) _
        (group_reads-AreGroups paired file_writes keep_threshold [] paired [] refl (All-self paired)
          tt)
        (λ j e h. absurd (cc h)))
      i d found
