-- ===== src/GoalRuntime/Writing.antt =====
-- What `WriteEvidence` refuses, and what it leaves in the ledger.
use natsx.Base.{
  true, false, List, [], ◌∷◌, ◌++◌, some, ◌≡◌, ◌⊎◌, arith, is_empty, text_eq, text_eq_refl,
}
use natsx.Base.Text.{Text}
use natsx.Errors.{is_nil, ok}
use natsx.GoalRuntime.Data.{Files, ReadsBack, Json, Encodes, LedgerEntry, Report}
use natsx.GoalRuntime.Ledger.{
  read_ledger_entries, upsert_ledger_entry, validate_final_prerequisites,
}
use natsx.GoalRuntime.Evidence.{
  is_known, is_final, is_passed, root_or_dot, ledger_entry_for_report, write_evidence,
}
use natsx.GoalRuntime.Upsert.{others, read-upsert}
use natsx.GoalRuntime.Prerequisites.{last_of, IsMet}

-- The last entry of a list that ends in an entry of the goal's command is that one.
last_of-append :
    (goal command : Text) (es : List LedgerEntry) (e : LedgerEntry)
    → text_eq e.goal_id goal ≡ true
    → text_eq e.command command ≡ true
    → last_of goal command (es ++ e ∷ []) ≡ some e
unfolding last_of
last_of-append goal command [] e hg hc = ground (arith, hg, hc)
last_of-append goal command (d ∷ es) e hg hc =
    ground (arith, last_of-append goal command es e hg hc)

module _ (json : Json) (files : Files) where
  -- A report that names no goal command, or that is not passed, complete and blocking, is refused, and so is a
  -- final report while a prerequisite of its goal has a gap; nothing is written then.
  pub write_evidence_refuses :
      (root : Text) (r : Report) (w : files.World)
      → (is_known r.command ≡ false)
        ⊎ (is_passed r ≡ false)
        ⊎ ((is_final r.command ≡ true)
            × (is_empty (validate_final_prerequisites json files (root_or_dot root) r.goal_id w)
                ≡ false))
      → let (err, v) = write_evidence json files root r w in (is_nil err ≡ false) × (v ≡ w)
  unfolding write_evidence
  write_evidence_refuses root r w h = ground (arith, h)

  write_evidence_entry :
      (root : Text) (r : Report) (w : files.World)
      → is_final r.command ≡ false
      → is_nil (write_evidence json files root r w).0 ≡ true
      → (is_passed r ≡ true)
        × (write_evidence json files root r w
            ≡ upsert_ledger_entry json files
                (files.join (root_or_dot root) r.ledger_path)
                (ledger_entry_for_report r)
                w)
  unfolding write_evidence
  write_evidence_entry root r w hc hw = ground (arith, hc, hw)

  -- With files that read back as written and the documented JSON encoder: evidence that is written
  -- without an error for a command other than the final one, to a ledger that can be read, meets
  -- that command's prerequisite for its goal, whatever the ledger has said of it before.
  pub write_evidence-IsMet :
      (encodes : Encodes json) (reads : ReadsBack files) (root : Text) (r : Report)
      (w : files.World) (es : List LedgerEntry)
      → let path = files.join (root_or_dot root) r.ledger_path in
        is_final r.command ≡ false
        → read_ledger_entries json files path (files.mkdir_all (files.dir path) w).1 ≡ ok es
        → let (err, v) = write_evidence json files root r w in
          is_nil err ≡ true
          → (fs : List LedgerEntry) × (read_ledger_entries json files path v ≡ ok fs)
            × IsMet r.goal_id fs r.command
  unfolding ledger_entry_for_report is_passed
  write_evidence-IsMet encodes reads root r w es hc hr hw =
      let path = files.join (root_or_dot root) r.ledger_path in
      let entry = ledger_entry_for_report r in
      let (passed, written) = write_evidence_entry root r w hc hw in
      let stored =
        read-upsert json encodes files reads path entry w es hr (ground (arith, hw, written)) in
      (
        others entry es ++ entry ∷ [],
        rw written stored,
        (
          entry,
          last_of-append r.goal_id r.command (others entry es) entry (text_eq_refl r.goal_id)
              (text_eq_refl r.command),
          passed,
        ),
      )
