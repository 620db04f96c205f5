-- ===== src/GoalRuntime/Upsert.antt =====
-- What the ledger holds behind `upsertLedgerEntry`.
use natsx.Base.{
  ℕ, suc, Bool, true, false, List, [], ◌∷◌, ◌++◌, append_assoc, ◌≡◌, refl, arith, any, is_empty,
  if◌then◌else◌, ◌==◌, All, Bool-cases, inl, inr,
}
use natsx.Base.Text.{Text, trim_space, trim, trim_left, trim_right, split, is_space, push_front}
use natsx.Base.Text.Laws.{trim_idem, lacks, split-append}
use natsx.Errors.{Error, is_nil, Result, ok, fail}
use natsx.GoalRuntime.Data.{Files, ReadsBack, Json, Encodes, LedgerEntry, newline}
use natsx.GoalRuntime.Ledger.{
  consing, same_key, read_lines, kept_lines, updated, read_ledger_entries, upsert_ledger_entry,
}

any-trim_left : (p q : ℕ → Bool) (s : Text) → any p s ≡ false → any p (trim_left q s) ≡ false
unfolding trim_left
any-trim_left p q [] h = refl
any-trim_left p q (c ∷ s) h = ground (arith, any-trim_left p q s)

any-trim_right : (p q : ℕ → Bool) (s : Text) → any p s ≡ false → any p (trim_right q s) ≡ false
unfolding trim_right
any-trim_right p q [] h = refl
any-trim_right p q (c ∷ s) h = ground (arith, any-trim_right p q s)

lacks-trim_space : (d : ℕ) (s : Text) → lacks d s ≡ false → lacks d (trim_space s) ≡ false
unfolding trim_space trim
lacks-trim_space d s h =
    any-trim_right (λ c. c == d) is_space (trim_left is_space s)
      (any-trim_left (λ c. c == d) is_space s h)

push_front-lacks :
    (d c : ℕ) (ps : List Text)
    → (c == d) ≡ false
    → All (λ t. lacks d t ≡ false) ps
    → All (λ t. lacks d t ≡ false) (push_front c ps)
push_front-lacks d c [] h hs = (ground (arith, h), hs)
push_front-lacks d c (p ∷ ps) h (hp, hs) = (ground (arith, h, hp), hs)

-- The parts of a split hold no separator.
split-lacks-All : (d : ℕ) (s : Text) → All (λ t. lacks d t ≡ false) (split s d)
unfolding split
split-lacks-All d [] = (refl, tt)
split-lacks-All d (c ∷ s) = elim (Bool-cases (c == d)) [
  | inl h ↦ rw h (refl, split-lacks-All d s)
  | inr h ↦ rw h (push_front-lacks d c (split s d) h (split-lacks-All d s))
]

-- The entries that an update leaves in place.
unfoldable pub others : LedgerEntry → List LedgerEntry → List LedgerEntry
others entry [] = []
others entry (e ∷ es) = if same_key e entry then others entry es else e ∷ others entry es

abbrev pub appending :
    Result (List LedgerEntry) → LedgerEntry → LedgerEntry → Result (List LedgerEntry)
appending (ok es) key e = ok (others key es ++ e ∷ [])
appending (fail err) key e = fail err

trim_space_idem : (s : Text) → trim_space (trim_space s) ≡ trim_space s
unfolding trim_space
trim_space_idem s = trim_idem is_space s

split-nil : split [] newline ≡ [] ∷ []
unfolding split
split-nil = refl

trim_space-nil : trim_space [] ≡ []
unfolding trim_space
trim_space-nil = refl

module _ (json : Json) (encodes : Encodes json) where
  abbrev row : LedgerEntry → Text
  row entry = (json.marshal entry).0 ++ newline ∷ []

  read-row :
      (i : ℕ) (entry : LedgerEntry)
      → read_lines json i (split (row entry) newline) ≡ ok (entry ∷ [])
  unfolding read_lines
  read-row i entry = ground (
    arith,
    split-append newline (json.marshal entry).0 [] (encodes.one_line entry),
    split-nil,
    trim_space-nil,
    encodes.trimmed entry,
    encodes.not_empty entry,
    encodes.unmarshal-marshal entry,
  )

  consing-eq-ok :
      (e : LedgerEntry) (r : Result (List LedgerEntry)) (es : List LedgerEntry)
      → consing e r ≡ ok es
      → (rest : List LedgerEntry) × (r ≡ ok rest) × (es ≡ e ∷ rest)
  consing-eq-ok e (ok rest) es h = (rest, refl, ground (arith, h))
  consing-eq-ok e (fail err) es h = absurd (ground (arith, h))

  -- Reading what an update of readable lines writes gives the other entries, and the new one last.
  read-kept_lines :
      (i j : ℕ) (entry : LedgerEntry) (lines : List Text) (es : List LedgerEntry)
      → All (λ t. lacks newline t ≡ false) lines
      → read_lines json i lines ≡ ok es
      → read_lines json j (split (kept_lines json entry lines ++ row entry) newline)
        ≡ ok (others entry es ++ entry ∷ [])
  unfolding read_lines kept_lines others
  read-kept_lines i j entry [] es _ h = ground (arith, read-row j entry, h)
  read-kept_lines i j entry (line ∷ lines) es (hl, hs) h =
      let parsed = json.unmarshal (trim_space line) in
      elim (Bool-cases (is_empty (trim_space line))) [
        | inl e ↦ ground (arith, e, h, read-kept_lines (suc i) j entry lines es hs)
        | inr e ↦
            let (rest, r, q) =
              consing-eq-ok parsed.0 (read_lines json (suc i) lines) es (ground (arith, e, h)) in
            ground (
              arith,
              e,
              h,
              r,
              q,
              split-append newline (trim_space line) (kept_lines json entry lines ++ row entry)
                  (lacks-trim_space newline line hl),
              append_assoc (trim_space line) (newline ∷ kept_lines json entry lines) (row entry),
              trim_space_idem line,
              read-kept_lines (suc i) j entry lines rest hs r,
              read-kept_lines (suc i) (suc j) entry lines rest hs r,
            )
      ]

  updated_old :
      (entry : LedgerEntry) (content : Text) (err : Error)
      → is_nil err ≡ true
      → updated json entry content err ≡ kept_lines json entry (split content newline) ++ row entry
  unfolding updated
  updated_old entry content err h = rw h refl

  module _ (files : Files) (reads : ReadsBack files) where
    upsert_written :
        (path : Text) (entry : LedgerEntry) (w : files.World)
        → let w1 = (files.mkdir_all (files.dir path) w).1 in
          let text = updated json entry (files.read_file path w1).0 (files.read_file path w1).1 in
          is_nil (upsert_ledger_entry json files path entry w).0 ≡ true
          → (is_nil (files.write_file path text w1).0 ≡ true)
            × ((upsert_ledger_entry json files path entry w).1 ≡ (files.write_file path text w1).1)
    unfolding upsert_ledger_entry
    upsert_written path entry w k = ground (arith, k)

    read_written :
        (path : Text) (entry : LedgerEntry) (w : files.World)
        → let w1 = (files.mkdir_all (files.dir path) w).1 in
          let text = updated json entry (files.read_file path w1).0 (files.read_file path w1).1 in
          is_nil (upsert_ledger_entry json files path entry w).0 ≡ true
          → read_ledger_entries json files path (upsert_ledger_entry json files path entry w).1
            ≡ read_lines json 0 (split text newline)
    unfolding read_ledger_entries
    read_written path entry w k =
        let w1 = (files.mkdir_all (files.dir path) w).1 in
        let text = updated json entry (files.read_file path w1).0 (files.read_file path w1).1 in
        let (written, after) = upsert_written path entry w k in
        rw after (ground (arith, reads.read-write path text w1 written))

    -- With files that read back as written and the documented JSON encoder: an update that returns
    -- no error, of a ledger that can be read, leaves a ledger that can be read. It holds the old
    -- entries in their order, less those with the new one's goal, command and pack, and the new
    -- entry at its end.
    pub read-upsert :
        (path : Text) (entry : LedgerEntry) (w : files.World) (es : List LedgerEntry)
        → let w1 = (files.mkdir_all (files.dir path) w).1 in
          read_ledger_entries json files path w1 ≡ ok es
          → is_nil (upsert_ledger_entry json files path entry w).0 ≡ true
          → read_ledger_entries json files path (upsert_ledger_entry json files path entry w).1
            ≡ ok (others entry es ++ entry ∷ [])
    unfolding read_ledger_entries
    read-upsert path entry w es h k =
        let w1 = (files.mkdir_all (files.dir path) w).1 in
        let content = (files.read_file path w1).0 in
        let found : is_nil (files.read_file path w1).1 ≡ true = ground (arith, h) in
        let lines : read_lines json 0 (split content newline) ≡ ok es = ground (arith, h) in
        let text : updated json entry content (files.read_file path w1).1
            ≡ kept_lines json entry (split content newline) ++ row entry =
          updated_old entry content (files.read_file path w1).1 found in
        rw (read_written path entry w k) (
          rw text (
            read-kept_lines 0 0 entry (split content newline) es (split-lacks-All newline content)
              lines))

    -- Where there is no ledger yet, the update makes one that holds the entry alone.
    pub read-upsert_new :
        (path : Text) (entry : LedgerEntry) (w : files.World)
        → is_nil (files.read_file path (files.mkdir_all (files.dir path) w).1).1 ≡ false
        → is_nil (upsert_ledger_entry json files path entry w).0 ≡ true
        → read_ledger_entries json files path (upsert_ledger_entry json files path entry w).1
          ≡ ok (entry ∷ [])
    unfolding updated kept_lines
    read-upsert_new path entry w h k =
        let w1 = (files.mkdir_all (files.dir path) w).1 in
        let text : updated json entry (files.read_file path w1).0 (files.read_file path w1).1
            ≡ row entry =
          ground (arith, h) in
        rw (read_written path entry w k) (rw text (read-row 0 entry))
