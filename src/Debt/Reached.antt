-- ===== src/Debt/Reached.antt =====
-- What the walk of internal/debtcheck/debtcheck.go comes to: the files that stand below the root with no
-- skipped directory above them.
use natsx.Base.{true, false, List, [], ◌∷◌, ◌++◌, Option, ◌≡◌, refl, inl, inr, arith, Bool-cases}
use natsx.Base.Text.{Text}
use natsx.Base.Sort.{sort, mem-sort, mem_of_mem-sort}
use natsx.Debt.Tree.{Disk, Entries, end_names, file, directory, closed_directory, vanished, Finding}
use natsx.Debt.Walk.{Visit, Step, skip_dir, name_less, in_order, steps_of, walk_dir}
use mathlib.Core.List.{Memᴰ}
use mathlib.Core.List.Memᴰ

-- The file of that path and text stands below the directory.
pub data Reached (d : Disk) (path : Text) (text : Option Text) : Text → Entries → Type 0 where
  here :
      {dir name : Text} {rest : Entries}
      → path ≡ d.join dir name
      → Reached d path text dir (file name text rest)
  below :
      {dir name : Text} {inner rest : Entries}
      → skip_dir name ≡ false
      → Reached d path text (d.join dir name) inner
      → Reached d path text dir (directory name inner rest)
  after_file :
      {dir name : Text} {other : Option Text} {rest : Entries}
      → Reached d path text dir rest
      → Reached d path text dir (file name other rest)
  after_directory :
      {dir name : Text} {inner rest : Entries}
      → Reached d path text dir rest
      → Reached d path text dir (directory name inner rest)
  after_closed :
      {dir name : Text} {rest : Entries}
      → Reached d path text dir rest
      → Reached d path text dir (closed_directory name rest)
  after_vanished :
      {dir name : Text} {rest : Entries}
      → Reached d path text dir rest
      → Reached d path text dir (vanished name rest)

-- A finding of a walk is one of a step ...
mem_of_in_order :
    (f : Finding) (steps : List Step)
    → Memᴰ f (in_order steps).0
    → (step : Step) × Memᴰ step steps × Memᴰ f step.1.0
unfolding in_order
mem_of_in_order f [] m = absurd (Memᴰ.not-nil m)
mem_of_in_order f (step ∷ steps) m = elim (Bool-cases step.1.1) [
  | inl h ↦
      let m₁ : Memᴰ f (step.1.0 ++ (in_order steps).0) = rw h at m in
      elim (Memᴰ.append_cases step.1.0 m₁) [
        | inl m' ↦ (step, Memᴰ.head refl, m')
        | inr m' ↦ let found = mem_of_in_order f steps m' in (found.0, Memᴰ.tail found.1, found.2)
      ]
  | inr h ↦ let m₁ : Memᴰ f step.1.0 = rw h at m in (step, Memᴰ.head refl, m₁)
]

-- ... and if there was no error, each step had none, and its findings are all there.
in_order-ok :
    (step : Step) (steps : List Step)
    → (in_order steps).1 ≡ true
    → Memᴰ step steps
    → step.1.1 ≡ true
unfolding in_order
in_order-ok step [] h m = absurd (Memᴰ.not-nil m)
in_order-ok step (s ∷ steps) h m = elim (Memᴰ.cases_cons m) [
  | inl e ↦ rw e (ground (arith, h))
  | inr m' ↦ in_order-ok step steps (ground (arith, h)) m'
]

mem-in_order :
    (f : Finding) (step : Step) (steps : List Step)
    → (in_order steps).1 ≡ true
    → Memᴰ step steps
    → Memᴰ f step.1.0
    → Memᴰ f (in_order steps).0
unfolding in_order
mem-in_order f step [] h m found = absurd (Memᴰ.not-nil m)
mem-in_order f step (s ∷ steps) h m found =
    let ok : s.1.1 ≡ true = ground (arith, h) in
    let rest : (in_order steps).1 ≡ true = ground (arith, h) in
    rw ok (elim (Memᴰ.cases_cons m) [
      | inl e ↦
          let found₁ : Memᴰ f s.1.0 = rw e at found in Memᴰ.append_left (in_order steps).0 found₁
      | inr m' ↦ Memᴰ.append_right s.1.0 (mem-in_order f step steps rest m' found)
    ])

-- What a finding of a walk is a finding on.
abbrev pub IsOn : Disk → Visit → Text → Entries → Finding → Type 0
IsOn d visit dir entries f =
    (path : Text) × (text : Option Text) × Reached d path text dir entries
    × Memᴰ f (visit path text).0

IsOn-rest :
    (visit : Visit) {d : Disk} {dir : Text} {entries whole : Entries} {f : Finding}
    → ((path : Text) (text : Option Text)
        → Reached d path text dir entries
        → Reached d path text dir whole)
    → IsOn d visit dir entries f
    → IsOn d visit dir whole f
IsOn-rest visit later on = (on.0, on.1, later on.0 on.1 on.2, on.3)

steps_of-IsOn :
    (d : Disk) (visit : Visit) (f : Finding) (dir : Text) (entries : Entries) (step : Step)
    → Memᴰ step (steps_of d visit dir entries)
    → Memᴰ f step.1.0
    → IsOn d visit dir entries f
unfolding steps_of
steps_of-IsOn d visit f dir end_names step m found = absurd (Memᴰ.not-nil m)
steps_of-IsOn d visit f dir (file name text rest) step m found = elim (Memᴰ.cases_cons m) [
  | inl e ↦
      let found₁ : Memᴰ f (visit (d.join dir name) text).0 = rw e at found in
      (d.join dir name, text, here refl, found₁)
  | inr m' ↦
      IsOn-rest visit (λ path text r. after_file r) (steps_of-IsOn d visit f dir rest step m' found)
]
steps_of-IsOn d visit f dir (directory name inner rest) step m found = elim (Memᴰ.cases_cons m) [
  | inl e ↦ elim (Bool-cases (skip_dir name)) [
    | inl skips ↦ let found₁ : Memᴰ f [] = rw (e, skips) at found in absurd (Memᴰ.not-nil found₁)
    | inr enters ↦
        let steps = steps_of d visit (d.join dir name) inner in
        let found₁ : Memᴰ f (in_order (sort name_less steps)).0 = rw (e, enters) at found in
        let from = mem_of_in_order f (sort name_less steps) found₁ in
        let on =
          steps_of-IsOn d visit f (d.join dir name) inner from.0
            (mem_of_mem-sort name_less from.0 steps from.1) from.2 in
        (on.0, on.1, below enters on.2, on.3)
  ]
  | inr m' ↦
      IsOn-rest visit (λ path text r. after_directory r)
        (steps_of-IsOn d visit f dir rest step m' found)
]
steps_of-IsOn d visit f dir (closed_directory name rest) step m found = elim (Memᴰ.cases_cons m) [
  | inl e ↦ let found₁ : Memᴰ f [] = rw e at found in absurd (Memᴰ.not-nil found₁)
  | inr m' ↦
      IsOn-rest visit (λ path text r. after_closed r)
        (steps_of-IsOn d visit f dir rest step m' found)
]
steps_of-IsOn d visit f dir (vanished name rest) step m found = elim (Memᴰ.cases_cons m) [
  | inl e ↦ let found₁ : Memᴰ f [] = rw e at found in absurd (Memᴰ.not-nil found₁)
  | inr m' ↦
      IsOn-rest visit (λ path text r. after_vanished r)
        (steps_of-IsOn d visit f dir rest step m' found)
]

-- Every finding of a walk is one on a file that is reached.
pub walk_dir-IsOn :
    (d : Disk) (visit : Visit) (f : Finding) (dir : Text) (entries : Entries)
    → Memᴰ f (walk_dir d visit dir entries).0
    → IsOn d visit dir entries f
unfolding walk_dir
walk_dir-IsOn d visit f dir entries m =
    let steps = steps_of d visit dir entries in
    let from = mem_of_in_order f (sort name_less steps) m in
    steps_of-IsOn d visit f dir entries from.0 (mem_of_mem-sort name_less from.0 steps from.1)
      from.2

-- No step of a directory has met an error.
abbrev AllOk : Disk → Visit → Text → Entries → Type 0
AllOk d visit dir entries =
    (step : Step) → Memᴰ step (steps_of d visit dir entries) → step.1.1 ≡ true

walk_dir-AllOk :
    (d : Disk) (visit : Visit) (dir : Text) (entries : Entries)
    → (walk_dir d visit dir entries).1 ≡ true
    → AllOk d visit dir entries
unfolding walk_dir
walk_dir-AllOk d visit dir entries h step m =
    let steps = steps_of d visit dir entries in
    in_order-ok step (sort name_less steps) h (mem-sort name_less step steps m)

-- A step that has the finding.
abbrev StepWith : Disk → Visit → Text → Entries → Finding → Type 0
StepWith d visit dir entries f =
    (step : Step) × Memᴰ step (steps_of d visit dir entries) × Memᴰ f step.1.0

StepWith-reached :
    (d : Disk) (visit : Visit) (f : Finding) {path : Text} {text : Option Text} {dir : Text}
    {entries : Entries}
    → Memᴰ f (visit path text).0
    → Reached d path text dir entries
    → AllOk d visit dir entries
    → StepWith d visit dir entries f
unfolding steps_of
StepWith-reached d visit f m (here e) ok = (_, Memᴰ.head refl, rw e at m)
StepWith-reached d visit f m (below {dir = dir} {name = name} {inner = inner} enters r) ok =
    let steps = steps_of d visit (d.join dir name) inner in
    let sorted = sort name_less steps in
    let h : (in_order sorted).1 ≡ true = rw enters at (ok _ (Memᴰ.head refl)) in
    let found =
      StepWith-reached d visit f m r
        (λ step m'. in_order-ok step sorted h (mem-sort name_less step steps m')) in
    (
      _,
      Memᴰ.head refl,
      rw enters
          (mem-in_order f found.0 sorted h (mem-sort name_less found.0 steps found.1) found.2),
    )
StepWith-reached d visit f m (after_file r) ok =
    let rest = StepWith-reached d visit f m r (λ step m'. ok step (Memᴰ.tail m')) in
    (rest.0, Memᴰ.tail rest.1, rest.2)
StepWith-reached d visit f m (after_directory r) ok =
    let rest = StepWith-reached d visit f m r (λ step m'. ok step (Memᴰ.tail m')) in
    (rest.0, Memᴰ.tail rest.1, rest.2)
StepWith-reached d visit f m (after_closed r) ok =
    let rest = StepWith-reached d visit f m r (λ step m'. ok step (Memᴰ.tail m')) in
    (rest.0, Memᴰ.tail rest.1, rest.2)
StepWith-reached d visit f m (after_vanished r) ok =
    let rest = StepWith-reached d visit f m r (λ step m'. ok step (Memᴰ.tail m')) in
    (rest.0, Memᴰ.tail rest.1, rest.2)

-- A walk without an error has every finding on a file that is reached.
pub mem-walk_dir :
    (d : Disk) (visit : Visit) (f : Finding) (dir : Text) (entries : Entries)
    → (walk_dir d visit dir entries).1 ≡ true
    → IsOn d visit dir entries f
    → Memᴰ f (walk_dir d visit dir entries).0
unfolding walk_dir
mem-walk_dir d visit f dir entries h on =
    let steps = steps_of d visit dir entries in
    let found = StepWith-reached d visit f on.3 on.2 (walk_dir-AllOk d visit dir entries h) in
    mem-in_order f found.0 (sort name_less steps) h (mem-sort name_less found.0 steps found.1)
      found.2
