-- ===== src/Debt/Scans.antt =====
-- What the scans of internal/debtcheck/debtcheck.go find in a repository whose files can be read.
use natsx.Base.{
  Bool, true, false, ◌&&◌, ◌||◌, List, [], ◌∷◌, Option, none, some, ◌≡◌, refl, ap, ◌↔◌, inl, inr,
  arith, Bool-cases, or-eq-false,
}
use natsx.Base.Text.{Text}
use natsx.Base.Sort.{sort, mem-sort, mem_of_mem-sort}
use natsx.Debt.Tree.{
  Disk, Entries, end_names, file, directory, closed_directory, vanished, Finding, root_directory,
}
use natsx.Debt.Walk.{
  Visit, Step, skip_dir, skip_path, skip_file, bytes_look_binary, name_less, in_order, steps_of,
  walk_dir, walk_root, walk_files,
}
use natsx.Debt.Scan.{Inspect, look, visit_text, scan_tracked_text, finding_less}
use natsx.Debt.Reached.{Reached, walk_dir-IsOn, mem-walk_dir}
use mathlib.Core.List.{Memᴰ}
use mathlib.Core.List.Memᴰ

-- Every name that the walk comes to can be read.
unfoldable pub is_readable : Entries → Bool
is_readable end_names = true
is_readable (file name none rest) = false
is_readable (file name (some text) rest) = is_readable rest
is_readable (directory name inner rest) = (skip_dir name || is_readable inner) && is_readable rest
is_readable (closed_directory name rest) = skip_dir name && is_readable rest
is_readable (vanished name rest) = false

in_order_ok :
    (steps : List Step)
    → ((step : Step) → Memᴰ step steps → step.1.1 ≡ true)
    → (in_order steps).1 ≡ true
unfolding in_order
in_order_ok [] ok = refl
in_order_ok (step ∷ steps) ok =
    rw (ok step (Memᴰ.head refl)) (in_order_ok steps (λ s m. ok s (Memᴰ.tail m)))

-- A visit that meets an error at most where a file cannot be read.
abbrev Reads : Visit → Type 0
Reads visit = (path text : Text) → (visit path (some text)).1 ≡ true

steps_of-ok :
    (d : Disk) (visit : Visit) (dir : Text) (entries : Entries)
    → Reads visit
    → is_readable entries ≡ true
    → (step : Step) → Memᴰ step (steps_of d visit dir entries)
    → step.1.1 ≡ true
unfolding is_readable steps_of
steps_of-ok d visit dir end_names reads h step m = absurd (Memᴰ.not-nil m)
steps_of-ok d visit dir (file name none rest) reads h step m = ground (arith, h)
steps_of-ok d visit dir (file name (some text) rest) reads h step m = elim (Memᴰ.cases_cons m) [
  | inl e ↦ rw e (reads (d.join dir name) text)
  | inr m' ↦ steps_of-ok d visit dir rest reads h step m'
]
steps_of-ok d visit dir (directory name inner rest) reads h step m = elim (Memᴰ.cases_cons m) [
  | inl e ↦ elim (Bool-cases (skip_dir name)) [
    | inl skips ↦ rw (e, skips) refl
    | inr enters ↦
        let steps = steps_of d visit (d.join dir name) inner in
        let inner_ok : is_readable inner ≡ true = ground (arith, h, enters) in
        rw (e, enters)
          (in_order_ok (sort name_less steps) (λ s m'.
            steps_of-ok d visit (d.join dir name) inner reads inner_ok s
              (mem_of_mem-sort name_less s steps m')))
  ]
  | inr m' ↦
      let rest_ok : is_readable rest ≡ true = ground (arith, h) in
      steps_of-ok d visit dir rest reads rest_ok step m'
]
steps_of-ok d visit dir (closed_directory name rest) reads h step m = elim (Memᴰ.cases_cons m) [
  | inl e ↦ rw e (ground (arith, h))
  | inr m' ↦
      let rest_ok : is_readable rest ≡ true = ground (arith, h) in
      steps_of-ok d visit dir rest reads rest_ok step m'
]
steps_of-ok d visit dir (vanished name rest) reads h step m = ground (arith, h)

walk_dir-ok :
    (d : Disk) (visit : Visit) (dir : Text) (entries : Entries)
    → Reads visit
    → is_readable entries ≡ true
    → (walk_dir d visit dir entries).1 ≡ true
unfolding walk_dir
walk_dir-ok d visit dir entries reads h =
    let steps = steps_of d visit dir entries in
    in_order_ok (sort name_less steps)
      (λ s m. steps_of-ok d visit dir entries reads h s (mem_of_mem-sort name_less s steps m))

-- The scan looks into that file.
abbrev pub IsScanned : Disk → Text → Entries → Text → Text → Type 0
IsScanned d root entries path content =
    Reached d path (some content) root entries
    × (skip_path d root path ≡ false)
    × (skip_file d path ≡ false)
    × (bytes_look_binary content ≡ false)

visit_text-Reads : (d : Disk) (root : Text) (inspect : Inspect) → Reads (visit_text d root inspect)
unfolding visit_text look
visit_text-Reads d root inspect path text = ground arith

mem_of_looked :
    (d : Disk) (root : Text) (inspect : Inspect) (f : Finding) (entries : Entries) (path : Text)
    (text : Option Text)
    → Reached d path text root entries
    → (skip_path d root path || skip_file d path) ≡ false
    → Memᴰ f (look inspect path text).0
    → (p content : Text) × IsScanned d root entries p content × Memᴰ f (inspect p content)
unfolding look
mem_of_looked d root inspect f entries path none r looks m = absurd (Memᴰ.not-nil m)
mem_of_looked d root inspect f entries path (some content) r looks m =
    elim (Bool-cases (bytes_look_binary content)) [
      | inl binary ↦ let none_found : Memᴰ f [] = rw binary at m in absurd (Memᴰ.not-nil none_found)
      | inr shows ↦
          let found : Memᴰ f (inspect path content) = rw shows at m in
          let paths = (or-eq-false (skip_path d root path) (skip_file d path)).0 looks in
          (path, content, (r, paths.0, paths.1, shows), found)
    ]

mem_of_visit_text :
    (d : Disk) (root : Text) (inspect : Inspect) (f : Finding) (entries : Entries) (path : Text)
    (text : Option Text)
    → Reached d path text root entries
    → Memᴰ f (visit_text d root inspect path text).0
    → (p content : Text) × IsScanned d root entries p content × Memᴰ f (inspect p content)
unfolding visit_text look
mem_of_visit_text d root inspect f entries path text r m =
    elim (Bool-cases (skip_path d root path || skip_file d path)) [
      | inl skips ↦ let none_found : Memᴰ f [] = rw skips at m in absurd (Memᴰ.not-nil none_found)
      | inr looks ↦ mem_of_looked d root inspect f entries path text r looks (rw looks at m)
    ]

mem-visit_text :
    (d : Disk) (root : Text) (inspect : Inspect) (f : Finding) (entries : Entries)
    (path content : Text)
    → IsScanned d root entries path content
    → Memᴰ f (inspect path content)
    → Memᴰ f (visit_text d root inspect path (some content)).0
unfolding visit_text look
mem-visit_text d root inspect f entries path content h m = rw (h.1, h.2, h.3) m

scan_tracked_text-walk_dir :
    (d : Disk) (root : Text) (inspect : Inspect) (entries : Entries)
    → d.lstat root ≡ root_directory entries
    → scan_tracked_text d root inspect
      ≡ sort finding_less (walk_dir d (visit_text d root inspect) root entries).0
unfolding scan_tracked_text walk_files walk_root
scan_tracked_text-walk_dir d root inspect entries h =
    ap (λ r. sort finding_less (walk_root d (visit_text d root inspect) root r).0) h

-- Where the root is a directory and all that the walk comes to can be read, a scan finds exactly
-- what there is to find in the files that are scanned: text files below the root, outside of the
-- directories, paths and files that are skipped.
pub scan_tracked_text_iff :
    (d : Disk) (root : Text) (inspect : Inspect) (f : Finding) (entries : Entries)
    → d.lstat root ≡ root_directory entries
    → is_readable entries ≡ true
    → Memᴰ f (scan_tracked_text d root inspect) ↔ (
        (path : Text) × (content : Text) × IsScanned d root entries path content
        × Memᴰ f (inspect path content))
scan_tracked_text_iff d root inspect f entries h readable =
    let visit = visit_text d root inspect in
    let ok = walk_dir-ok d visit root entries (visit_text-Reads d root inspect) readable in
    rw (scan_tracked_text-walk_dir d root inspect entries h) (
      λ m.
          let on = walk_dir-IsOn d visit f root entries (mem_of_mem-sort finding_less f _ m) in
          let got = mem_of_visit_text d root inspect f entries on.0 on.1 on.2 on.3 in
          (got.0, got.1, got.2, got.3),
      λ it.
          let m = mem-visit_text d root inspect f entries it.0 it.1 it.2 it.3 in
          mem-sort finding_less f _
            (mem-walk_dir d visit f root entries ok (it.0, some it.1, it.2.0, m)),
    )
