-- ===== src/Makefile/Graph.antt =====
-- The graph of the context targets in cmd/goalcli/governance.go: `makefileGraphReaches` and the search for
-- cycles of `appendMakefileProfileCycleGaps`. Both are recursive; here they run on fuel, and give none
-- without it.
use natsx.Base.{
  ℕ, zero, suc, Bool, true, false, List, [], ◌∷◌, ◌++◌, Option, none, some, lookup, length, any,
  text_eq, if◌then◌else◌,
}
use natsx.Base.Text.{Text, codes, has_prefix}

abbrev pub has : Text → List Text → Bool
has x xs = any (text_eq x) xs

abbrev pub Graph : Type 0
Graph = List (Text × List Text)

-- `graph[x]`
abbrev pub deps_of : Option (List Text) → List Text
deps_of none = []
deps_of (some deps) = deps

unfoldable pub targets : Graph → Text → List Text
targets g x = deps_of (lookup x g)

-- The answer of a search, with `seen` as it leaves it.
abbrev pub Found : Type 0
Found = Bool × List Text

-- One round of the loop, and the rounds after it.
unfoldable pub or_next : Option Found → (List Text → Option Found) → Option Found
or_next none next = none
or_next (some (true, seen)) next = some (true, seen)
or_next (some (false, seen)) next = next seen

-- The loop over the dependencies.
unfoldable pub reaches_any :
    (Text → List Text → Option Found) → List Text → List Text → Option Found
unfolding or_next
reaches_any search [] seen = some (false, seen)
reaches_any search (dep ∷ deps) seen = or_next (search dep seen) (reaches_any search deps)

unfoldable pub makefile_graph_reaches : ℕ → Graph → Text → Text → List Text → Option Found
unfolding reaches_any targets
makefile_graph_reaches zero g target start seen = none
makefile_graph_reaches (suc fuel) g target start seen =
    let search = makefile_graph_reaches fuel g target in
    if text_eq start target
    then some (true, seen)
    else if has start seen
    then some (false, seen)
    else reaches_any search (targets g start) (start ∷ seen)

-- As `appendContextProfileDAGGaps` calls it.
unfoldable pub reaches : Graph → Text → Text → Option Found
unfolding makefile_graph_reaches
reaches g start target = makefile_graph_reaches (suc (length g)) g target start []

-- `visited`, `reported` and `gaps`.
pub record Search : Type 0 where
  pub visited : List Text
  pub reported : List Text
  pub gaps : List Text

unfoldable pub join_path : List Text → Text
join_path [] = []
join_path (p ∷ []) = p
join_path (p ∷ q ∷ ps) = p ++ codes " -> " ++ join_path (q ∷ ps)

abbrev pub cycle_gap : Text → Text
cycle_gap key = codes "Makefile context profile DAG cycle: " ++ key

unfoldable pub report_cycle : List Text → Search → Search
unfolding join_path
report_cycle cycle s =
    let key = join_path cycle in
    if has key s.reported
    then s
    else record s { reported = key ∷ s.reported; gaps = s.gaps ++ cycle_gap key ∷ [] }

unfoldable pub then_visit : Option Search → (Search → Option Search) → Option Search
then_visit none next = none
then_visit (some s) next = next s

unfoldable pub visit_all : (Text → Search → Option Search) → List Text → Search → Option Search
unfolding then_visit
visit_all visit [] s = some s
visit_all visit (dep ∷ deps) s = then_visit (visit dep s) (visit_all visit deps)

-- The dependencies that are context targets.
unfoldable pub context_targets : List Text → List Text
context_targets [] = []
context_targets (dep ∷ deps) =
    let rest = context_targets deps in
    if has_prefix dep (codes "context-") then dep ∷ rest else rest

unfoldable pub mark : Text → Option Search → Option Search
mark target none = none
mark target (some s) = some (record s { visited = target ∷ s.visited })

-- The closure `visit`. `visiting` holds the targets of the calls in progress, and so does `path`: one
-- list stands for both.
unfoldable pub visit : ℕ → Graph → List Text → Text → Search → Option Search
unfolding report_cycle visit_all context_targets targets mark
visit zero g path target s = none
visit (suc fuel) g path target s =
    let next = visit fuel g (path ++ target ∷ []) in
    if has target path
    then some (report_cycle (path ++ target ∷ []) s)
    else if has target s.visited
    then some s
    else mark target (visit_all next (context_targets (targets g target)) s)

abbrev pub gaps_of : Option Search → Option (List Text)
gaps_of none = none
gaps_of (some s) = some s.gaps

unfoldable pub append_makefile_profile_cycle_gaps :
    Graph → List Text → List Text → Option (List Text)
unfolding visit
append_makefile_profile_cycle_gaps g roots gaps = gaps_of (
    visit_all (visit (suc (length g)) g []) roots
      (record { visited = []; reported = []; gaps = gaps }))
