-- ===== src/Makefile/Acyclic.antt =====
-- What the gaps of `appendMakefileProfileCycleGaps` in cmd/goalcli/governance.go say of the graph.
use natsx.Base.{
  suc, ◌≤◌, true, List, [], ◌∷◌, Option, none, some, ◌≡◌, refl, sym, ap, ◌∙◌, ◌⊎◌, inl, inr, length,
  is_empty, arith,
}
use natsx.Base.Text.{Text}
use mathlib.Core.Option.{some-injective}
use natsx.Makefile.Graph.{
  Graph, Search, has, visit_all, visit, gaps_of, append_makefile_profile_cycle_gaps,
}
use natsx.Makefile.Reach.{unseen-nil}
use natsx.Makefile.Cycles.{
  Chain, one, more, Topological, Topological-no_cycle, Topological-Depends, Grows, GrowsTo,
  visit-GrowsTo, visit_all-GrowsTo,
}

-- The state before the loop over the roots.
abbrev start : List Text → Search
start gaps = record { visited = []; reported = []; gaps = gaps }

roots-GrowsTo :
    (g : Graph) (roots gaps : List Text)
    → GrowsTo g
        (λ x. has x roots)
        (start gaps)
        (visit_all (visit (suc (length g)) g []) roots (start gaps))
roots-GrowsTo g roots gaps =
    visit_all-GrowsTo g (visit (suc (length g)) g []) roots (start gaps) (λ dep t m.
      visit-GrowsTo (suc (length g)) g [] dep t (omega (arith, unseen-nil g))
        (λ p k. absurd (ground (arith, k))))

-- The target is the root, or a chain of dependencies leads from the root to it.
abbrev pub From : Graph → Text → Text → Type 0
From g root x = (x ≡ root) ⊎ Chain g x root

Chain-visited :
    {g : Graph} {x y : Text} (xs : List Text)
    → Topological g xs
    → has y xs ≡ true
    → Chain g x y
    → has x xs ≡ true
Chain-visited {g} xs t m (one {x = y} e) = Topological-Depends g xs y _ t m e
Chain-visited {g} xs t m (more {x = y} {y = z} e c) =
    Chain-visited xs t (Topological-Depends g xs y z t m e) c

-- What the result of the loop says, by the state that it ends in.
abbrev Ends : Graph → List Text → List Text → Option Search → Type 0
Ends g roots gaps o = (s : Search) × (o ≡ some s) × Grows g (λ x. has x roots) (start gaps) s

roots-Ends :
    (g : Graph) (roots gaps : List Text) (o : Option Search)
    → GrowsTo g (λ x. has x roots) (start gaps) o
    → Ends g roots gaps o
roots-Ends g roots gaps none h = absurd h
roots-Ends g roots gaps (some s) h = (s, refl, h)

no_reports : (xs : List Text) → length xs ≡ 0 → is_empty xs ≡ true
no_reports [] h = refl
no_reports (x ∷ xs) h = absurd (omega (arith, h))

reports_none : (xs : List Text) → is_empty xs ≡ true → length xs ≡ 0
reports_none [] h = refl
reports_none (x ∷ xs) h = absurd (ground (arith, h))

-- Without a new gap, what is visited is in topological order and holds the roots.
quiet_end :
    (g : Graph) (roots gaps out : List Text) (s : Search)
    → Grows g (λ x. has x roots) (start gaps) s
    → some s.gaps ≡ some out
    → length out ≡ length gaps
    → Topological g s.visited × ((x : Text) → has x roots ≡ true → has x s.visited ≡ true)
quiet_end g roots gaps out s grows h same =
    let none_reported : length s.reported ≡ 0 =
      omega (arith, grows.counts, same, ap length (some-injective s.gaps out h)) in
    let quiet = no_reports s.reported none_reported in (grows.orders quiet tt, grows.visits quiet)

From-visited :
    (g : Graph) (xs : List Text) (root x : Text)
    → Topological g xs
    → has root xs ≡ true
    → From g root x
    → has x xs ≡ true
From-visited g xs root x t m (inl same) = rw same m
From-visited g xs root x t m (inr chain) = Chain-visited xs t m chain

-- The search for cycles has fuel enough, takes no gap away, and adds one only to a graph that
-- has a cycle.
pub cycle_gaps_honest :
    (g : Graph) (roots gaps : List Text)
    → (out : List Text) × (append_makefile_profile_cycle_gaps g roots gaps ≡ some out)
      × (length gaps ≤ length out)
      × ((length out ≡ length gaps) ⊎ ((x : Text) × Chain g x x))
unfolding append_makefile_profile_cycle_gaps
cycle_gaps_honest g roots gaps =
    let ends = roots-Ends g roots gaps _ (roots-GrowsTo g roots gaps) in
    let s = ends.0 in
    let grows = ends.2 in
    (
      s.gaps,
      ap gaps_of ends.1,
      omega (arith, grows.counts),
      elim (grows.honest (inl refl)) [
        | inl quiet ↦ inl (omega (arith, grows.counts, reports_none s.reported quiet))
        | inr cycle ↦ inr cycle
      ],
    )

-- If the search for cycles adds no gap, no target that a root leads to depends on itself.
pub cycle_gaps_complete :
    (g : Graph) (roots gaps out : List Text) (root x : Text)
    → append_makefile_profile_cycle_gaps g roots gaps ≡ some out
    → length out ≡ length gaps
    → has root roots ≡ true
    → From g root x
    → ¬ Chain g x x
unfolding append_makefile_profile_cycle_gaps
cycle_gaps_complete g roots gaps out root x h same m from =
    let ends = roots-Ends g roots gaps _ (roots-GrowsTo g roots gaps) in
    let end = quiet_end g roots gaps out ends.0 ends.2 (sym (ap gaps_of ends.1) ∙ h) same in
    Topological-no_cycle g ends.0.visited end.0 x
      (From-visited g ends.0.visited root x end.0 (end.1 root m) from)
