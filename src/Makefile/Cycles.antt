-- ===== src/Makefile/Cycles.antt =====
-- `appendMakefileProfileCycleGaps` of cmd/goalcli/governance.go against the cycles of the graph.
use natsx.Base.{
  ℕ, zero, suc, ◌+◌, ◌<◌, Bool, true, false, List, [], ◌∷◌, ◌++◌, Option, none, some, ◌≡◌, refl, ap,
  ◌⊎◌, inl, inr, lookup, length, length-append, any-append, is_empty, text_eq, text_eq_iff,
  text_eq_refl, Bool-cases, Option-cases, arith,
}
use natsx.Base.Text.{Text}
use natsx.Makefile.Graph.{
  Graph, Search, has, targets, context_targets, join_path, cycle_gap, report_cycle, then_visit,
  visit_all, mark, visit,
}
use natsx.Makefile.Reach.{Extends, unseen, unseen-Extends, unseen-cons, targets-none}

-- `x` depends on the context target `y`.
abbrev pub Depends : Graph → Text → Text → Type 0
Depends g x y = has y (context_targets (targets g x)) ≡ true

-- A chain of one dependency or more.
pub data Chain (g : Graph) (z : Text) : Text → Type 0 where
  one : {x : Text} → Depends g x z → Chain g z x
  more : {x y : Text} → Depends g x y → Chain g z y → Chain g z x

Chain-snoc : {g : Graph} {y z x : Text} → Chain g y x → Depends g y z → Chain g z x
Chain-snoc (one e) last = more e (one last)
Chain-snoc (more e c) last = more e (Chain-snoc c last)

-- Each element depends on elements behind it only.
abbrev pub Topological : Graph → List Text → Type 0
Topological g [] = Unit {0}
Topological g (x ∷ xs) = ((y : Text) → Depends g x y → has y xs ≡ true) × Topological g xs

head_no_cycle :
    {g : Graph} {x : Text} (xs : List Text)
    → ((y : Text) → Depends g x y → has y xs ≡ true)
    → ((y : Text) → has y xs ≡ true → Chain g y y → ⊥)
    → Chain g x x
    → ⊥
head_no_cycle {x = x} xs behind none_of (one e) = none_of x (behind x e) (one e)
head_no_cycle {x = x} xs behind none_of (more {y = y} e c) = none_of y (behind y e) (Chain-snoc c e)

pub Topological-no_cycle :
    (g : Graph) (xs : List Text) → Topological g xs → (x : Text) → has x xs ≡ true → Chain g x x → ⊥
Topological-no_cycle g [] t x m c = absurd (ground (arith, m))
Topological-no_cycle g (y ∷ ys) t x m c = elim (Bool-cases (text_eq x y)) [
  | inl same ↦
      let c₁ : Chain g y y = rw ((text_eq_iff x y).0 same) at c in
      head_no_cycle ys t.0 (Topological-no_cycle g ys t.1) c₁
  | inr other ↦ Topological-no_cycle g ys t.1 x (rw other at m) c
]

-- Dependencies lead from what is visited to what is visited.
pub Topological-Depends :
    (g : Graph) (xs : List Text) (x y : Text)
    → Topological g xs
    → has x xs ≡ true
    → Depends g x y
    → has y xs ≡ true
Topological-Depends g [] x y t m e = ground (arith, m)
Topological-Depends g (z ∷ zs) x y t m e = elim (Bool-cases (text_eq x z)) [
  | inl same ↦
      let e₁ : Depends g z y = rw ((text_eq_iff x z).0 same) at e in ground (arith, t.0 y e₁)
  | inr other ↦ ground (arith, Topological-Depends g zs x y t.1 (rw other at m) e)
]

-- What a part of the search does to its state. A cycle is reported only if there is one; as long as none
-- is, what is visited grows and stays in topological order. `new` is what gets visited.
pub record Grows (g : Graph) (new : Text → Bool) (s t : Search) : Type 0 where
  pub counts : length t.gaps + length s.reported ≡ length s.gaps + length t.reported
  pub stays : is_empty t.reported ≡ true → is_empty s.reported ≡ true
  pub honest :
      (is_empty s.reported ≡ true) ⊎ ((x : Text) × Chain g x x)
      → (is_empty t.reported ≡ true) ⊎ ((x : Text) × Chain g x x)
  pub keeps : is_empty t.reported ≡ true → Extends s.visited t.visited
  pub visits : is_empty t.reported ≡ true → (x : Text) → new x ≡ true → has x t.visited ≡ true
  pub orders : is_empty t.reported ≡ true → Topological g s.visited → Topological g t.visited

abbrev pub GrowsTo : Graph → (Text → Bool) → Search → Option Search → Type 0
GrowsTo g new s none = ⊥
GrowsTo g new s (some t) = Grows g new s t

Grows-trans :
    (g : Graph) (dep : Text) (deps : List Text) (s t u : Search)
    → Grows g (λ x. text_eq x dep) s t
    → Grows g (λ x. has x deps) t u
    → Grows g (λ x. has x (dep ∷ deps)) s u
Grows-trans g dep deps s t u a b = record {
  counts = omega (arith, a.counts, b.counts);
  stays = λ e. a.stays (b.stays e);
  honest = λ h. b.honest (a.honest h);
  keeps = λ e x m. b.keeps e x (a.keeps (b.stays e) x m);
  visits = λ e x m. elim (Bool-cases (text_eq x dep)) [
    | inl same ↦ b.keeps e x (a.visits (b.stays e) x same)
    | inr other ↦ b.visits e x (ground (arith, m, other))
  ];
  orders = λ e t₁. b.orders e (a.orders (b.stays e) t₁);
}

then_visit-GrowsTo :
    (g : Graph) (dep : Text) (deps : List Text) (s : Search) (o : Option Search)
    (next : Search → Option Search)
    → GrowsTo g (λ x. text_eq x dep) s o
    → ((t : Search) → GrowsTo g (λ x. has x deps) t (next t))
    → GrowsTo g (λ x. has x (dep ∷ deps)) s (then_visit o next)
unfolding then_visit
then_visit-GrowsTo g dep deps s none next a b = a
then_visit-GrowsTo g dep deps s (some t) next a b = after (next t) (b t)
  where
    after :
        (o : Option Search)
        → GrowsTo g (λ x. has x deps) t o
        → GrowsTo g (λ x. has x (dep ∷ deps)) s o
    after none r = r
    after (some u) r = Grows-trans g dep deps s t u a r

pub visit_all-GrowsTo :
    (g : Graph) (go : Text → Search → Option Search) (deps : List Text) (s : Search)
    → ((dep : Text) (t : Search)
        → has dep deps ≡ true
        → GrowsTo g (λ x. text_eq x dep) t (go dep t))
    → GrowsTo g (λ x. has x deps) s (visit_all go deps s)
unfolding visit_all
visit_all-GrowsTo g go [] s ok = record {
  counts = omega arith;
  stays = λ e. e;
  honest = λ h. h;
  keeps = λ e x m. m;
  visits = λ e x m. absurd (ground (arith, m));
  orders = λ e t. t;
}
visit_all-GrowsTo g go (dep ∷ deps) s ok =
    then_visit-GrowsTo g dep deps s (go dep s) (visit_all go deps)
      (ok dep s (rw (text_eq_refl dep) refl))
      (λ t. visit_all-GrowsTo g go deps t (λ d u m. ok d u (rw m (ground arith))))

has-not_empty : (x : Text) (xs : List Text) → has x xs ≡ true → is_empty xs ≡ false
has-not_empty x [] m = absurd (ground (arith, m))
has-not_empty x (y ∷ ys) m = refl

-- A report makes `reported` a list that is not empty, of one element more for a new gap.
report_cycle-counts :
    (cycle : List Text) (s : Search)
    → let t = report_cycle cycle s in
      (is_empty t.reported ≡ false)
      × (length t.gaps + length s.reported ≡ length s.gaps + length t.reported)
unfolding report_cycle
report_cycle-counts cycle s = elim (Bool-cases (has (join_path cycle) s.reported)) [
  | inl known ↦ rw known (has-not_empty (join_path cycle) s.reported known, omega arith)
  | inr fresh ↦
      rw fresh (refl, omega (arith, length-append s.gaps (cycle_gap (join_path cycle) ∷ [])))
]

report_cycle-Grows :
    (g : Graph) (new : Text → Bool) (cycle : List Text) (s : Search) (x : Text)
    → Chain g x x
    → Grows g new s (report_cycle cycle s)
report_cycle-Grows g new cycle s x c =
    let counted = report_cycle-counts cycle s in
    record {
      counts = counted.1;
      stays = λ e. absurd (ground (arith, e, counted.0));
      honest = λ h. inr (x, c);
      keeps = λ e. absurd (ground (arith, e, counted.0));
      visits = λ e. absurd (ground (arith, e, counted.0));
      orders = λ e. absurd (ground (arith, e, counted.0));
    }

visited-Grows :
    (g : Graph) (target : Text) (s : Search)
    → has target s.visited ≡ true
    → Grows g (λ x. text_eq x target) s s
visited-Grows g target s m = record {
  counts = omega arith;
  stays = λ e. e;
  honest = λ h. h;
  keeps = λ e x k. k;
  visits = λ e x same. rw ((text_eq_iff x target).0 same) m;
  orders = λ e t. t;
}

mark-GrowsTo :
    (g : Graph) (target : Text) (s : Search) (o : Option Search)
    → GrowsTo g (λ x. has x (context_targets (targets g target))) s o
    → GrowsTo g (λ x. text_eq x target) s (mark target o)
unfolding mark
mark-GrowsTo g target s none r = r
mark-GrowsTo g target s (some t) r = record {
  counts = r.counts;
  stays = r.stays;
  honest = r.honest;
  keeps = λ e x m. rw (r.keeps e x m) (ground arith);
  visits = λ e x same. rw same refl;
  orders = λ e order. (r.visits e, r.orders e order);
}

-- The targets of the calls in progress lead to the target.
abbrev LeadTo : Graph → List Text → Text → Type 0
LeadTo g path target = (p : Text) → has p path ≡ true → Chain g target p

LeadTo-next :
    (g : Graph) (path : List Text) (target dep : Text)
    → LeadTo g path target
    → Depends g target dep
    → LeadTo g (path ++ target ∷ []) dep
LeadTo-next g path target dep lead e p m = elim (Bool-cases (has p path)) [
  | inl inside ↦ Chain-snoc (lead p inside) e
  | inr last ↦
      let same : text_eq p target ≡ true =
        ground (arith, m, last, any-append (text_eq p) path (target ∷ [])) in
      rw ((text_eq_iff p target).0 same) (one e)
]

unseen-path :
    (g : Graph) (path : List Text) (target : Text) (deps : List Text)
    → lookup target g ≡ some deps
    → has target path ≡ false
    → unseen g (path ++ target ∷ []) < unseen g path
unseen-path g path target deps h fresh =
    let more : Extends (target ∷ path) (path ++ target ∷ []) =
      λ x m. ground (arith, m, any-append (text_eq x) path (target ∷ [])) in
    omega (
      arith,
      unseen-cons g target path deps h fresh,
      unseen-Extends g (target ∷ path) (path ++ target ∷ []) more,
    )

context_targets-none :
    (g : Graph) (x : Text) → lookup x g ≡ none → context_targets (targets g x) ≡ []
unfolding context_targets
context_targets-none g x h = ap context_targets (targets-none g x h)

unseen-Depends :
    (g : Graph) (path : List Text) (target dep : Text)
    → has target path ≡ false
    → Depends g target dep
    → unseen g (path ++ target ∷ []) < unseen g path
unseen-Depends g path target dep fresh e = elim (Option-cases (lookup target g)) [
  | inl missing ↦
      let nothing : has dep [] ≡ true = rw (context_targets-none g target missing) at e in
      absurd (ground (arith, nothing))
  | inr entry ↦ unseen-path g path target entry.0 entry.1 fresh
]

-- With fuel for the entries that are not in progress, the closure keeps its promise.
pub visit-GrowsTo :
    (fuel : ℕ) (g : Graph) (path : List Text) (target : Text) (s : Search)
    → unseen g path < fuel
    → LeadTo g path target
    → GrowsTo g (λ x. text_eq x target) s (visit fuel g path target s)
unfolding visit
visit-GrowsTo zero g path target s h lead = absurd (omega (arith, h))
visit-GrowsTo (suc fuel) g path target s h lead =
    let deps = context_targets (targets g target) in
    let next = visit fuel g (path ++ target ∷ []) in
    elim (Bool-cases (has target path)) [
      | inl cyclic ↦ rw cyclic (
          report_cycle-Grows g (λ x. text_eq x target) (path ++ target ∷ []) s target
            (lead target cyclic))
      | inr fresh ↦ elim (Bool-cases (has target s.visited)) [
        | inl done ↦ rw (fresh, done) (visited-Grows g target s done)
        | inr todo ↦
            rw (fresh, todo)
              (mark-GrowsTo g target s (visit_all next deps s) (
                visit_all-GrowsTo g next deps s (λ dep t e.
                  visit-GrowsTo fuel g (path ++ target ∷ []) dep t
                    (omega (arith, h, unseen-Depends g path target dep fresh e))
                    (LeadTo-next g path target dep lead e))))
      ]
    ]
