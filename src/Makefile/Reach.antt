-- ===== src/Makefile/Reach.antt =====
-- `makefileGraphReaches` of cmd/goalcli/governance.go against the paths of the graph.
use natsx.Base.{
  ℕ, zero, suc, ◌≤◌, ◌<◌, true, false, List, [], ◌∷◌, Option, none, some, ◌≡◌, refl, ap, ◌↔◌, inl,
  inr, lookup, length, text_eq, text_eq_iff, text_eq_refl, if◌then◌else◌, Bool-cases, Option-cases,
  arith,
}
use natsx.Base.Text.{Text}
use natsx.Makefile.Graph.{
  Graph, Found, has, deps_of, targets, or_next, reaches_any, makefile_graph_reaches, reaches,
}

-- There is a path of dependencies from the one to the other.
pub data PathTo (g : Graph) (target : Text) : Text → Type 0 where
  at : {x : Text} → text_eq x target ≡ true → PathTo g target x
  via : {x y : Text} → has y (targets g x) ≡ true → PathTo g target y → PathTo g target x

abbrev pub Extends : List Text → List Text → Type 0
Extends s t = (x : Text) → has x s ≡ true → has x t ≡ true

-- What is new in the second list is not the target, and its dependencies are seen.
abbrev Closed : Graph → Text → List Text → List Text → Type 0
Closed g target s t =
    (x : Text)
    → has x t ≡ true
    → has x s ≡ false
    → (text_eq x target ≡ false) × ((y : Text) → has y (targets g x) ≡ true → has y t ≡ true)

Closed-trans :
    (g : Graph) (target : Text) (s t u : List Text)
    → Extends t u
    → Closed g target s t
    → Closed g target t u
    → Closed g target s u
Closed-trans g target s t u more c d x h k = elim (Bool-cases (has x t)) [
  | inl before ↦ ((c x before k).0, λ y m. more y ((c x before k).1 y m))
  | inr after ↦ d x h after
]

-- What a find promises: a path if it has found the target, and if not, that all it has seen is closed.
abbrev Searched : Graph → Text → Text → List Text → Option Found → Type 0
Searched g target start seen none = ⊥
Searched g target start seen (some (true, _)) = PathTo g target start
Searched g target start seen (some (false, t)) =
    Extends seen t × (has start t ≡ true) × Closed g target seen t

abbrev SearchedAny : Graph → Text → List Text → List Text → Option Found → Type 0
SearchedAny g target deps seen none = ⊥
SearchedAny g target deps seen (some (true, _)) =
    (y : Text) × (has y deps ≡ true) × PathTo g target y
SearchedAny g target deps seen (some (false, t)) =
    Extends seen t × ((y : Text) → has y deps ≡ true → has y t ≡ true) × Closed g target seen t

-- The rounds after one that has not found the target.
SearchedAny-after :
    (g : Graph) (target dep : Text) (deps seen s : List Text) (rest : Option Found)
    → Extends seen s × (has dep s ≡ true) × Closed g target seen s
    → SearchedAny g target deps s rest
    → SearchedAny g target (dep ∷ deps) seen rest
SearchedAny-after g target dep deps seen s none h r = r
SearchedAny-after g target dep deps seen s (some (true, t)) h r = (r.0, ground (arith, r.1), r.2)
SearchedAny-after g target dep deps seen s (some (false, t)) h r = (
  λ x m. r.0 x (h.0 x m),
  λ y m. elim (Bool-cases (text_eq y dep)) [
    | inl same ↦ rw ((text_eq_iff y dep).0 same) (r.0 dep h.1)
    | inr other ↦ r.1 y (ground (arith, m, other))
  ],
  Closed-trans g target seen s t r.0 h.2 r.2,
)

or_next-SearchedAny :
    (g : Graph) (target dep : Text) (deps seen : List Text) (o : Option Found)
    (next : List Text → Option Found)
    → Searched g target dep seen o
    → ((s : List Text) → Extends seen s → SearchedAny g target deps s (next s))
    → SearchedAny g target (dep ∷ deps) seen (or_next o next)
unfolding or_next
or_next-SearchedAny g target dep deps seen none next h k = h
or_next-SearchedAny g target dep deps seen (some (true, s)) next h k =
    (dep, rw (text_eq_refl dep) refl, h)
or_next-SearchedAny g target dep deps seen (some (false, s)) next h k =
    SearchedAny-after g target dep deps seen s (next s) h (k s h.0)

reaches_any-SearchedAny :
    (g : Graph) (target : Text) (find : Text → List Text → Option Found)
    (base deps seen : List Text)
    → ((dep : Text) (s : List Text) → Extends base s → Searched g target dep s (find dep s))
    → Extends base seen
    → SearchedAny g target deps seen (reaches_any find deps seen)
unfolding reaches_any
reaches_any-SearchedAny g target find base [] seen ok ext =
    (λ x m. m, λ y m. absurd (ground (arith, m)), λ x h k. absurd (ground (arith, h, k)))
reaches_any-SearchedAny g target find base (dep ∷ deps) seen ok ext =
    or_next-SearchedAny g target dep deps seen (find dep seen) (reaches_any find deps)
      (ok dep seen ext)
      (λ s more. reaches_any-SearchedAny g target find base deps s ok (λ x m. more x (ext x m)))

-- The number of entries of the graph whose target is not seen: the fuel that a find needs.
abbrev pub unseen : Graph → List Text → ℕ
unseen [] seen = 0
unseen ((x, deps) ∷ g) seen = if has x seen then unseen g seen else suc (unseen g seen)

pub unseen-Extends : (g : Graph) (s t : List Text) → Extends s t → unseen g t ≤ unseen g s
unseen-Extends [] s t more = omega arith
unseen-Extends ((x, deps) ∷ g) s t more = ground (arith, more x, unseen-Extends g s t more)

pub unseen-cons :
    (g : Graph) (x : Text) (s : List Text) (deps : List Text)
    → lookup x g ≡ some deps
    → has x s ≡ false
    → unseen g (x ∷ s) < unseen g s
unfolding lookup
unseen-cons [] x s deps h k = ground (arith, h)
unseen-cons ((y, es) ∷ g) x s deps h k = elim (Bool-cases (text_eq y x)) [
  | inl same ↦
      let k₁ : has y s ≡ false = rw ((text_eq_iff y x).0 same) k in
      let less = unseen-Extends g s (x ∷ s) (λ z m. rw m (ground arith)) in
      rw (same, k₁) (omega (arith, less))
  | inr other ↦
      let below = unseen-cons g x s deps (rw other at h) k in rw other (ground (arith, below))
]

pub unseen-nil : (g : Graph) → unseen g [] ≡ length g
unseen-nil [] = refl
unseen-nil ((x, deps) ∷ g) = omega (arith, unseen-nil g)

pub targets-none : (g : Graph) (x : Text) → lookup x g ≡ none → targets g x ≡ []
unfolding targets
targets-none g x h = ap deps_of h

-- The loop over the dependencies of a start that is not seen yet.
reaches_any-targets :
    (fuel : ℕ) (g : Graph) (target start : Text) (seen : List Text)
    → unseen g seen < suc fuel
    → has start seen ≡ false
    → ((dep : Text) (s : List Text)
        → unseen g s < fuel
        → Searched g target dep s (makefile_graph_reaches fuel g target dep s))
    → SearchedAny g target
        (targets g start)
        (start ∷ seen)
        (reaches_any (makefile_graph_reaches fuel g target) (targets g start) (start ∷ seen))
unfolding reaches_any
reaches_any-targets fuel g target start seen h fresh ih = elim (Option-cases (lookup start g)) [
  | inl missing ↦
      rw (targets-none g start missing)
        (λ x m. m, λ y m. absurd (ground (arith, m)), λ x m k. absurd (ground (arith, m, k)))
  | inr entry ↦
      let less = unseen-cons g start seen entry.0 entry.1 fresh in
      reaches_any-SearchedAny g target (makefile_graph_reaches fuel g target) (start ∷ seen)
        (targets g start) (start ∷ seen)
        (λ dep s more. ih dep s (omega (arith, h, less, unseen-Extends g (start ∷ seen) s more)))
        (λ x m. m)
]

Searched-SearchedAny :
    (g : Graph) (target start : Text) (seen : List Text) (o : Option Found)
    → text_eq start target ≡ false
    → SearchedAny g target (targets g start) (start ∷ seen) o
    → Searched g target start seen o
Searched-SearchedAny g target start seen none away r = r
Searched-SearchedAny g target start seen (some (true, t)) away r = via r.1 r.2
Searched-SearchedAny g target start seen (some (false, t)) away r = (
  λ x m. r.0 x (rw m (ground arith)),
  r.0 start (rw (text_eq_refl start) refl),
  λ x m k. elim (Bool-cases (text_eq x start)) [
    | inl same ↦ rw ((text_eq_iff x start).0 same) (away, r.1)
    | inr other ↦ r.2 x m (rw (other, k) refl)
  ],
)

-- With fuel for the entries that are not seen, a search keeps its promise.
makefile_graph_reaches-Searched :
    (fuel : ℕ) (g : Graph) (target start : Text) (seen : List Text)
    → unseen g seen < fuel
    → Searched g target start seen (makefile_graph_reaches fuel g target start seen)
unfolding makefile_graph_reaches
makefile_graph_reaches-Searched zero g target start seen h = absurd (omega (arith, h))
makefile_graph_reaches-Searched (suc fuel) g target start seen h =
    elim (Bool-cases (text_eq start target)) [
      | inl arrived ↦ rw arrived (at arrived)
      | inr away ↦ elim (Bool-cases (has start seen)) [
        | inl known ↦ rw (away, known) (λ x m. m, known, λ x m k. absurd (ground (arith, m, k)))
        | inr fresh ↦
            rw (away, fresh)
              (Searched-SearchedAny g target start seen
                (reaches_any (makefile_graph_reaches fuel g target) (targets g start)
                  (start ∷ seen))
                away
                (reaches_any-targets fuel g target start seen h fresh
                  (λ dep s less. makefile_graph_reaches-Searched fuel g target dep s less)))
      ]
    ]

-- A path from what is seen stays in what is seen, so it does not come to the target.
no_path :
    {g : Graph} {target : Text} {x : Text} (t : List Text)
    → PathTo g target x
    → Closed g target [] t
    → has x t ≡ true
    → ⊥
no_path t (at {x = x} arrived) closed m = ground (arith, (closed x m refl).0, arrived)
no_path t (via {x = x} {y = y} edge path) closed m =
    no_path t path closed ((closed x m refl).1 y edge)

reaches-Searched :
    (g : Graph) (start target : Text) → Searched g target start [] (reaches g start target)
unfolding reaches
reaches-Searched g start target =
    makefile_graph_reaches-Searched (suc (length g)) g target start [] (omega (arith, unseen-nil g))

Searched-iff :
    (g : Graph) (start target : Text) (o : Option Found)
    → Searched g target start [] o
    → (found : Found) × (o ≡ some found) × ((found.0 ≡ true) ↔ PathTo g target start)
Searched-iff g start target none h = absurd h
Searched-iff g start target (some (true, t)) h = ((true, t), refl, (λ _. h, λ _. refl))
Searched-iff g start target (some (false, t)) h =
    ((false, t), refl, (λ e. absurd (ground (arith, e)), λ path. absurd (no_path t path h.2 h.1)))

-- The search has fuel enough, and says that the target is reached exactly if there is a path of
-- dependencies to it.
pub reaches_iff :
    (g : Graph) (start target : Text)
    → (found : Found) × (reaches g start target ≡ some found)
      × ((found.0 ≡ true) ↔ PathTo g target start)
reaches_iff g start target =
    Searched-iff g start target (reaches g start target) (reaches-Searched g start target)
