-- ===== src/Base/Sort.antt =====
-- Go's `sort`: a stable insertion sort by a Boolean test `less`, and the order of Go's strings.
use Prim.Native.Nat.{ℕ}
use mathlib.Core.Bool.{Bool, true, false, ◌&&◌, ◌||◌}
use mathlib.Core.List.{List, [], ◌∷◌, Perm, Memᴰ}
use mathlib.Core.List.Perm
use mathlib.Core.List.Memᴰ
use mathlib.Core.Logic.{inl, inr}
use mathlib.Core.Path.{◌≡◌, refl}
use native.Mathlib.Omega.{arith}
use natsx.Base.Logic.{ltb, ◌==◌, if◌then◌else◌, Bool-cases}

-- `s < t` on strings
abbrev pub text_less : List ℕ → List ℕ → Bool
text_less _ [] = false
text_less [] (_ ∷ _) = true
text_less (c ∷ s) (d ∷ t) = ltb c d || c == d && text_less s t

pub text_less_asym : (s t : List ℕ) → text_less s t ≡ true → text_less t s ≡ false
text_less_asym [] [] h = refl
text_less_asym [] (d ∷ t) h = refl
text_less_asym (c ∷ s) [] h = ground arith
text_less_asym (c ∷ s) (d ∷ t) h = ground (arith, text_less_asym s t)

module _ {ℓ} {A : Type ℓ} where
  unfoldable pub insert : (A → A → Bool) → A → List A → List A
  insert less x [] = x ∷ []
  insert less x (y ∷ ys) = if less y x then y ∷ insert less x ys else x ∷ y ∷ ys

  -- `sort.SliceStable`
  unfoldable pub sort : (A → A → Bool) → List A → List A
  unfolding insert
  sort less [] = []
  sort less (x ∷ xs) = insert less x (sort less xs)

  -- No element is less than the one before it.
  abbrev pub IsSorted : (A → A → Bool) → List A → Type 0
  IsSorted less [] = Unit {0}
  IsSorted less (x ∷ []) = Unit {0}
  IsSorted less (x ∷ y ∷ ys) = (less y x ≡ false) × IsSorted less (y ∷ ys)

  insert-perm : (less : A → A → Bool) (x : A) (ys : List A) → Perm (insert less x ys) (x ∷ ys)
  unfolding insert
  insert-perm less x [] = Perm.rfl
  insert-perm less x (y ∷ ys) = elim (Bool-cases (less y x)) [
    | inl h ↦ rw h (Perm.trans (Perm.cons y (insert-perm less x ys)) (Perm.swap x y ys))
    | inr h ↦ rw h Perm.rfl
  ]

  pub sort-perm : (less : A → A → Bool) (xs : List A) → Perm (sort less xs) xs
  unfolding sort
  sort-perm less [] = Perm.rfl
  sort-perm less (x ∷ xs) =
      Perm.trans (insert-perm less x (sort less xs)) (Perm.cons x (sort-perm less xs))

  insert-IsSorted :
      (less : A → A → Bool) (asym : (a b : A) → less a b ≡ true → less b a ≡ false) (x : A)
      (ys : List A)
      → IsSorted less ys
      → IsSorted less (insert less x ys)
  unfolding insert
  insert-IsSorted less asym x [] h = tt
  insert-IsSorted less asym x (y ∷ []) h = ground (arith, asym y x)
  insert-IsSorted less asym x (y ∷ z ∷ zs) h =
      ground (arith, asym y x, insert-IsSorted less asym x (z ∷ zs))

  pub sort-IsSorted :
      (less : A → A → Bool) (asym : (a b : A) → less a b ≡ true → less b a ≡ false) (xs : List A)
      → IsSorted less (sort less xs)
  unfolding sort
  sort-IsSorted less asym [] = tt
  sort-IsSorted less asym (x ∷ xs) =
      insert-IsSorted less asym x (sort less xs) (sort-IsSorted less asym xs)

  -- An insertion keeps what is in the list.
  pub mem-insert :
      (less : A → A → Bool) (a x : A) (ys : List A) → Memᴰ a (x ∷ ys) → Memᴰ a (insert less x ys)
  unfolding insert
  mem-insert less a x [] m = m
  mem-insert less a x (y ∷ ys) m = elim (Bool-cases (less y x)) [
    | inl h ↦ rw h (elim (Memᴰ.cases_cons m) [
      | inl e ↦ Memᴰ.tail (mem-insert less a x ys (Memᴰ.head e))
      | inr m' ↦ elim (Memᴰ.cases_cons m') [
        | inl e ↦ Memᴰ.head e
        | inr m'' ↦ Memᴰ.tail (mem-insert less a x ys (Memᴰ.tail m''))
      ]
    ])
    | inr h ↦ rw h m
  ]

  -- ... and nothing else.
  pub mem_of_mem-insert :
      (less : A → A → Bool) (a x : A) (ys : List A) → Memᴰ a (insert less x ys) → Memᴰ a (x ∷ ys)
  unfolding insert
  mem_of_mem-insert less a x [] m = m
  mem_of_mem-insert less a x (y ∷ ys) m = elim (Bool-cases (less y x)) [
    | inl h ↦
        let m₁ : Memᴰ a (y ∷ insert less x ys) = rw h at m in
        elim (Memᴰ.cases_cons m₁) [
          | inl e ↦ Memᴰ.tail (Memᴰ.head e)
          | inr m' ↦ elim (Memᴰ.cases_cons (mem_of_mem-insert less a x ys m')) [
            | inl e ↦ Memᴰ.head e
            | inr m'' ↦ Memᴰ.tail (Memᴰ.tail m'')
          ]
        ]
    | inr h ↦ rw h at m
  ]

  pub mem-sort : (less : A → A → Bool) (a : A) (xs : List A) → Memᴰ a xs → Memᴰ a (sort less xs)
  unfolding sort
  mem-sort less a [] m = m
  mem-sort less a (x ∷ xs) m = mem-insert less a x (sort less xs) (elim (Memᴰ.cases_cons m) [
    | inl e ↦ Memᴰ.head e
    | inr m' ↦ Memᴰ.tail (mem-sort less a xs m')
  ])

  pub mem_of_mem-sort :
      (less : A → A → Bool) (a : A) (xs : List A) → Memᴰ a (sort less xs) → Memᴰ a xs
  unfolding sort
  mem_of_mem-sort less a [] m = m
  mem_of_mem-sort less a (x ∷ xs) m =
      elim (Memᴰ.cases_cons (mem_of_mem-insert less a x (sort less xs) m)) [
        | inl e ↦ Memᴰ.head e
        | inr m' ↦ Memᴰ.tail (mem_of_mem-sort less a xs m')
      ]
