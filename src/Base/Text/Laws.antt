-- ===== src/Base/Text/Laws.antt =====
-- Laws of trimming, splitting, joining and searching.
use mathlib.Core.Bool.{Bool, false}
use mathlib.Core.List.{List, [], ◌∷◌, ◌++◌}
use mathlib.Core.Logic.{◌≢◌, inl, inr}
use mathlib.Core.Path.{◌≡◌, refl, ap}
use native.Mathlib.Omega.{arith}
use Prim.Native.Nat.{ℕ, ◌≤◌}
use natsx.Base.Logic.{◌==◌, Bool-cases}
use natsx.Base.Lists.{any, length, All}
use natsx.Base.Text.{Text, trim_left, trim_right, trim, split, join, push_front}

-- A text with no code point that satisfies the test is its own trim.
pub trim_left-none : (p : ℕ → Bool) (s : Text) → any p s ≡ false → trim_left p s ≡ s
unfolding trim_left
trim_left-none p [] h = refl
trim_left-none p (c ∷ s) h = ground arith

pub trim_right-none : (p : ℕ → Bool) (s : Text) → any p s ≡ false → trim_right p s ≡ s
unfolding trim_right
trim_right-none p [] h = refl
trim_right-none p (c ∷ s) h = ground (arith, trim_right-none p s)

pub trim-none : (p : ℕ → Bool) (s : Text) → any p s ≡ false → trim p s ≡ s
unfolding trim
trim-none p s h = rw (trim_left-none p s h) (trim_right-none p s h)

-- Trimming trims once and for all.
trim_left_idem : (p : ℕ → Bool) (s : Text) → trim_left p (trim_left p s) ≡ trim_left p s
unfolding trim_left
trim_left_idem p [] = refl
trim_left_idem p (c ∷ s) = ground (arith, trim_left_idem p s)

trim_right_idem : (p : ℕ → Bool) (s : Text) → trim_right p (trim_right p s) ≡ trim_right p s
unfolding trim_right
trim_right_idem p [] = refl
trim_right_idem p (c ∷ s) = ground (arith, trim_right_idem p s)

length-trim_left : (p : ℕ → Bool) (s : Text) → length (trim_left p s) ≤ length s
unfolding trim_left
length-trim_left p [] = omega arith
length-trim_left p (c ∷ s) = ground (arith, length-trim_left p s)

trim_left_stays : (p : ℕ → Bool) (c : ℕ) (s : Text) → trim_left p (c ∷ s) ≡ c ∷ s → p c ≡ false
unfolding trim_left
trim_left_stays p c s h = elim (Bool-cases (p c)) [
  | inl skips ↦
      let e : trim_left p s ≡ c ∷ s = ground arith in
      absurd (omega (arith, ap length e, length-trim_left p s))
  | inr stays ↦ stays
]

-- Trimming on the right keeps what trimming on the left has done.
trim_left-trim_right :
    (p : ℕ → Bool) (s : Text) → trim_left p s ≡ s → trim_left p (trim_right p s) ≡ trim_right p s
unfolding trim_left trim_right
trim_left-trim_right p [] h = refl
trim_left-trim_right p (c ∷ s) h = ground (arith, trim_left_stays p c s h)

pub trim_idem : (p : ℕ → Bool) (s : Text) → trim p (trim p s) ≡ trim p s
unfolding trim
trim_idem p s =
    rw (trim_left-trim_right p (trim_left p s) (trim_left_idem p s))
      (trim_right_idem p (trim_left p s))

module _ (sep : ℕ) where
  abbrev pub lacks : Text → Bool
  lacks s = any (λ c. c == sep) s

  pub split-lacks : (p : Text) → lacks p ≡ false → split p sep ≡ p ∷ []
  unfolding split
  split-lacks [] h = refl
  split-lacks (c ∷ p) h = ground (arith, split-lacks p)

  pub split-append :
      (p rest : Text) → lacks p ≡ false → split (p ++ sep ∷ rest) sep ≡ p ∷ split rest sep
  unfolding split
  split-append [] rest h = ground arith
  split-append (c ∷ p) rest h = ground (arith, split-append p rest)

  push_front-join :
      (c : ℕ) (ps : List Text) → ps ≢ [] → join (push_front c ps) sep ≡ c ∷ join ps sep
  unfolding join
  push_front-join c [] h = absurd (h refl)
  push_front-join c (p ∷ []) h = refl
  push_front-join c (p ∷ q ∷ ps) h = refl

  pub split-ne-nil : (s : Text) → split s sep ≢ []
  unfolding split
  split-ne-nil [] = cc
  split-ne-nil (c ∷ s) = ground (arith, split-ne-nil s)

  cons-join : (ps : List Text) → ps ≢ [] → join ([] ∷ ps) sep ≡ sep ∷ join ps sep
  unfolding join
  cons-join [] h = absurd (h refl)
  cons-join (p ∷ ps) h = refl

  -- Joining the parts of a split gives the text back.
  pub join-split : (s : Text) → join (split s sep) sep ≡ s
  unfolding split
  join-split [] = unfold join in refl
  join-split (c ∷ s) = ground (
    arith,
    join-split s,
    split-ne-nil s,
    push_front-join c (split s sep),
    cons-join (split s sep),
  )

  -- Splitting a join gives the parts back, if there is one and none holds the separator.
  pub split-join :
      (p : Text) (ps : List Text)
      → All (λ t. lacks t ≡ false) (p ∷ ps)
      → split (join (p ∷ ps) sep) sep ≡ p ∷ ps
  unfolding join
  split-join p [] (h, _) = split-lacks p h
  split-join p (q ∷ ps) (h, hs) = rw (split-append p _ h, split-join q ps hs)
