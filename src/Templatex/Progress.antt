-- ===== src/Templatex/Progress.antt =====
-- Calls of `Close` of pkg/templatex/client.go that run beside each other come to an end: the mutex is
-- free whenever no call is in what it guards.
use natsx.Base.{
  ℕ, zero, suc, ◌+◌, ◌*◌, length, ◌≤◌, Bool, true, false, List, [], ◌∷◌, ◌++◌, Option, some, ◌≡◌,
  refl, inl, inr, ◌⊎◌, ap, arith, all, Bool-cases, not, if◌then◌else◌,
}
use natsx.Templatex.{is_nil}
use natsx.Templatex.Client.{Context, Client, close_checks}
use natsx.Templatex.Interleaving.{
  Call, starting, locking, holding, closing, unlocking, leaving, done, Shared, close_step, World,
  world, Step, step, Reached, start, onward, begin, is_done, inside, total, total-append,
}

-- The most steps that a call has still to take.
abbrev pub steps_left : Call → ℕ
steps_left (starting _) = 6
steps_left locking = 5
steps_left holding = 4
steps_left closing = 3
steps_left (unlocking _) = 2
steps_left (leaving _) = 1
steps_left (done _) = 0

close_step-steps_left :
    (call next : Call) (s t : Shared)
    → close_step call s ≡ some (next, t)
    → suc (steps_left next) ≤ steps_left call
unfolding close_step
close_step-steps_left (starting ctx) next s t h = ground (arith, h)
close_step-steps_left locking next s t h = ground (arith, h)
close_step-steps_left holding next s t h = ground (arith, h)
close_step-steps_left closing next s t h = ground (arith, h)
close_step-steps_left (unlocking l) next s t h = ground (arith, h)
close_step-steps_left (leaving l) next s t h = ground (arith, h)
close_step-steps_left (done err) next s t h = ground (arith, h)

Step-work : {u v : World} → Step u v → suc (total steps_left v.calls) ≤ total steps_left u.calls
Step-work (step before call after s next t h) = omega (
  arith,
  total-append steps_left before call after,
  total-append steps_left before next after,
  close_step-steps_left call next s t h,
)

begin-work :
    (c : Client) (contexts : List (Option Context))
    → total steps_left (begin c contexts).calls ≡ 6 * length contexts
begin-work c [] = refl
begin-work c (ctx ∷ contexts) = omega (arith, begin-work c contexts)

Reached-work :
    (c : Client) (contexts : List (Option Context)) (w : World)
    → Reached (begin c contexts) w
    → total steps_left w.calls ≤ 6 * length contexts
Reached-work c contexts w start = omega (arith, begin-work c contexts)
Reached-work c contexts w (onward {u} r s) = omega (arith, Step-work s, Reached-work c contexts u r)

abbrev pub one_if : Bool → ℕ
one_if true = 1
one_if false = 0

-- As many calls are in what the mutex guards as it is locked: one or none.
abbrev pub Guarded : World → Type 0
Guarded w = total inside w.calls ≡ one_if w.shared.locked

close_step-inside :
    (call next : Call) (s t : Shared)
    → close_step call s ≡ some (next, t)
    → inside call ≤ one_if s.locked
    → one_if t.locked + inside call ≡ one_if s.locked + inside next
unfolding close_step
close_step-inside (starting ctx) next s t h k = ground (arith, h)
close_step-inside locking next s t h k = ground (arith, h)
close_step-inside holding next s t h k = ground (arith, h)
close_step-inside closing next s t h k = ground (arith, h)
close_step-inside (unlocking l) next s t h k = ground (arith, h, k)
close_step-inside (leaving l) next s t h k = ground (arith, h)
close_step-inside (done err) next s t h k = ground (arith, h)

pub Step-Guarded : {u v : World} → Step u v → Guarded u → Guarded v
Step-Guarded (step before call after s next t h) g =
    let was = total-append inside before call after in
    let within : inside call ≤ one_if s.locked = omega (arith, g, was) in
    omega (
      arith,
      g,
      was,
      total-append inside before next after,
      close_step-inside call next s t h within,
    )

pub begin-Guarded : (c : Client) (contexts : List (Option Context)) → Guarded (begin c contexts)
begin-Guarded c [] = refl
begin-Guarded c (ctx ∷ contexts) = omega (arith, begin-Guarded c contexts)

pub Reached-Guarded : {w v : World} → Reached w v → Guarded w → Guarded v
Reached-Guarded start g = g
Reached-Guarded (onward r s) g = Step-Guarded s (Reached-Guarded r g)

-- A call with a property, with the calls around it.
abbrev Found : (Call → Type 0) → List Call → Type 0
Found P calls =
    (before : List Call) × (call : Call) × (after : List Call) × (calls ≡ before ++ call ∷ after)
    × P call

Found-cons :
    {P : Call → Type 0} (x : Call) (calls : List Call) → Found P calls → Found P (x ∷ calls)
Found-cons x calls it = (x ∷ it.0, it.1, it.2, ap (◌∷◌ x) it.3, it.4)

abbrev Moves : Option (Call × Shared) → Type 0
Moves o = (next : Call) × (t : Shared) × (o ≡ some (next, t))

-- A call that can take a step.
abbrev Ready : Shared → Call → Type 0
Ready s call = Moves (close_step call s)

either-Moves :
    (b : Bool) (o p : Option (Call × Shared)) → Moves o → Moves p → Moves (if b then o else p)
either-Moves true o p m n = m
either-Moves false o p m n = n

inside-Ready : (s : Shared) (call : Call) → 1 ≤ inside call → Ready s call
unfolding close_step
inside-Ready s (starting ctx) h = absurd (omega (arith, h))
inside-Ready s locking h = absurd (omega (arith, h))
inside-Ready s holding h =
    either-Moves (not s.client.initialized) _ _ (_, _, refl)
      (either-Moves s.client.closed _ _ (_, _, refl) (_, _, refl))
inside-Ready s closing h = (_, _, refl)
inside-Ready s (unlocking l) h = (_, _, refl)
inside-Ready s (leaving l) h = absurd (omega (arith, h))
inside-Ready s (done err) h = absurd (omega (arith, h))

free-Ready : (s : Shared) (call : Call) → s.locked ≡ false → is_done call ≡ false → Ready s call
unfolding close_step
free-Ready s (starting ctx) free h =
    either-Moves (is_nil (close_checks ctx)) _ _ (_, _, refl) (_, _, refl)
free-Ready s locking free h = (holding, record s { locked = true }, rw free refl)
free-Ready s holding free h = inside-Ready s holding (omega arith)
free-Ready s closing free h = (_, _, refl)
free-Ready s (unlocking l) free h = (_, _, refl)
free-Ready s (leaving l) free h = (_, _, refl)
free-Ready s (done err) free h = absurd (ground (arith, h))

find-inside : (s : Shared) (calls : List Call) → 1 ≤ total inside calls → Found (Ready s) calls
find-inside s [] h = absurd (omega (arith, h))
find-inside s (call ∷ calls) h = elim (le_cases (inside call)) [
  | inl none_here ↦ Found-cons call calls (find-inside s calls (omega (arith, h, none_here)))
  | inr here ↦ ([], call, calls, refl, inside-Ready s call here)
]
  where
    le_cases : (n : ℕ) → (n ≡ 0) ⊎ (1 ≤ n)
    le_cases zero = inl refl
    le_cases (suc n) = inr (omega arith)

find-free :
    (s : Shared) (calls : List Call)
    → s.locked ≡ false
    → (all is_done calls ≡ true) ⊎ Found (Ready s) calls
find-free s [] free = inl refl
find-free s (call ∷ calls) free = elim (Bool-cases (is_done call)) [
  | inl over ↦ elim (find-free s calls free) [
    | inl all_done ↦ inl (rw over all_done)
    | inr it ↦ inr (Found-cons call calls it)
  ]
  | inr going ↦ inr ([], call, calls, refl, free-Ready s call free going)
]

find-Ready : (w : World) → Guarded w → (all is_done w.calls ≡ true) ⊎ Found (Ready w.shared) w.calls
find-Ready w g = elim (Bool-cases w.shared.locked) [
  | inl held ↦
      let one : total inside w.calls ≡ 1 = rw held at g in
      inr (find-inside w.shared w.calls (omega (arith, one)))
  | inr free ↦ find-free w.shared w.calls free
]

-- Calls of `Close` beside each other, one for each of some contexts, on a client in any state whose
-- mutex is free at first: they never wait for each other for ever. However they have run so far,
-- either all of them are done or some call can take a step; and no run goes on for ever, since every
-- step leaves fewer to take, of which a call has six at most.
pub close_progress :
    (c : Client) (contexts : List (Option Context)) (w : World)
    → Reached (begin c contexts) w
    → ((all is_done w.calls ≡ true) ⊎ ((v : World) × Step w v))
      × ((v : World) → Step w v → suc (total steps_left v.calls) ≤ total steps_left w.calls)
      × (total steps_left w.calls ≤ 6 * length contexts)
close_progress c contexts w r = (
  elim (find-Ready w (Reached-Guarded r (begin-Guarded c contexts))) [
    | inl all_done ↦ inl all_done
    | inr it ↦
        let (next, t, taken) = it.4 in
        let moved : Step w (world t (it.0 ++ next ∷ it.2)) =
          rw (it.3) (step it.0 it.1 it.2 w.shared next t taken) in
        inr (_, moved)
  ],
  λ v s. Step-work s,
  Reached-work c contexts w r,
)
