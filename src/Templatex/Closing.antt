-- ===== src/Templatex/Closing.antt =====
-- What calls of `Close` of pkg/templatex/client.go that run beside each other do to the client and to
-- its metrics.
use natsx.Base.{
  ℕ, ◌+◌, ◌≤◌, Bool, true, false, ◌||◌, List, [], ◌∷◌, ◌++◌, Option, some, ◌≡◌, refl, ap, arith,
  all, any, map, if◌then◌else◌,
}
use natsx.Templatex.Client.{Context, Client, recorder}
use natsx.Templatex.Interleaving.{
  Call, starting, locking, holding, closing, unlocking, leaving, done, World, Step, step, Reached,
  start, onward, begin, is_done, inside, total, total-append,
}
use natsx.Templatex.Progress.{one_if, Guarded, Step-Guarded, begin-Guarded}
use natsx.Templatex.Counts.{
  closings, will_count, at_closing, total-at_closing_le, one_if_le, passes, will_close,
  close_step-Kept,
}

-- The client is ready and records its metrics; as many calls count or will count its closing as it has
-- been closed; a call is about to close it only while it is open, and no two are; and `fate` says
-- whether it is closed or will be.
record Holds (fate : Bool) (w : World) : Type 0 where
  guarded : Guarded w
  ready : w.shared.client.initialized ≡ true
  records : w.shared.client.metrics ≡ some recorder
  balance : closings w.shared.log + total will_count w.calls ≡ one_if w.shared.client.closed
  single : total at_closing w.calls + one_if w.shared.client.closed ≤ 1
  fated : (w.shared.client.closed || any will_close w.calls) ≡ fate

any-append :
    (p : Call → Bool) (xs : List Call) (call : Call) (ys : List Call)
    → any p (xs ++ call ∷ ys) ≡ (p call || (any p xs || any p ys))
any-append p [] call ys = refl
any-append p (x ∷ xs) call ys = ground (arith, any-append p xs call ys)

Step-Holds : {fate : Bool} {u v : World} → Step u v → Holds fate u → Holds fate v
Step-Holds (step before call after s next t h) holds =
    let was = total-append at_closing before call after in
    let now = total-append at_closing before next after in
    let within = total-append inside before call after in
    let (ready, records, balance, single, rises, fated) =
      close_step-Kept call next s t h holds.ready holds.records
        (omega (arith, holds.single, was)) in
    record {
      guarded = Step-Guarded (step before call after s next t h) holds.guarded;
      ready = ready;
      records = records;
      balance = omega (
        arith,
        balance,
        holds.balance,
        total-append will_count before call after,
        total-append will_count before next after,
      );
      single = omega (
        arith,
        single,
        rises,
        was,
        now,
        within,
        holds.single,
        holds.guarded,
        one_if_le s.locked,
        total-at_closing_le before,
        total-at_closing_le after,
      );
      fated = ground (
        arith,
        fated,
        holds.fated,
        any-append will_close before call after,
        any-append will_close before next after,
      );
    }

Reached-Holds : {fate : Bool} {w v : World} → Reached w v → Holds fate w → Holds fate v
Reached-Holds start h = h
Reached-Holds (onward r s) h = Step-Holds s (Reached-Holds r h)

begin-Holds :
    (c : Client) (contexts : List (Option Context))
    → c.initialized ≡ true
    → c.metrics ≡ some recorder
    → c.closed ≡ false
    → Holds (any passes contexts) (begin c contexts)
begin-Holds c contexts ready records fresh = record {
  guarded = begin-Guarded c contexts;
  ready = ready;
  records = records;
  balance = rw fresh (omega (arith, none will_count (λ _. refl) contexts));
  single = rw fresh (omega (arith, none at_closing (λ _. refl) contexts));
  fated = rw fresh (fated contexts);
}
  where
    none :
        (f : Call → ℕ)
        → ((ctx : Option Context) → f (starting ctx) ≡ 0)
        → (contexts : List (Option Context)) → total f (map starting contexts) ≡ 0
    none f h [] = refl
    none f h (ctx ∷ contexts) = omega (arith, h ctx, none f h contexts)

    fated :
        (contexts : List (Option Context))
        → any will_close (map starting contexts) ≡ any passes contexts
    fated [] = refl
    fated (ctx ∷ contexts) = ap (λ b. passes ctx || b) (fated contexts)

-- Calls of `Close` beside each other, one for each of some contexts, on a client that is
-- initialised, open and records its metrics: however they run, the closing of the client is counted
-- once at most.
pub closings_le :
    (c : Client) (contexts : List (Option Context)) (w : World)
    → c.initialized ≡ true
    → c.metrics ≡ some recorder
    → c.closed ≡ false
    → Reached (begin c contexts) w
    → closings w.shared.log ≤ 1
closings_le c contexts w ready records fresh r =
    let h = Reached-Holds r (begin-Holds c contexts ready records fresh) in
    omega (arith, h.balance, one_if_le w.shared.client.closed)

-- Nothing is left to count or to close once all calls are done.
all_done :
    (calls : List Call)
    → all is_done calls ≡ true
    → (total will_count calls ≡ 0) × (any will_close calls ≡ false)
all_done [] h = (refl, refl)
all_done (done err ∷ calls) h = let rest = all_done calls h in (omega (arith, rest.0), rest.1)
all_done (starting ctx ∷ calls) h = absurd (ground (arith, h))
all_done (locking ∷ calls) h = absurd (ground (arith, h))
all_done (holding ∷ calls) h = absurd (ground (arith, h))
all_done (closing ∷ calls) h = absurd (ground (arith, h))
all_done (unlocking l ∷ calls) h = absurd (ground (arith, h))
all_done (leaving l ∷ calls) h = absurd (ground (arith, h))

-- Calls of `Close` beside each other, one for each of some contexts, on a client that is
-- initialised, open and records its metrics: once all of them are done, the client is closed exactly
-- if the context of one of them is given and not yet ended, and its closing has been counted exactly
-- once then, and else not at all.
pub closings-done :
    (c : Client) (contexts : List (Option Context)) (w : World)
    → c.initialized ≡ true
    → c.metrics ≡ some recorder
    → c.closed ≡ false
    → Reached (begin c contexts) w
    → all is_done w.calls ≡ true
    → (w.shared.client.closed ≡ any passes contexts)
      × (closings w.shared.log ≡ (if any passes contexts then 1 else 0))
closings-done c contexts w ready records fresh r ended =
    let h = Reached-Holds r (begin-Holds c contexts ready records fresh) in
    let (counted, decided) = all_done w.calls ended in
    let closed : w.shared.client.closed ≡ any passes contexts = ground (arith, h.fated, decided) in
    (closed, ground (arith, h.balance, counted, closed))
