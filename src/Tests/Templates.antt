-- ===== src/Tests/Templates.antt =====
-- The client of pkg/templatex at concrete inputs: three calls of `Close` beside each other, one of
-- them with a context that has ended.
use natsx.Base.{
  suc, ◌*◌, true, false, List, [], ◌∷◌, ◌≡◌, refl, ◌⊎◌, Option, none, some, pos, ◌≤◌, all, length,
}
use natsx.Base.Text.{codes}
use natsx.Templatex.{nil, validation_error}
use natsx.Templatex.Client.{
  Context, Client, recorder, close_after, close_checks, closes, record_error_metric,
}
use natsx.Templatex.Interleaving.{
  done, close_step, World, world, Step, step, Reached, start, onward, begin, is_done, total,
}
use natsx.Templatex.Counts.{closings}
use natsx.Templatex.Closing.{closings_le, closings-done}
use natsx.Templatex.Progress.{steps_left, close_progress}

abbrev client : Client
client = record {
  cfg = record { name = codes "t"; timeout = pos 0; secret = [] };
  metrics = some recorder;
  initialized = true;
  closed = false;
}

abbrev contexts : List (Option Context)
contexts = some (record { err = nil }) ∷ none ∷ some (record { err = nil }) ∷ []

abbrev shut : Client
shut = record client { closed = true }

-- The world once all three are done: the second has been refused before the first has counted the closing.
abbrev ended : World
ended =
    let refused = record_error_metric (some recorder) (codes "close") (close_checks none) [] in
    world (record { client = shut; locked = false; log = (close_after closes shut refused).1 })
      (done nil ∷ done (close_checks none) ∷ done nil ∷ [])

-- The first call takes the mutex, the second is refused, and the third waits for the first.
run : Reached (begin client contexts) ended
unfolding close_step close_checks close_after record_error_metric validation_error
run =
    let r1 = onward start (step [] _ _ _ _ _ refl) in
    let r2 = onward r1 (step (_ ∷ []) _ _ _ _ _ refl) in
    let r3 = onward r2 (step (_ ∷ _ ∷ []) _ _ _ _ _ refl) in
    let r4 = onward r3 (step [] _ _ _ _ _ refl) in
    let r5 = onward r4 (step [] _ _ _ _ _ refl) in
    let r6 = onward r5 (step [] _ _ _ _ _ refl) in
    let r7 = onward r6 (step [] _ _ _ _ _ refl) in
    let r8 = onward r7 (step (_ ∷ _ ∷ []) _ _ _ _ _ refl) in
    let r9 = onward r8 (step [] _ _ _ _ _ refl) in
    let r10 = onward r9 (step (_ ∷ _ ∷ []) _ _ _ _ _ refl) in
    let r11 = onward r10 (step (_ ∷ _ ∷ []) _ _ _ _ _ refl) in
    let r12 = onward r11 (step (_ ∷ _ ∷ []) _ _ _ _ _ refl) in r12

closings_le_example : closings ended.shared.log ≤ 1
closings_le_example = closings_le client contexts ended refl refl refl run

closings-done_example : (shut.closed ≡ true) × (closings ended.shared.log ≡ 1)
unfolding close_checks validation_error
closings-done_example = closings-done client contexts ended refl refl refl run refl

close_progress_example :
    ((all is_done ended.calls ≡ true) ⊎ ((v : World) × Step ended v))
    × ((v : World) → Step ended v → suc (total steps_left v.calls) ≤ total steps_left ended.calls)
    × (total steps_left ended.calls ≤ 6 * length contexts)
close_progress_example = close_progress client contexts ended run

abbrev live : Option Context
live = some (record { err = nil })

-- One call alone, once it is done.
abbrev lone : World
lone =
    world (record { client = shut; locked = false; log = (close_after closes shut []).1 })
      (done nil ∷ [])
