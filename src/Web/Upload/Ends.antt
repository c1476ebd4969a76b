-- ===== src/Web/Upload/Ends.antt =====
-- The workers of apps/web/src/client/multipart-uploader.ts come to an end.
use scribe_drop.Common.{
  ℕ, zero, suc, ◌+◌, ◌-◌, ◌*◌, ◌≤◌, ◌≡◌, ◌≢◌, refl, arith, List, [], ◌∷◌, ◌++◌, inl, inr, ◌⊎◌, All,
  ap,
}
use scribe_drop.Web.Upload.{
  Shape, Progress, Worker, Answer, Run, initial_progress, initial_workers, upload_next_part,
  take_part, end_part, min, abort_operation,
}

-- The steps that a worker may still make before it takes a part.
abbrev pub steps_left : Worker → ℕ
steps_left Worker.looping = 1
steps_left (Worker.uploading j) = 2
steps_left Worker.stopped = 0

abbrev pub all_steps_left : List Worker → ℕ
all_steps_left [] = 0
all_steps_left (w ∷ ws) = steps_left w + all_steps_left ws

abbrev pub measure : Shape → Progress → List Worker → ℕ
measure shape p ws = 2 * (shape.part_count - p.next_part) + all_steps_left ws

all_steps_left-append :
    (ws : List Worker) (w : Worker) (vs : List Worker)
    → all_steps_left (ws ++ (w ∷ vs)) ≡ steps_left w + all_steps_left (ws ++ vs)
all_steps_left-append [] w vs = refl
all_steps_left-append (v ∷ ws) w vs = omega (arith, all_steps_left-append ws w vs)

all_steps_left-initial : (n : ℕ) → all_steps_left (initial_workers n) ≡ n
all_steps_left-initial zero = refl
all_steps_left-initial (suc n) = omega (arith, all_steps_left-initial n)

-- A worker that has not stopped uses up a step.
step-measure :
    (shape : Shape) (p : Progress) (w : Worker) (answer : Answer)
    → w ≢ Worker.stopped
    → suc (
        2 * (shape.part_count - (upload_next_part shape p w answer).0.next_part)
        + steps_left (upload_next_part shape p w answer).1)
      ≤ 2 * (shape.part_count - p.next_part) + steps_left w
unfolding upload_next_part take_part end_part
step-measure shape p Worker.looping answer h = ground arith
step-measure shape p (Worker.uploading j) (Answer.uploaded tag) h = omega arith
step-measure shape p (Worker.uploading j) (Answer.unreported tag e) h = omega arith
step-measure shape p (Worker.uploading j) (Answer.failed e) h = omega arith
step-measure shape p Worker.stopped answer h = absurd (h refl)

Run-measure :
    (shape : Shape) (concurrency n : ℕ) (p : Progress) (ws : List Worker)
    → Run shape concurrency n p ws
    → n + measure shape p ws ≤ 2 * shape.part_count + min concurrency shape.part_count
unfolding initial_progress abort_operation
Run-measure shape concurrency n p ws (Run.start) =
    omega (arith, all_steps_left-initial (min concurrency shape.part_count))
Run-measure shape concurrency n p ws
      (Run.worker {n = m} {p = q} {ws = vs} before w after answer r e h) =
    omega (
      arith,
      Run-measure shape concurrency m q vs r,
      ap all_steps_left e,
      all_steps_left-append before w after,
      all_steps_left-append before (upload_next_part shape q w answer).1 after,
      step-measure shape q w answer h,
    )
Run-measure shape concurrency n p ws (Run.caller {n = m} {p = q} {ws = vs} r) =
    Run-measure shape concurrency n q ws r

-- A worker that has not stopped is there to be run on, or all have stopped.
abbrev pub CanGo : List Worker → Type 0
CanGo ws =
    (before : List Worker) × (w : Worker) × (after : List Worker) × (ws ≡ before ++ (w ∷ after))
    × (w ≢ Worker.stopped)

abbrev pub AllStopped : List Worker → Type 0
AllStopped ws = All (λ w. w ≡ Worker.stopped) ws

go_or_stopped : (ws : List Worker) → AllStopped ws ⊎ CanGo ws
go_or_stopped [] = inl tt
go_or_stopped (Worker.looping ∷ ws) = inr ([], Worker.looping, ws, refl, (λ e. cc))
go_or_stopped (Worker.uploading j ∷ ws) = inr ([], Worker.uploading j, ws, refl, (λ e. cc))
go_or_stopped (Worker.stopped ∷ ws) = elim (go_or_stopped ws) [
  | inl all ↦ inl (refl, all)
  | inr (before, w, after, e, h) ↦
      inr (Worker.stopped ∷ before, w, after, ap (λ vs. Worker.stopped ∷ vs) e, h)
]

-- However its workers interleave, and whatever the uploads answer, an upload takes at most two steps for
-- each part and one for each worker; and as long as not all workers have stopped, one of them can take a
-- step.
pub upload-ends :
    (shape : Shape) (concurrency n : ℕ) (p : Progress) (ws : List Worker)
    → Run shape concurrency n p ws
    → (n ≤ 2 * shape.part_count + min concurrency shape.part_count) × (AllStopped ws ⊎ CanGo ws)
upload-ends shape concurrency n p ws r =
    (omega (arith, Run-measure shape concurrency n p ws r), go_or_stopped ws)
