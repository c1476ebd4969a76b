-- ===== src/Web/Tests.antt =====
-- An upload of apps/web/src/client/multipart-uploader.ts in two parts, the second of which ends first.
use scribe_drop.Common.{
  ℕ, ◌+◌, ◌*◌, ◌≤◌, ◌≡◌, ◌⊎◌, refl, String, false, List, [], ◌∷◌, Option, none, some, natural,
}
use scribe_drop.Web.Upload.{
  Shape, Progress, Worker, Answer, Run, validate_upload_shape, initial_progress, upload_next_part,
  take_part, end_part, part_bytes, min,
}
use scribe_drop.Web.Upload.Ends.{AllStopped, CanGo, upload-ends}
use scribe_drop.Web.Upload.Complete.{shape_of, Concluded, upload-bounded, upload-Concluded}

abbrev shape : Shape
shape = shape_of 20000000 16777216 2

abbrev progress : List (Option String) → ℕ → ℕ → Progress
progress parts next bytes = record {
  parts = parts;
  next_part = next;
  uploaded_bytes = bytes;
  first_failure = none;
  is_aborted = false;
}

started : Run shape 3 0 (progress (none ∷ none ∷ []) 0 0) (Worker.looping ∷ Worker.looping ∷ [])
unfolding initial_progress
started = Run.start

first_taken :
    Run shape 3 1 (progress (none ∷ none ∷ []) 1 0) (Worker.uploading 0 ∷ Worker.looping ∷ [])
unfolding upload_next_part take_part end_part part_bytes
first_taken =
    Run.worker [] Worker.looping (Worker.looping ∷ []) (Answer.uploaded "none") started refl
      (λ e. cc)

both_taken :
    Run shape 3 2 (progress (none ∷ none ∷ []) 2 0) (Worker.uploading 0 ∷ Worker.uploading 1 ∷ [])
unfolding upload_next_part take_part end_part part_bytes
both_taken =
    Run.worker (Worker.uploading 0 ∷ []) Worker.looping [] (Answer.uploaded "none") first_taken refl
      (λ e. cc)

second_sent :
    Run shape 3 3
      (progress (none ∷ some "b" ∷ []) 2 3222784)
      (Worker.uploading 0 ∷ Worker.looping ∷ [])
unfolding upload_next_part take_part end_part part_bytes
second_sent =
    Run.worker (Worker.uploading 0 ∷ []) (Worker.uploading 1) [] (Answer.uploaded "b") both_taken
      refl (λ e. cc)

both_sent :
    Run shape 3 4
      (progress (some "a" ∷ some "b" ∷ []) 2 20000000)
      (Worker.looping ∷ Worker.looping ∷ [])
unfolding upload_next_part take_part end_part part_bytes
both_sent =
    Run.worker [] (Worker.uploading 0) (Worker.looping ∷ []) (Answer.uploaded "a") second_sent refl
      (λ e. cc)

first_stopped :
    Run shape 3 5
      (progress (some "a" ∷ some "b" ∷ []) 3 20000000)
      (Worker.stopped ∷ Worker.looping ∷ [])
unfolding upload_next_part take_part end_part part_bytes
first_stopped =
    Run.worker [] Worker.looping (Worker.looping ∷ []) (Answer.uploaded "none") both_sent refl
      (λ e. cc)

both_stopped :
    Run shape 3 6
      (progress (some "a" ∷ some "b" ∷ []) 4 20000000)
      (Worker.stopped ∷ Worker.stopped ∷ [])
unfolding upload_next_part take_part end_part part_bytes
both_stopped =
    Run.worker (Worker.stopped ∷ []) Worker.looping [] (Answer.uploaded "none") first_stopped refl
      (λ e. cc)

shape_valid : validate_upload_shape (natural 20000000) (natural 16777216) (natural 3) ≡ some 2
unfolding validate_upload_shape
shape_valid = refl

upload-bounded_example : 3222784 ≤ 20000000
upload-bounded_example =
    upload-bounded 20000000 16777216 3 2 3 (progress (none ∷ some "b" ∷ []) 2 3222784)
      (Worker.uploading 0 ∷ Worker.looping ∷ []) shape_valid second_sent

upload-Concluded_example :
    (20000000 ≤ 20000000) × Concluded shape (progress (some "a" ∷ some "b" ∷ []) 4 20000000) false
upload-Concluded_example =
    upload-Concluded 20000000 16777216 3 2 6 (progress (some "a" ∷ some "b" ∷ []) 4 20000000)
      (Worker.stopped ∷ Worker.stopped ∷ []) false shape_valid both_stopped (refl, (refl, tt))

upload-ends_example :
    (3 ≤ 2 * 2 + min 3 2)
    × (AllStopped (Worker.uploading 0 ∷ Worker.looping ∷ [])
        ⊎ CanGo (Worker.uploading 0 ∷ Worker.looping ∷ []))
upload-ends_example =
    upload-ends shape 3 3 (progress (none ∷ some "b" ∷ []) 2 3222784)
      (Worker.uploading 0 ∷ Worker.looping ∷ []) second_sent
