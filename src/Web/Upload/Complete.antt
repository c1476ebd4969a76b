-- ===== src/Web/Upload/Complete.antt =====
-- How an upload of apps/web/src/client/multipart-uploader.ts ends.
use scribe_drop.Common.{
  ℕ, ◌≤◌, ◌<◌, ◌≡◌, ◌⊎◌, refl, ◌∙◌, inl, inr, arith, String, Bool, true, false, some, List, [], ◌∷◌,
  length, Bool-cases, Option-cases, natural,
}
use scribe_drop.Web.Upload.{
  Shape, Progress, Worker, Run, Outcome, MultipartUploadErrorKind, Failure, ceil_div,
  completed_parts, conclude, validate_upload_shape, min, normalize_upload_error,
}
use scribe_drop.Web.Upload.Sizes.{bytes_before, bytes_before_all}
use scribe_drop.Web.Upload.Parts.{
  present, busy, stopped_count, completed_parts-all, sent_bytes-all, sent_bytes-bounded,
}
use scribe_drop.Web.Upload.Ends.{AllStopped}
use scribe_drop.Web.Upload.Turns.{Run-Sound}
use scribe_drop.Web.Upload.Turns.Taking.{Sound}

abbrev pub shape_of : ℕ → ℕ → ℕ → Shape
shape_of size part count = record { file_size = size; part_size = part; part_count = count }

valid_shape :
    (size part concurrency count : ℕ)
    → validate_upload_shape (natural size) (natural part) (natural concurrency) ≡ some count
    → (1 ≤ part) × (count ≡ ceil_div size part) × (1 ≤ concurrency) × (1 ≤ count)
unfolding validate_upload_shape
valid_shape size part concurrency count h = ground arith

stopped_busy : (i : ℕ) (ws : List Worker) → AllStopped ws → busy i ws ≡ 0
stopped_busy i [] a = refl
stopped_busy i (Worker.stopped ∷ ws) (e, a) = omega (arith, stopped_busy i ws a)
stopped_busy i (Worker.looping ∷ ws) (e, a) = cc
stopped_busy i (Worker.uploading j ∷ ws) (e, a) = cc

stopped_all : (ws : List Worker) → AllStopped ws → stopped_count ws ≡ length ws
stopped_all [] a = refl
stopped_all (Worker.stopped ∷ ws) (e, a) = omega (arith, stopped_all ws a)
stopped_all (Worker.looping ∷ ws) (e, a) = cc
stopped_all (Worker.uploading j ∷ ws) (e, a) = cc

module _ (shape : Shape) (workers : ℕ) (p : Progress) (ws : List Worker)
    (sound : Sound shape workers p ws) (some_worker : 1 ≤ workers) (stopped : AllStopped ws) where
  all_present : p.is_aborted ≡ false → (i : ℕ) → i < length p.parts → present i p.parts ≡ 1
  all_present live i h =
      let inside : i < shape.part_count = omega (arith, sound.parts_length, h) in
      let done : shape.part_count ≤ p.next_part =
        sound.halts live
          (omega (arith, stopped_all ws stopped, sound.workers_length, some_worker)) in
      omega
        (arith, sound.taken live i (omega (arith, inside, done)) inside, stopped_busy i ws stopped)

  all_bytes :
      bytes_before shape shape.part_count ≡ shape.file_size
      → p.is_aborted ≡ false
      → p.uploaded_bytes ≡ shape.file_size
  all_bytes whole live = omega (
    arith,
    sound.bytes,
    whole,
    sent_bytes-all shape 0 shape.part_count p.parts (omega (arith, sound.parts_length))
        (all_present live),
  )

-- The outcomes of an upload all of whose workers have stopped: a worker failed or the caller aborted,
-- and the upload throws; or it completes with a tag for each part, and all bytes are uploaded.
abbrev pub Concluded : Shape → Progress → Bool → Type 0
Concluded shape p by_caller =
    (((kind : MultipartUploadErrorKind) × (conclude p by_caller ≡ Outcome.thrown kind))
      × ((p.is_aborted ≡ true) ⊎ ((e : Failure) × (p.first_failure ≡ some e))))
    ⊎ ((tags : List String) × (conclude p by_caller ≡ Outcome.complete tags)
        × (completed_parts p.parts ≡ some tags)
        × (length tags ≡ shape.part_count)
        × (p.uploaded_bytes ≡ shape.file_size))

-- Where the shape of an upload is accepted, then at every moment, however its workers interleave and
-- whatever the uploads answer, it has counted no more bytes than the file has.
pub upload-bounded :
    (size part concurrency count n : ℕ) (p : Progress) (ws : List Worker)
    → validate_upload_shape (natural size) (natural part) (natural concurrency) ≡ some count
    → Run (shape_of size part count) concurrency n p ws
    → p.uploaded_bytes ≤ size
upload-bounded size part concurrency count n p ws valid run =
    let shape = shape_of size part count in
    let (part_size, exact, _, _) = valid_shape size part concurrency count valid in
    let sound = Run-Sound shape concurrency n p ws run in
    let whole = bytes_before_all shape part_size exact in
    let bounded = sent_bytes-bounded shape 0 count p.parts (omega (arith, sound.parts_length)) in
    omega (arith, sound.bytes, whole, bounded)

-- Where the shape of an upload is accepted, and all its workers have stopped, however they interleaved
-- and whatever the uploads answered, it has counted no more bytes than the file has; and it either
-- throws, after a worker failed or the upload was aborted, or it completes with a tag for each part and all bytes
-- uploaded, never with a part missing.
pub upload-Concluded :
    (size part concurrency count n : ℕ) (p : Progress) (ws : List Worker) (by_caller : Bool)
    → validate_upload_shape (natural size) (natural part) (natural concurrency) ≡ some count
    → Run (shape_of size part count) concurrency n p ws
    → AllStopped ws
    → (p.uploaded_bytes ≤ size) × Concluded (shape_of size part count) p by_caller
unfolding conclude
upload-Concluded size part concurrency count n p ws by_caller valid run stopped =
    let shape = shape_of size part count in
    let (part_size, exact, some_worker, some_part) =
      valid_shape size part concurrency count valid in
    let sound = Run-Sound shape concurrency n p ws run in
    let workers : 1 ≤ min concurrency count = ground arith in
    let whole = bytes_before_all shape part_size exact in
    (
      upload-bounded size part concurrency count n p ws valid run,
      elim (Option-cases p.first_failure) [
        | inr (e, failed) ↦
            inl ((normalize_upload_error by_caller e, rw (failed, conclude) refl), inr (e, failed))
        | inl clear ↦ elim (Bool-cases p.is_aborted) [
          | inl over ↦
              inl ((MultipartUploadErrorKind.aborted, rw (clear, over, conclude) refl), inl over)
          | inr live ↦
              let all = all_present shape (min concurrency count) p ws sound workers stopped live in
              let (tags, complete, number) = completed_parts-all p.parts all in
              inr (
                tags,
                rw (clear, live, complete, conclude) refl,
                complete,
                number ∙ sound.parts_length,
                all_bytes shape (min concurrency count) p ws sound workers stopped whole live,
              )
        ]
      ],
    )
