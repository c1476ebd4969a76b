-- ===== src/Web/Upload.antt =====
-- `uploadFileMultipart` of apps/web/src/client/multipart-uploader.ts: up to eight workers take the parts
-- of a file in turn. What the transport answers, and when, is arbitrary. A worker runs alone from one
-- answer to its next upload.
pub mod Sizes
pub mod Parts
pub mod Turns
pub mod Ends
pub mod Complete
use scribe_drop.Common.{
  ℕ, zero, suc, ◌+◌, ◌-◌, ◌*◌, ◌/◌, String, Bool, true, false, not, ◌&&◌, ◌||◌, List, [], ◌∷◌,
  Option, none, some, ◌≡◌, ◌≢◌, ◌++◌, ltb, leb, Number, natural, other, is_natural, if◌then◌else◌,
}

pub data MultipartUploadErrorKind : Type 0 where
  aborted invalid_response upload_failed : MultipartUploadErrorKind

-- What an upload may throw: the platform's `AbortError`, an error of this module, or anything else.
pub data Failure : Type 0 where
  abort_error anything_else : Failure
  upload_error : MultipartUploadErrorKind → Failure

abbrev pub minimum_multipart_part_size_bytes : ℕ
minimum_multipart_part_size_bytes = 5 * 1024 * 1024

abbrev pub maximum_multipart_parts : ℕ
maximum_multipart_parts = 10000

-- `Number.isSafeInteger(n)` and the bounds, for a number that is not negative.
abbrev pub within : ℕ → ℕ → Number → Bool
within low high (natural n) = is_natural (natural n) && (leb low n && leb n high)
within low high other = false

abbrev pub value : Number → ℕ
value (natural n) = n
value other = 0

-- `Math.ceil(size / part)`; the quotient of two safe integers is near enough for it.
abbrev pub ceil_div : ℕ → ℕ → ℕ
ceil_div size part = (size + (part - 1)) / part

unfoldable pub validate_upload_shape : Number → Number → Number → Option ℕ
validate_upload_shape size part concurrency =
    let part_count = ceil_div (value size) (value part) in
    if not (within 1 9007199254740991 size)
      || (not (within minimum_multipart_part_size_bytes 9007199254740991 part)
          || not (within 1 8 concurrency))
    then none
    else if leb 1 part_count && leb part_count maximum_multipart_parts
    then some part_count
    else none

-- The sizes of an upload whose shape is valid.
pub record Shape : Type 0 where
  pub file_size : ℕ
  pub part_size : ℕ
  pub part_count : ℕ

-- What the workers share.
pub record Progress : Type 0 where
  pub parts : List (Option String)
  pub next_part : ℕ
  pub uploaded_bytes : ℕ
  pub first_failure : Option Failure
  pub is_aborted : Bool

pub data Worker : Type 0 where
  looping stopped : Worker
  uploading : ℕ → Worker

-- How an upload ends: with its tag; with its tag, where the report of progress then throws; or by an
-- error.
pub data Answer : Type 0 where
  uploaded : String → Answer
  unreported : String → Failure → Answer
  failed : Failure → Answer

abbrev pub min : ℕ → ℕ → ℕ
min a b = if leb a b then a else b

-- `end - start` of a part.
unfoldable pub part_bytes : Shape → ℕ → ℕ
part_bytes shape index =
    let start = index * shape.part_size in min (start + shape.part_size) shape.file_size - start

abbrev pub empty_parts : ℕ → List (Option String)
empty_parts zero = []
empty_parts (suc n) = none ∷ empty_parts n

abbrev pub set_part : ℕ → String → List (Option String) → List (Option String)
set_part i tag [] = []
set_part zero tag (p ∷ ps) = some tag ∷ ps
set_part (suc i) tag (p ∷ ps) = p ∷ set_part i tag ps

unfoldable pub initial_progress : Shape → Progress
initial_progress shape = record {
  parts = empty_parts shape.part_count;
  next_part = 0;
  uploaded_bytes = 0;
  first_failure = none;
  is_aborted = false;
}

abbrev pub initial_workers : ℕ → List Worker
initial_workers zero = []
initial_workers (suc n) = Worker.looping ∷ initial_workers n

-- A worker at the head of its loop.
unfoldable pub take_part : Shape → Progress → Progress × Worker
take_part shape p =
    if p.is_aborted
    then (p, Worker.stopped)
    else if leb shape.part_count p.next_part
    then (record p { next_part = p.next_part + 1 }, Worker.stopped)
    else (record p { next_part = p.next_part + 1 }, Worker.uploading p.next_part)

abbrev pub first_of : Option Failure → Failure → Option Failure
first_of none e = some e
first_of (some d) e = some d

-- A worker whose upload has ended.
unfoldable pub end_part : Shape → Progress → ℕ → Answer → Progress × Worker
unfolding part_bytes
end_part shape p index (Answer.uploaded tag) = (
  record p {
    parts = set_part index tag p.parts;
    uploaded_bytes = p.uploaded_bytes + part_bytes shape index;
  },
  Worker.looping,
)
end_part shape p index (Answer.unreported tag e) = (
  record p {
    parts = set_part index tag p.parts;
    uploaded_bytes = p.uploaded_bytes + part_bytes shape index;
    first_failure = first_of p.first_failure e;
    is_aborted = true;
  },
  Worker.stopped,
)
end_part shape p index (Answer.failed e) =
    (record p { first_failure = first_of p.first_failure e; is_aborted = true }, Worker.stopped)

-- A worker up to its next wait; one that has stopped stays so.
unfoldable pub upload_next_part : Shape → Progress → Worker → Answer → Progress × Worker
unfolding take_part end_part
upload_next_part shape p Worker.looping answer = take_part shape p
upload_next_part shape p (Worker.uploading index) answer = end_part shape p index answer
upload_next_part shape p Worker.stopped answer = (p, Worker.stopped)

-- The caller aborts.
unfoldable pub abort_operation : Progress → Progress
abort_operation p = record p { is_aborted = true }

abbrev pub normalize_upload_error : Bool → Failure → MultipartUploadErrorKind
normalize_upload_error true e = MultipartUploadErrorKind.aborted
normalize_upload_error false Failure.abort_error = MultipartUploadErrorKind.aborted
normalize_upload_error false (Failure.upload_error kind) = kind
normalize_upload_error false Failure.anything_else = MultipartUploadErrorKind.upload_failed

-- `parts.map`, `none` where it throws.
abbrev pub completed_parts : List (Option String) → Option (List String)
completed_parts [] = some []
completed_parts (none ∷ ps) = none
completed_parts (some tag ∷ ps) = elim (completed_parts ps) [
  | none ↦ none
  | some tags ↦ some (tag ∷ tags)
]

-- What follows when every worker has stopped: the parts that are sent to be completed, in their order,
-- or the error; `by_caller` tells whether the caller has aborted.
pub data Outcome : Type 0 where
  complete : List String → Outcome
  thrown : MultipartUploadErrorKind → Outcome

unfoldable pub conclude : Progress → Bool → Outcome
conclude p by_caller = elim p.first_failure [
  | some e ↦ Outcome.thrown (normalize_upload_error by_caller e)
  | none ↦
      if p.is_aborted
      then Outcome.thrown MultipartUploadErrorKind.aborted
      else elim (completed_parts p.parts) [
        | none ↦ Outcome.thrown (
            normalize_upload_error by_caller
              (Failure.upload_error MultipartUploadErrorKind.invalid_response))
        | some tags ↦ Outcome.complete tags
      ]
]

-- Uploads in progress, by any interleaving of their workers.
pub data Run (shape : Shape) (concurrency : ℕ) : ℕ → Progress → List Worker → Type 0 where
  start :
      Run shape concurrency 0
        (initial_progress shape)
        (initial_workers (min concurrency shape.part_count))
  worker :
      {n : ℕ} {p : Progress} {ws : List Worker} (before : List Worker) (w : Worker)
      (after : List Worker) (answer : Answer)
      → Run shape concurrency n p ws
      → ws ≡ before ++ (w ∷ after)
      → w ≢ Worker.stopped
      → Run shape concurrency
          (suc n)
          (upload_next_part shape p w answer).0
          (before ++ ((upload_next_part shape p w answer).1 ∷ after))
  caller :
      {n : ℕ} {p : Progress} {ws : List Worker}
      → Run shape concurrency n p ws
      → Run shape concurrency n (abort_operation p) ws
