-- ===== src/Web/Upload/Turns.antt =====
-- What the workers of apps/web/src/client/multipart-uploader.ts have uploaded, at every turn.
pub mod Taking
use mathlib.Core.Path.{subst}
use scribe_drop.Common.{
  ℕ, ◌+◌, ◌≤◌, ◌<◌, ◌≡◌, sym, ap, ◌∙◌, arith, String, true, false, List, ◌∷◌, ◌++◌, leb,
  if◌then◌else◌, length, if-split,
}
use scribe_drop.Web.Upload.{
  Shape, Progress, Worker, Answer, Run, Failure, initial_progress, initial_workers,
  upload_next_part, take_part, end_part, min, abort_operation, part_bytes,
}
use scribe_drop.Web.Upload.Parts.{
  present, busy, busy_with, stopped_count, is_stopped, sent_bytes, length-set_part,
  present-set_part, sent_bytes-set_part, present-empty_parts, sent_bytes-empty_parts,
  length-empty_parts, busy-initial_workers, stopped-initial_workers, length-initial_workers,
  busy-append, stopped-append, length-insert,
}
use scribe_drop.Web.Upload.Turns.Taking.{
  at_work, busy_at, stopped_at, length_at, take-Sound, Sound, initial-Sound,
}

module _ (shape : Shape) (workers : ℕ) (p : Progress) (before after : List Worker) where
  sent-Sound :
      (j : ℕ) (tag : String)
      → Sound shape workers p (before ++ (Worker.uploading j ∷ after))
      → Sound shape workers
          (end_part shape p j (Answer.uploaded tag)).0
          (before ++ (Worker.looping ∷ after))
  unfolding end_part
  sent-Sound j tag s =
      let here = s.once j in
      let there = busy-append j before (Worker.uploading j) after in
      let room : j < shape.part_count = ground (arith, s.in_range j, there) in
      let inside : j < length p.parts = omega (arith, s.parts_length) in
      let absent : present j p.parts ≡ 0 = ground (arith, here, there) in
      let at_zero : j + 0 ≡ j = omega arith in
      let counts = λ (i : ℕ). (present-set_part i j tag p.parts inside absent) in
      record {
        parts_length = length-set_part j tag p.parts ∙ s.parts_length;
        workers_length = omega (
          arith,
          s.workers_length,
          length-insert before (Worker.uploading j) after,
          length-insert before Worker.looping after,
        );
        bytes = omega (
          arith,
          s.bytes,
          sent_bytes-set_part shape 0 j tag p.parts inside absent,
          ap (part_bytes shape) at_zero,
        );
        once = λ i. ground (
          arith,
          s.once i,
          counts i,
          busy-append i before (Worker.uploading j) after,
          busy-append i before Worker.looping after,
        );
        taken = λ live i h k. ground (
          arith,
          s.taken live i h k,
          counts i,
          busy-append i before (Worker.uploading j) after,
          busy-append i before Worker.looping after,
        );
        untaken = λ i h. ground (
          arith,
          s.untaken i h,
          counts i,
          busy-append i before (Worker.uploading j) after,
          busy-append i before Worker.looping after,
        );
        in_range = λ i h. ground (
          arith,
          s.in_range i h,
          busy-append i before (Worker.uploading j) after,
          busy-append i before Worker.looping after,
        );
        halts = λ live h. s.halts live (
            omega (
              arith,
              h,
              stopped-append before (Worker.uploading j) after,
              stopped-append before Worker.looping after,
            ));
      }

  failed-Sound :
      (j : ℕ) (e : Failure)
      → Sound shape workers p (at_work shape workers p before after (Worker.uploading j))
      → Sound shape workers
          (end_part shape p j (Answer.failed e)).0
          (at_work shape workers p before after Worker.stopped)
  unfolding end_part
  failed-Sound j e s = record {
    parts_length = s.parts_length;
    workers_length =
        length_at shape workers p before after Worker.stopped (Worker.uploading j)
        ∙ s.workers_length;
    bytes = s.bytes;
    once = λ i. ground (
      arith,
      s.once i,
      busy_at shape workers p before after i (Worker.uploading j),
      busy_at shape workers p before after i Worker.stopped,
    );
    taken = λ live i h k. cc;
    untaken = λ i h. ground (
      arith,
      s.untaken i h,
      busy_at shape workers p before after i (Worker.uploading j),
      busy_at shape workers p before after i Worker.stopped,
    );
    in_range = λ i h. ground (
      arith,
      s.in_range i h,
      busy_at shape workers p before after i (Worker.uploading j),
      busy_at shape workers p before after i Worker.stopped,
    );
    halts = λ live h. absurd (cc);
  }

  -- A part that was sent, whose report of progress throws.
  unreported-Sound :
      (j : ℕ) (tag : String) (e : Failure)
      → Sound shape workers p (before ++ (Worker.uploading j ∷ after))
      → Sound shape workers
          (end_part shape p j (Answer.unreported tag e)).0
          (before ++ (Worker.stopped ∷ after))
  unfolding end_part
  unreported-Sound j tag e s =
      let sent = sent-Sound j tag s in
      record {
        parts_length = sent.parts_length;
        workers_length = omega (
          arith,
          sent.workers_length,
          length-insert before Worker.looping after,
          length-insert before Worker.stopped after,
        );
        bytes = sent.bytes;
        once = λ i. ground (
          arith,
          sent.once i,
          busy-append i before Worker.looping after,
          busy-append i before Worker.stopped after,
        );
        taken = λ live i h k. absurd (cc);
        untaken = λ i h. ground (
          arith,
          sent.untaken i h,
          busy-append i before Worker.looping after,
          busy-append i before Worker.stopped after,
        );
        in_range = λ i h. ground (
          arith,
          sent.in_range i h,
          busy-append i before Worker.looping after,
          busy-append i before Worker.stopped after,
        );
        halts = λ live h. absurd (cc);
      }

  worker-Sound :
      (w : Worker) (answer : Answer)
      → Sound shape workers p (at_work shape workers p before after w)
      → Sound shape workers
          (upload_next_part shape p w answer).0
          (at_work shape workers p before after (upload_next_part shape p w answer).1)
  unfolding upload_next_part
  worker-Sound Worker.looping answer s = take-Sound shape workers p before after s
  worker-Sound (Worker.uploading j) (Answer.uploaded tag) s = unfold end_part in sent-Sound j tag s
  worker-Sound (Worker.uploading j) (Answer.unreported tag e) s =
      unfold end_part in unreported-Sound j tag e s
  worker-Sound (Worker.uploading j) (Answer.failed e) s = unfold end_part in failed-Sound j e s
  worker-Sound Worker.stopped answer s = s

abort-Sound :
    (shape : Shape) (workers : ℕ) (p : Progress) (ws : List Worker)
    → Sound shape workers p ws
    → Sound shape workers (abort_operation p) ws
unfolding abort_operation
abort-Sound shape workers p ws s = record {
  parts_length = s.parts_length;
  workers_length = s.workers_length;
  bytes = s.bytes;
  once = s.once;
  taken = λ live i h k. cc;
  untaken = s.untaken;
  in_range = s.in_range;
  halts = λ live h. absurd (cc);
}

pub Run-Sound :
    (shape : Shape) (concurrency n : ℕ) (p : Progress) (ws : List Worker)
    → Run shape concurrency n p ws
    → Sound shape (min concurrency shape.part_count) p ws
Run-Sound shape concurrency n p ws (Run.start) =
    initial-Sound shape (min concurrency shape.part_count)
Run-Sound shape concurrency n p ws
      (Run.worker {n = m} {p = q} {ws = vs} before w after answer r e h) =
    worker-Sound shape (min concurrency shape.part_count) q before after w answer (
      subst (Sound shape (min concurrency shape.part_count) q) e
        (Run-Sound shape concurrency m q vs r))
Run-Sound shape concurrency n p ws (Run.caller {n = m} {p = q} {ws = vs} r) =
    abort-Sound shape (min concurrency shape.part_count) q ws (Run-Sound shape concurrency m q ws r)
