-- ===== src/Web/Upload/Turns/Taking.antt =====
-- A worker of apps/web/src/client/multipart-uploader.ts that takes a part, or stops.
use scribe_drop.Common.{
  ℕ, ◌+◌, ◌≤◌, ◌<◌, ◌≡◌, sym, ◌∙◌, arith, true, false, List, ◌∷◌, ◌++◌, leb, if◌then◌else◌, length,
  if-split,
}
use scribe_drop.Web.Upload.{Shape, Progress, Worker, initial_progress, initial_workers, take_part}
use scribe_drop.Web.Upload.Parts.{
  present, busy, busy_with, stopped_count, is_stopped, sent_bytes, present-empty_parts,
  sent_bytes-empty_parts, length-empty_parts, busy-initial_workers, stopped-initial_workers,
  length-initial_workers, busy-append, stopped-append, length-insert,
}

-- Every part below the next is there or one worker is busy with it, unless an upload has failed; none
-- from the next on is; the bytes are those of the parts that are there; and a worker has stopped only
-- behind the last part, unless the upload was aborted.
pub record Sound (shape : Shape) (workers : ℕ) (p : Progress) (ws : List Worker) : Type 0 where
  pub parts_length : length p.parts ≡ shape.part_count
  pub workers_length : length ws ≡ workers
  pub bytes : p.uploaded_bytes ≡ sent_bytes shape 0 p.parts
  pub once : (i : ℕ) → present i p.parts + busy i ws ≤ 1
  pub taken :
      p.is_aborted ≡ false
      → (i : ℕ) → i < p.next_part
      → i < shape.part_count
      → present i p.parts + busy i ws ≡ 1
  pub untaken : (i : ℕ) → p.next_part ≤ i → present i p.parts + busy i ws ≡ 0
  pub in_range : (i : ℕ) → shape.part_count ≤ i → busy i ws ≡ 0
  pub halts : p.is_aborted ≡ false → 1 ≤ stopped_count ws → shape.part_count ≤ p.next_part

pub initial-Sound :
    (shape : Shape) (n : ℕ) → Sound shape n (initial_progress shape) (initial_workers n)
unfolding initial_progress
initial-Sound shape n = record {
  parts_length = length-empty_parts shape.part_count;
  workers_length = length-initial_workers n;
  bytes = sym (sent_bytes-empty_parts shape 0 shape.part_count);
  once = λ i. omega (arith, present-empty_parts i shape.part_count, busy-initial_workers i n);
  taken = λ _ i h k. absurd (omega (arith, h));
  untaken = λ i h. omega (arith, present-empty_parts i shape.part_count, busy-initial_workers i n);
  in_range = λ i h. busy-initial_workers i n;
  halts = λ _ h. absurd (omega (arith, h, stopped-initial_workers n));
}

module _ (shape : Shape) (workers : ℕ) (p : Progress) (before after : List Worker) where
  -- A worker in the place of another.
  abbrev pub at_work : Worker → List Worker
  at_work w = before ++ (w ∷ after)

  pub busy_at : (i : ℕ) (w : Worker) → busy i (at_work w) ≡ busy_with i w + busy i (before ++ after)
  busy_at i w = busy-append i before w after

  pub stopped_at :
      (w : Worker) → stopped_count (at_work w) ≡ is_stopped w + stopped_count (before ++ after)
  stopped_at w = stopped-append before w after

  pub length_at : (v w : Worker) → length (at_work v) ≡ length (at_work w)
  length_at v w = length-insert before v after ∙ sym (length-insert before w after)

  -- A worker that stops when the upload is aborted, and one that stops behind the last part.
  stop-Sound :
      p.is_aborted ≡ true
      → Sound shape workers p (at_work Worker.looping)
      → Sound shape workers p (at_work Worker.stopped)
  stop-Sound over s = record {
    parts_length = s.parts_length;
    workers_length = length_at Worker.stopped Worker.looping ∙ s.workers_length;
    bytes = s.bytes;
    once = λ i. omega (arith, s.once i, busy_at i Worker.looping, busy_at i Worker.stopped);
    taken = λ live i h k. cc;
    untaken =
        λ i h. omega (arith, s.untaken i h, busy_at i Worker.looping, busy_at i Worker.stopped);
    in_range =
        λ i h. omega (arith, s.in_range i h, busy_at i Worker.looping, busy_at i Worker.stopped);
    halts = λ live h. absurd (cc);
  }

  last-Sound :
      shape.part_count ≤ p.next_part
      → Sound shape workers p (at_work Worker.looping)
      → Sound shape workers (record p { next_part = p.next_part + 1 }) (at_work Worker.stopped)
  last-Sound last s = record {
    parts_length = s.parts_length;
    workers_length = length_at Worker.stopped Worker.looping ∙ s.workers_length;
    bytes = s.bytes;
    once = λ i. omega (arith, s.once i, busy_at i Worker.looping, busy_at i Worker.stopped);
    taken = λ live i h k. omega (
      arith,
      s.taken live i (omega (arith, k, last)) k,
      busy_at i Worker.looping,
      busy_at i Worker.stopped,
    );
    untaken = λ i h.
        omega (
          arith,
          s.untaken i (omega (arith, h)),
          busy_at i Worker.looping,
          busy_at i Worker.stopped,
        );
    in_range =
        λ i h. omega (arith, s.in_range i h, busy_at i Worker.looping, busy_at i Worker.stopped);
    halts = λ live h. omega (arith, last);
  }

  -- A worker that takes the next part.
  more-Sound :
      p.next_part < shape.part_count
      → Sound shape workers p (at_work Worker.looping)
      → Sound shape workers
          (record p { next_part = p.next_part + 1 })
          (at_work (Worker.uploading p.next_part))
  more-Sound more s =
      let w = Worker.uploading p.next_part in
      record {
        parts_length = s.parts_length;
        workers_length = length_at w Worker.looping ∙ s.workers_length;
        bytes = s.bytes;
        once = λ i. ground (
          arith,
          s.once i,
          s.untaken i,
          busy_at i Worker.looping,
          busy_at i (Worker.uploading p.next_part),
        );
        taken = λ live i h k. ground (
          arith,
          s.taken live i,
          s.untaken i,
          busy_at i Worker.looping,
          busy_at i (Worker.uploading p.next_part),
        );
        untaken = λ i h. ground (
          arith,
          s.untaken i (omega (arith, h)),
          busy_at i Worker.looping,
          busy_at i (Worker.uploading p.next_part),
        );
        in_range = λ i h. ground (
          arith,
          s.in_range i h,
          busy_at i Worker.looping,
          busy_at i (Worker.uploading p.next_part),
        );
        halts = λ live h. absurd (
            omega (
              arith,
              s.halts live (omega (arith, h, stopped_at Worker.looping, stopped_at w)),
              more,
            ));
      }

  pub take-Sound :
      Sound shape workers p (at_work Worker.looping)
      → Sound shape workers (take_part shape p).0 (at_work (take_part shape p).1)
  unfolding take_part
  take-Sound s =
      let P = λ (r : Progress × Worker). Sound shape workers r.0 (at_work r.1) in
      let q = record p { next_part = p.next_part + 1 } in
      if-split P p.is_aborted (p, Worker.stopped)
        (if leb shape.part_count p.next_part
          then (q, Worker.stopped)
          else (q, Worker.uploading p.next_part))
        (λ over. stop-Sound over s)
        λ live.
          if-split P (leb shape.part_count p.next_part) (q, Worker.stopped)
            (q, Worker.uploading p.next_part) (λ last. last-Sound (ground arith) s)
            (λ more. more-Sound (ground arith) s)
