-- ===== src/Web/Upload/Parts.antt =====
-- The parts that are there, and the parts that workers are busy with, in an upload of
-- apps/web/src/client/multipart-uploader.ts.
use scribe_drop.Common.{
  ℕ, zero, suc, ◌+◌, ◌≤◌, ◌<◌, ◌≡◌, refl, ap, arith, String, List, [], ◌∷◌, ◌++◌, Option, none,
  some, ◌==◌, length, if◌then◌else◌,
}
use scribe_drop.Web.Upload.{
  Shape, Worker, part_bytes, set_part, empty_parts, initial_workers, completed_parts,
}
use scribe_drop.Web.Upload.Sizes.{bytes_before}

abbrev pub present : ℕ → List (Option String) → ℕ
present i [] = 0
present zero (none ∷ ps) = 0
present zero (some tag ∷ ps) = 1
present (suc i) (p ∷ ps) = present i ps

abbrev pub busy_with : ℕ → Worker → ℕ
busy_with i Worker.looping = 0
busy_with i Worker.stopped = 0
busy_with i (Worker.uploading j) = if i == j then 1 else 0

abbrev pub busy : ℕ → List Worker → ℕ
busy i [] = 0
busy i (w ∷ ws) = busy_with i w + busy i ws

abbrev pub stopped_count : List Worker → ℕ
stopped_count [] = 0
stopped_count (Worker.looping ∷ ws) = stopped_count ws
stopped_count (Worker.uploading j ∷ ws) = stopped_count ws
stopped_count (Worker.stopped ∷ ws) = suc (stopped_count ws)

-- The bytes of the parts that are there, of a list that starts with part `k`.
abbrev pub sent_bytes : Shape → ℕ → List (Option String) → ℕ
sent_bytes shape k [] = 0
sent_bytes shape k (none ∷ ps) = sent_bytes shape (suc k) ps
sent_bytes shape k (some tag ∷ ps) = part_bytes shape k + sent_bytes shape (suc k) ps

pub length-set_part :
    (j : ℕ) (tag : String) (ps : List (Option String)) → length (set_part j tag ps) ≡ length ps
length-set_part j tag [] = refl
length-set_part zero tag (p ∷ ps) = refl
length-set_part (suc j) tag (p ∷ ps) = omega (arith, length-set_part j tag ps)

pub present-set_part :
    (i j : ℕ) (tag : String) (ps : List (Option String))
    → j < length ps
    → present j ps ≡ 0
    → present i (set_part j tag ps) ≡ present i ps + (if i == j then 1 else 0)
present-set_part i j tag [] h e = absurd (omega arith)
present-set_part zero zero tag (none ∷ ps) h e = ground arith
present-set_part zero zero tag (some p ∷ ps) h e = absurd (omega arith)
present-set_part (suc i) zero tag (p ∷ ps) h e = ground arith
present-set_part zero (suc j) tag (none ∷ ps) h e = ground arith
present-set_part zero (suc j) tag (some p ∷ ps) h e = ground arith
present-set_part (suc i) (suc j) tag (p ∷ ps) h e = ground (arith, present-set_part i j tag ps)

pub sent_bytes-set_part :
    (shape : Shape) (k j : ℕ) (tag : String) (ps : List (Option String))
    → j < length ps
    → present j ps ≡ 0
    → sent_bytes shape k (set_part j tag ps) ≡ sent_bytes shape k ps + part_bytes shape (j + k)
sent_bytes-set_part shape k j tag [] h e = absurd (omega arith)
sent_bytes-set_part shape k zero tag (none ∷ ps) h e = ground arith
sent_bytes-set_part shape k zero tag (some p ∷ ps) h e = absurd (omega arith)
sent_bytes-set_part shape k (suc j) tag (none ∷ ps) h e =
    ground (arith, sent_bytes-set_part shape (suc k) j tag ps)
sent_bytes-set_part shape k (suc j) tag (some p ∷ ps) h e =
    ground (arith, sent_bytes-set_part shape (suc k) j tag ps)

pub present-empty_parts : (i n : ℕ) → present i (empty_parts n) ≡ 0
present-empty_parts i zero = refl
present-empty_parts zero (suc n) = refl
present-empty_parts (suc i) (suc n) = present-empty_parts i n

pub sent_bytes-empty_parts : (shape : Shape) (k n : ℕ) → sent_bytes shape k (empty_parts n) ≡ 0
sent_bytes-empty_parts shape k zero = refl
sent_bytes-empty_parts shape k (suc n) = sent_bytes-empty_parts shape (suc k) n

pub length-empty_parts : (n : ℕ) → length (empty_parts n) ≡ n
length-empty_parts zero = refl
length-empty_parts (suc n) = omega (arith, length-empty_parts n)

pub busy-initial_workers : (i n : ℕ) → busy i (initial_workers n) ≡ 0
busy-initial_workers i zero = refl
busy-initial_workers i (suc n) = omega (arith, busy-initial_workers i n)

pub stopped-initial_workers : (n : ℕ) → stopped_count (initial_workers n) ≡ 0
stopped-initial_workers zero = refl
stopped-initial_workers (suc n) = stopped-initial_workers n

pub length-initial_workers : (n : ℕ) → length (initial_workers n) ≡ n
length-initial_workers zero = refl
length-initial_workers (suc n) = omega (arith, length-initial_workers n)

pub busy-append :
    (i : ℕ) (ws : List Worker) (w : Worker) (vs : List Worker)
    → busy i (ws ++ (w ∷ vs)) ≡ busy_with i w + busy i (ws ++ vs)
busy-append i [] w vs = refl
busy-append i (v ∷ ws) w vs = omega (arith, busy-append i ws w vs)

abbrev pub is_stopped : Worker → ℕ
is_stopped Worker.looping = 0
is_stopped (Worker.uploading j) = 0
is_stopped Worker.stopped = 1

pub stopped-append :
    (ws : List Worker) (w : Worker) (vs : List Worker)
    → stopped_count (ws ++ (w ∷ vs)) ≡ is_stopped w + stopped_count (ws ++ vs)
stopped-append [] Worker.looping vs = omega arith
stopped-append [] (Worker.uploading j) vs = omega arith
stopped-append [] Worker.stopped vs = omega arith
stopped-append (Worker.looping ∷ ws) w vs = stopped-append ws w vs
stopped-append (Worker.uploading j ∷ ws) w vs = stopped-append ws w vs
stopped-append (Worker.stopped ∷ ws) w vs = omega (arith, stopped-append ws w vs)

pub length-insert :
    (ws : List Worker) (w : Worker) (vs : List Worker)
    → length (ws ++ (w ∷ vs)) ≡ suc (length (ws ++ vs))
length-insert [] w vs = refl
length-insert (v ∷ ws) w vs = omega (arith, length-insert ws w vs)

-- Where all parts are there, they are what is completed, and their bytes are all bytes.
pub completed_parts-all :
    (ps : List (Option String))
    → ((i : ℕ) → i < length ps → present i ps ≡ 1)
    → (tags : List String) × (completed_parts ps ≡ some tags) × (length tags ≡ length ps)
completed_parts-all [] all = ([], refl, refl)
completed_parts-all (none ∷ ps) all = absurd (omega (arith, all 0 (omega arith)))
completed_parts-all (some tag ∷ ps) all =
    let (tags, e, l) = completed_parts-all ps (λ i h. all (suc i) (omega (arith, h))) in
    (tag ∷ tags, rw e refl, omega (arith, l))

pub sent_bytes-all :
    (shape : Shape) (k n : ℕ) (ps : List (Option String))
    → n ≡ length ps + k
    → ((i : ℕ) → i < length ps → present i ps ≡ 1)
    → bytes_before shape k + sent_bytes shape k ps ≡ bytes_before shape n
sent_bytes-all shape k n [] e all =
    let same : n ≡ k = omega arith in omega (arith, ap (bytes_before shape) same)
sent_bytes-all shape k n (none ∷ ps) e all = absurd (omega (arith, all 0 (omega arith)))
sent_bytes-all shape k n (some tag ∷ ps) e all =
    omega (
      arith,
      sent_bytes-all shape (suc k) n ps (omega arith) (λ i h. all (suc i) (omega (arith, h))),
    )

pub sent_bytes-bounded :
    (shape : Shape) (k n : ℕ) (ps : List (Option String))
    → n ≡ length ps + k
    → bytes_before shape k + sent_bytes shape k ps ≤ bytes_before shape n
sent_bytes-bounded shape k n [] e =
    let same : n ≡ k = omega arith in omega (arith, ap (bytes_before shape) same)
sent_bytes-bounded shape k n (none ∷ ps) e =
    omega (arith, sent_bytes-bounded shape (suc k) n ps (omega arith))
sent_bytes-bounded shape k n (some tag ∷ ps) e =
    omega (arith, sent_bytes-bounded shape (suc k) n ps (omega arith))
