-- ===== src/Web/Upload/Sizes.antt =====
-- The sizes of the parts of an upload of apps/web/src/client/multipart-uploader.ts.
use mathlib.Core.Path.{subst}
use scribe_drop.Common.{ℕ, zero, suc, ◌+◌, ◌*◌, ◌≤◌, ◌≡◌, sym, arith}
use scribe_drop.Web.Upload.{Shape, min, part_bytes, ceil_div}

-- The bytes of the first parts.
abbrev pub bytes_before : Shape → ℕ → ℕ
bytes_before shape zero = 0
bytes_before shape (suc n) = bytes_before shape n + part_bytes shape n

-- The first parts are the beginning of the file.
pub bytes_before_lem :
    (shape : Shape) (n : ℕ) → bytes_before shape n ≡ min (n * shape.part_size) shape.file_size
unfolding part_bytes
bytes_before_lem shape zero = ground arith
bytes_before_lem shape (suc n) = grind (arith, bytes_before_lem shape n)

enough : (size part : ℕ) → 1 ≤ part → size ≤ ceil_div size part * part
enough size part h = grind arith

-- All parts are the file.
pub bytes_before_all :
    (shape : Shape)
    → 1 ≤ shape.part_size
    → shape.part_count ≡ ceil_div shape.file_size shape.part_size
    → bytes_before shape shape.part_count ≡ shape.file_size
bytes_before_all shape h e =
    let all : shape.file_size ≤ shape.part_count * shape.part_size =
      subst (λ n. shape.file_size ≤ n * shape.part_size) (sym e)
        (enough shape.file_size shape.part_size h) in
    ground (arith, bytes_before_lem shape shape.part_count)
