-- ===== src/Domain/Pagination/Laws.antt =====
-- Offsets of pages.
use finsplitter.Base.{ℕ, ◌+◌, ◌*◌, ◌-◌, ◌^◌, ◌<◌, ◌≡◌, max, ap, arith}
use finsplitter.Domain.Pagination.{Pagination, offset}

abbrev pub page : ℕ → ℕ → Pagination
page size number = record { page_size = size; page_number = number }

pub offset_exact :
    (size number : ℕ) → number * size < 2 ^ 32 → offset (page size (number + 1)) ≡ number * size
unfolding offset
offset_exact size number h = grind arith

offset_next :
    (size number : ℕ)
    → (number + 1) * size < 2 ^ 32
    → offset (page size (number + 2)) ≡ offset (page size (number + 1)) + size
unfolding offset
offset_next size number h =
    let here : (max (number + 1) 1 - 1) * size ≡ number * size =
      ap (λ (t : ℕ). t * size) (omega arith) in
    let next : (max (number + 2) 1 - 1) * size ≡ (number + 1) * size =
      ap (λ (t : ℕ). t * size) (omega arith) in
    rw (here, next) (omega arith)

-- Pages 0 and 1 start at the first row. As long as the pages before the end of page `number + 1`
-- hold fewer than 2 ^ 32 rows, the next page starts right behind it: no row is skipped or repeated.
pub offset_contiguous :
    (size number : ℕ)
    → (number + 1) * size < 2 ^ 32
    → (offset (page size 0) ≡ 0)
      × (offset (page size 1) ≡ 0)
      × (offset (page size (number + 2)) ≡ offset (page size (number + 1)) + size)
unfolding offset
offset_contiguous size number h = (omega arith, omega arith, offset_next size number h)

-- With pages of 64 rows, page 2 ^ 26 + 1 + k starts at the same row as page k + 1, although both
-- numbers are valid uint32 numbers: the offset has wrapped.
pub offset_wraps :
    (k : ℕ) → k < 2 ^ 26 → offset (page 64 (2 ^ 26 + 1 + k)) ≡ offset (page 64 (k + 1))
unfolding offset
offset_wraps k h = omega arith
