-- ===== src/Domain/Pagination.antt =====
-- internal/domain/pagination.go. The fields are uint32 numbers, so the arithmetic wraps at 2 ^ 32.
pub mod Laws
use finsplitter.Base.{ℕ, ◌-◌, ◌*◌, ◌%◌, ◌^◌, max}

pub record Pagination : Type 0 where
  pub page_size : ℕ
  pub page_number : ℕ

-- `max(p.PageNumber, 1)` is at least 1, so the difference does not wrap; the product is taken in
-- uint32 and converted to int64 afterwards.
unfoldable pub offset : Pagination → ℕ
offset p = let page = max p.page_number 1 in ((page - 1) * p.page_size) % 2 ^ 32
