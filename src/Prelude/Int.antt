-- ===== src/Prelude/Int.antt =====
-- Integers over the native ℕ, and Rust's casts of an `i64`.
use oxmux.Prelude.{ℕ, ◌-◌, ◌%◌, ◌^◌}

pub data ℤ : Type 0 where
  pos : ℕ → ℤ
  -- `negsuc n` is -(n + 1)
  negsuc : ℕ → ℤ

-- `as u<w>`: modulo `2 ^ w`
unfoldable pub as_u : ℕ → ℤ → ℕ
as_u w (pos n) = n % 2 ^ w
as_u w (negsuc n) = 2 ^ w - 1 - n % 2 ^ w
