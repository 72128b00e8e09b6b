-- ===== src/Base/Word.antt =====
-- 64-bit words (`usize`): a value is a number below 2 ^ 64, and the wrap is written out.
use Prim.Native.Nat.{ℕ, ◌+◌, ◌-◌, ◌*◌, ◌/◌, ◌%◌, ◌^◌, ◌<◌}

-- `usize::MAX + 1`
abbrev pub word_size : ℕ
word_size = 2 ^ 64

abbrev pub IsWord : ℕ → Type 0
IsWord x = x < word_size

-- `x << k`, `x >> k` and `!x` on `usize`.
abbrev pub shl : ℕ → ℕ → ℕ
shl x k = x * 2 ^ k % word_size

abbrev pub shr : ℕ → ℕ → ℕ
shr x k = x / 2 ^ k

abbrev pub bit_not : ℕ → ℕ
bit_not x = word_size - 1 - x

-- `fetch_add` and `fetch_sub` wrap around.
abbrev pub wrapping_add : ℕ → ℕ → ℕ
wrapping_add x y = (x + y) % word_size

abbrev pub wrapping_sub : ℕ → ℕ → ℕ
wrapping_sub x y = (x + word_size - y) % word_size
