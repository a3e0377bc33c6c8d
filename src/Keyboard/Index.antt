-- ===== src/Keyboard/Index.antt =====
-- Indices of the keyboard buffer: the mask is a remainder.
use Prim.Native.Nat.{bit_and}
use zeos_soa.Prelude.{ℕ, ◌+◌, ◌%◌, ◌<◌, ◌≡◌, refl, true, ◌==◌, ==_iff}
use zeos_soa.Prelude.{passes_below, passes_below_at}
use zeos_soa.Keyboard.{next_index, keyboard_buf_size}

mask_table : passes_below (λ i. bit_and (i + 1) 255 == (i + 1) % 256) 256 ≡ true
unfolding passes_below
mask_table = refl

-- Inside the buffer, the masked index is the next one round the buffer.
pub next_index_lem : (i : ℕ) → i < keyboard_buf_size → next_index i ≡ (i + 1) % keyboard_buf_size
unfolding next_index
next_index_lem i h = (==_iff _ _).0 (passes_below_at _ 256 i h mask_table)
