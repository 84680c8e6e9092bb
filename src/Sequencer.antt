-- ===== src/Sequencer.antt =====
-- internal/sequencer.hpp, for identifiers of 64 bits: the state is the next number. The counter is
-- atomic, so generate is one step.
use farseer.Base.{ℕ, ◌+◌, ◌%◌}

abbrev pub u64_mod : ℕ
u64_mod = 18446744073709551616

unfoldable pub generate : ℕ → ℕ × ℕ
generate underlying = (underlying, (underlying + 1) % u64_mod)
