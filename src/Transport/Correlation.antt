-- ===== src/Transport/Correlation.antt =====
-- `fast_correlation_id` of thoughtgate-core/src/transport/jsonrpc.rs: a number of 128 bits from a prefix
-- of the process and a counter, both of 64 bits.
use thoughtgate.Base.{
  ℕ, ◌+◌, ◌-◌, ◌*◌, ◌/◌, ◌%◌, ◌^◌, ◌<◌, ◌≡◌, ◌↔◌, arith, usize_end, wrapping_add,
}

-- `(x & !(mask << at)) | (bits << at)`, where the mask has the low `width` bits and holds `bits`.
abbrev set_bits : ℕ → ℕ → ℕ → ℕ → ℕ
set_bits x at size bits = x - x / 2 ^ at % size * 2 ^ at + bits * 2 ^ at

-- The version is bits 76 to 79, the variant bits 62 and 63.
unfoldable pub correlation_id : ℕ → ℕ → ℕ
correlation_id prefix counter = set_bits (set_bits (prefix * 2 ^ 64 + counter) 76 16 4) 62 4 2

-- The counter after the call, and the identifier.
unfoldable pub fast_correlation_id : ℕ → ℕ → ℕ × ℕ
unfolding correlation_id
fast_correlation_id prefix counter = (wrapping_add counter 1, correlation_id prefix counter)

correlation_id-form :
    (prefix counter : ℕ)
    → counter < usize_end
    → correlation_id prefix counter ≡ set_bits (prefix * 2 ^ 64) 76 16 4 + counter % 2 ^ 62 + 2 ^ 63
unfolding correlation_id
correlation_id-form prefix counter h = omega arith

-- Two calls in one process are given the same identifier exactly when their counters agree modulo
-- 2 ^ 62: identifiers repeat after 2 ^ 62 calls, not before.
pub fast_correlation_id-same_iff :
    (prefix c d : ℕ)
    → c < usize_end
    → d < usize_end
    → ((fast_correlation_id prefix c).1 ≡ (fast_correlation_id prefix d).1)
      ↔ (c % 2 ^ 62 ≡ d % 2 ^ 62)
unfolding fast_correlation_id
fast_correlation_id-same_iff prefix c d hc hd = (
  λ h. omega (arith, h, correlation_id-form prefix c hc, correlation_id-form prefix d hd),
  λ h. omega (arith, h, correlation_id-form prefix c hc, correlation_id-form prefix d hd),
)
