-- ===== src/Utils.antt =====
-- src/modules/utils/utils.c: small helpers that the other modules call.
use chic_os.Base.{
  ℕ, zero, suc, ◌+◌, ◌-◌, ◌^◌, Bool, ◌&&◌, ◌||◌, List, [], ◌∷◌, ltb, ◌==◌, if◌then◌else◌, u32,
}

unfoldable pub abs_diff : ℕ → ℕ → ℕ
abs_diff a b = if ltb b a then a - b else b - a

-- `v` is a bit pattern of `int`.
unfoldable pub valid_int : ℕ → Bool
valid_int v = ltb 0 v && ltb v (2 ^ 31 - 1)

-- The countdown of `sleep_ms_with_time`, a millisecond a round; `*ts` wraps below 0.
unfoldable pub sleep_ms_with_time : ℕ → ℕ → ℕ
sleep_ms_with_time zero ts = ts
sleep_ms_with_time (suc ms) ts = sleep_ms_with_time ms (u32 (ts + (2 ^ 32 - 1)))

-- Over the bytes of the string.
unfoldable pub sanitize_str : List ℕ → List ℕ
sanitize_str [] = []
sanitize_str (c ∷ s) = (if c == b'\n' || c == b'-' then b' ' else c) ∷ sanitize_str s
