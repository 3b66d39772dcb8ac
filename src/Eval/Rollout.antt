-- ===== src/Eval/Rollout.antt =====
-- internal/eval/rollout.go: FNV-1a bucketing (hash/fnv of Go's library) and the percent gate.
pub mod Gate
use Prim.Native.Nat.{bit_xor}
use false_flag_demo.Base.{ℕ, ◌*◌, ◌%◌, ◌^◌, String, Bool, true, false, List, [], ◌∷◌, if◌then◌else◌}
use false_flag_demo.Base.Int.{ℤ, pos, ltb_ℤ, leb_ℤ, pos_part}
use false_flag_demo.Base.Text.{bytes}

-- `fnv.New64a` and its `Write`: xor each byte in, then multiply modulo 2^64.
abbrev pub offset_basis : ℕ
offset_basis = 14695981039346656037

abbrev fnv_prime : ℕ
fnv_prime = 1099511628211

unfoldable pub write : ℕ → List ℕ → ℕ
write h [] = h
write h (b ∷ bs) = write (bit_xor h b * fnv_prime % 2 ^ 64) bs

unfoldable pub rollout_bucket : String → String → ℕ
unfolding write
rollout_bucket salt attr_value =
    let h = write offset_basis (bytes salt) in
    let h' = write h (b':' ∷ []) in let h'' = write h' (bytes attr_value) in h'' % 10000

-- The product stays an `int`: `percent` is below 100 where it is taken.
unfoldable pub in_bucket : String → String → ℤ → Bool
in_bucket salt attr_value percent =
    if leb_ℤ percent (pos 0)
    then false
    else if leb_ℤ (pos 100) percent
    then true
    else ltb_ℤ (pos (rollout_bucket salt attr_value)) (pos (pos_part percent * 100))
