-- ===== src/Eval/Rollout/Gate.antt =====
-- The percent gate of internal/eval/rollout.go.
use Prim.Native.Nat.{bit_xor, ◌^◌}
use Prim.Native.Char.{code}
use Prim.Native.String
use Prim.Native.String.{String}
use text.Mathlib.TextLemmas.{nil-append, cons-append}
use mathlib.Core.List.{append_assoc}
use false_flag_demo.Base.{
  ℕ, ◌*◌, ◌%◌, ◌≤◌, ◌<◌, ◌≡◌, refl, sym, true, List, [], ◌∷◌, ◌++◌, ltb, arith,
}
use false_flag_demo.Base.Int.{ℤ, pos, negsuc, ◌≤ℤ◌}
use false_flag_demo.Base.Text.{bytes, utf8}
use false_flag_demo.Eval.Rollout.{write, fnv_prime, offset_basis, rollout_bucket, in_bucket}

-- Every bucket lies in [0, 10000).
pub rollout_bucket_lt : (salt v : String) → rollout_bucket salt v < 10000
unfolding rollout_bucket
rollout_bucket_lt salt v = omega arith

-- Raising the percentage keeps everybody who was in.
pub in_bucket_mono :
    (salt v : String) (p q : ℤ) → p ≤ℤ q → in_bucket salt v p ≡ true → in_bucket salt v q ≡ true
unfolding in_bucket
in_bucket_mono salt v (pos p) (pos q) h e = ground arith
in_bucket_mono salt v (pos p) (negsuc q) h e = ground arith
in_bucket_mono salt v (negsuc p) q h e = ground arith

-- From 0 to 100 percent the early returns change nothing: the gate is open exactly for the buckets
-- below `percent * 100`.
pub in_bucket-eq-ltb :
    (salt v : String) (n : ℕ)
    → n ≤ 100
    → in_bucket salt v (pos n) ≡ ltb (rollout_bucket salt v) (n * 100)
unfolding in_bucket
in_bucket-eq-ltb salt v n h = ground (arith, rollout_bucket_lt salt v)

write-append : (h : ℕ) (xs ys : List ℕ) → write h (xs ++ ys) ≡ write (write h xs) ys
unfolding write
write-append h [] ys = refl
write-append h (x ∷ xs) ys = write-append (bit_xor h x * fnv_prime % 2 ^ 64) xs ys

bytes-append : (a b : String) → bytes (String.◌++◌ a b) ≡ bytes a ++ bytes b
bytes-append String.[] b = rw nil-append refl
bytes-append (String.◌∷◌ c a) b =
    rw cons-append (rw (bytes-append a b) (sym (append_assoc (utf8 (code c)) (bytes a) (bytes b))))

-- The three writes hash the one text `salt + ":" + attrValue`.
pub rollout_bucket-eq-write :
    (salt v : String)
    → rollout_bucket salt v
      ≡ write offset_basis (bytes (String.◌++◌ salt (String.◌++◌ ":" v))) % 10000
unfolding rollout_bucket
rollout_bucket-eq-write salt v =
    rw (bytes-append salt, write-append offset_basis (bytes salt), bytes-append ":") refl
