-- ===== src/Agent/Seeds.antt =====
-- `hashString` of internal/agent/executor.go, which seeds the generator of a node: FNV on 64-bit words, as bit
-- patterns below 2 ^ 64. Its argument is the bytes of the text.
use Prim.Native.Nat.{bit_xor}
use gpu_cluster_scheduler.Common.{
  ℕ, ◌-◌, ◌*◌, ◌%◌, ◌^◌, ◌≤◌, ◌<◌, leb, if◌then◌else◌, List, [], ◌∷◌, ◌≡◌, refl, arith,
}

abbrev pub offset_basis : ℕ
offset_basis = 1469598103934665603

abbrev pub fnv_prime : ℕ
fnv_prime = 1099511628211

-- `h ^= int64(s[i]); h *= 1099511628211`
unfoldable pub mix : ℕ → List ℕ → ℕ
mix h [] = h
mix h (b ∷ bytes) = mix (bit_xor h b * fnv_prime % 2 ^ 64) bytes

-- `if h < 0 { h = -h }` on the pattern of h
unfoldable pub absolute : ℕ → ℕ
absolute h = if leb (2 ^ 63) h then (2 ^ 64 - h) % 2 ^ 64 else h

unfoldable pub hash_string : List ℕ → ℕ
unfolding mix absolute
hash_string bytes = absolute (mix offset_basis bytes)

mix-lt : (bytes : List ℕ) (h : ℕ) → h < 2 ^ 64 → mix h bytes < 2 ^ 64
unfolding mix
mix-lt [] h p = p
mix-lt (b ∷ bytes) h p = mix-lt bytes (bit_xor h b * fnv_prime % 2 ^ 64) (omega arith)

-- The seed is not negative, but for the one word that is its own negation, 2 ^ 63.
pub hash_string-le : (bytes : List ℕ) → hash_string bytes ≤ 2 ^ 63
unfolding hash_string absolute
hash_string-le bytes = ground (arith, mix-lt bytes offset_basis (omega arith))

hash_runs : hash_string (101 ∷ 97 ∷ 115 ∷ 116 ∷ []) ≡ 244631275244040878
unfolding hash_string
hash_runs = refl
