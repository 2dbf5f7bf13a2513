-- ===== src/Replay/Fnv.antt =====
-- `fnv1a_64` of crates/eryx/src/replay.rs: the hash that tags a journal entry.
use Prim.Native.Nat.{bit_xor}
use eryx.Prelude.{ℕ, ◌*◌, ◌%◌, ◌^◌, ◌≡◌, refl, [], ◌∷◌}
use eryx.Prelude.Text.{Text, codes}

abbrev offset_basis : ℕ
offset_basis = 0xcbf29ce484222325

abbrev prime : ℕ
prime = 0x100000001b3

-- The loop over the bytes; `wrapping_mul` is reduction modulo 2^64.
hash_bytes : ℕ → Text → ℕ
hash_bytes hash [] = hash
hash_bytes hash (byte ∷ bytes) = hash_bytes (bit_xor hash byte * prime % 2 ^ 64) bytes

unfoldable pub fnv1a_64 : Text → ℕ
unfolding hash_bytes
fnv1a_64 bytes = hash_bytes offset_basis bytes

-- A published test vector of FNV-1a.
fnv1a_64_foobar : fnv1a_64 (codes "foobar") ≡ 0x85944171f73967e8
unfolding fnv1a_64
fnv1a_64_foobar = refl
