-- ===== src/Prelude/Words.antt =====
-- 32-bit words in network byte order: `htonl` with `memcpy` of four bytes, and back.
use Prim.Native.Nat.{ℕ, ◌+◌, ◌*◌, ◌/◌, ◌%◌, ◌^◌, ◌<◌}
use mathlib.Core.Path.{◌≡◌}
use mathlib.Core.List.{List, [], ◌∷◌}
use native.Mathlib.Omega.{arith}

unfoldable pub be32 : ℕ → List ℕ
be32 v = (v / 2 ^ 24 % 256) ∷ (v / 2 ^ 16 % 256) ∷ (v / 2 ^ 8 % 256) ∷ (v % 256) ∷ []

unfoldable pub of_be32 : List ℕ → ℕ
of_be32 (a ∷ b ∷ c ∷ d ∷ []) = ((a * 256 + b) * 256 + c) * 256 + d
of_be32 _ = 0

pub of_be32-be32 : (v : ℕ) → v < 2 ^ 32 → of_be32 (be32 v) ≡ v
unfolding be32 of_be32
of_be32-be32 v h = omega arith
