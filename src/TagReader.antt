-- ===== src/TagReader.antt =====
-- The loop that `_cfConfigRead` (src/dpdChatFabric/cfConfig.c) and `cfPairRead`
-- (src/dpdChatFabric/cfPairConfig.c) share: read a tag byte, then let a `switch` act on it. S is
-- what the cases write to.
pub mod Laws
use dpd_chat_fabric.Prelude.{
  ℕ, zero, suc, ◌+◌, ◌^◌, Bool, true, false, Option, none, some, List, [], ◌∷◌, length, get_or,
  Outcome, ok, fault, no_fuel, ◌>>=◌, read, of_be32, ltb, if◌then◌else◌,
}
use dpd_chat_fabric.Types.Tags.{ConfigTag, config_tag}

-- The local variables of the loop, and its target.
pub record Reader (S : Type 0) : Type 0 where
  pub target : S
  pub i : ℕ
  pub filesize : ℕ

module _ {S : Type 0} where
  -- A case that copies n bytes from the index on and stores them.
  unfoldable pub copy_field : ℕ → (List ℕ → S → S) → List ℕ → Reader S → Outcome (Reader S)
  copy_field n store str r = do
    x ← read str r.i n
    ok (record r { i = r.i + n; target = store x r.target })

  -- A case that reads the length of the string. A number above the range of `int` is negative, so
  -- it ends the loop as 0 does.
  unfoldable pub set_filesize : List ℕ → Reader S → Outcome (Reader S)
  set_filesize str r = do
    x ← read str r.i 4
    let n = of_be32 x
    ok (record r { i = r.i + 4; filesize = if ltb n (2 ^ 31) then n else 0 })

  -- `while (i<filesize)`, with fuel.
  unfoldable pub tag_loop :
      (List ℕ → Option ConfigTag → Reader S → Outcome (Reader S))
      → ℕ
      → List ℕ
      → Reader S
      → Outcome (Reader S)
  tag_loop cases zero str r = no_fuel
  tag_loop cases (suc fuel) str r = elim (ltb r.i r.filesize) [
    | false ↦ ok r
    | true ↦ do
      t ← read str r.i 1
      r' ← cases str (config_tag (get_or t 0 0)) (record r { i = r.i + 1 })
      tag_loop cases fuel str r'
  ]
