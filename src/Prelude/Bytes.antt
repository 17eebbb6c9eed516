-- ===== src/Prelude/Bytes.antt =====
-- Memory as a list of bytes, read and written little endian, as the targets of the program do.
-- A read outside the block is `none`: the source has undefined behaviour there.
use Prim.Native.Nat.{ℕ, zero, suc, ◌+◌, ◌*◌, ◌/◌, ◌%◌}
use mathlib.Core.Path.{◌≡◌, refl, ap}
use mathlib.Core.Bool.{Bool, true, false}
use mathlib.Core.Logic.{◌≢◌, ◌↔◌}
use native.Mathlib.Omega.{arith}
use ipc_with_cht.Prelude.Tests.{◌==◌, if◌then◌else◌}
use mathlib.Core.List.{List, [], ◌∷◌}
use mathlib.Core.Option.{Option, none, some}
use ipc_with_cht.Prelude.Lists.{length, drop}

abbrev pub Bytes : Type 0
Bytes = List ℕ

-- The `n` low bytes of a number, the lowest first.
unfoldable pub encode : ℕ → ℕ → Bytes
encode zero v = []
encode (suc n) v = (v % 256) ∷ encode n (v / 256)

-- The number that the first `n` bytes stand for.
unfoldable pub decode : ℕ → Bytes → Option ℕ
decode zero bs = some 0
decode (suc n) [] = none
decode (suc n) (b ∷ bs) = elim (decode n bs) [ none ↦ none | some v ↦ some (b + 256 * v) ]

-- A load of `n` bytes at an offset.
unfoldable pub load : ℕ → ℕ → Bytes → Option ℕ
unfolding decode
load offset n bs = decode n (drop offset bs)

pub length-encode : (n v : ℕ) → length (encode n v) ≡ n
unfolding encode
length-encode zero v = refl
length-encode (suc n) v = ap suc (length-encode n (v / 256))

-- Two texts as bytes: `==` of std::string, and `strcmp` on what stands before the zero.
unfoldable pub same_text : Bytes → Bytes → Bool
same_text [] [] = true
same_text [] (b ∷ bs) = false
same_text (a ∷ rest) [] = false
same_text (a ∷ rest) (b ∷ bs) = if a == b then same_text rest bs else false

pub same_text_iff : (a b : Bytes) → (same_text a b ≡ true) ↔ (a ≡ b)
unfolding same_text
same_text_iff [] [] = ground arith
same_text_iff [] (y ∷ b) = ground arith
same_text_iff (x ∷ a) [] = ground arith
same_text_iff (x ∷ a) (y ∷ b) = ground (arith, same_text_iff a b)

pub same_text_refl : (a : Bytes) → same_text a a ≡ true
same_text_refl a = (same_text_iff a a).1 refl

pub same_text_ne : (a b : Bytes) → a ≢ b → same_text a b ≡ false
same_text_ne a b h = ground (arith, same_text_iff a b)
