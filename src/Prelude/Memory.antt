-- ===== src/Prelude/Memory.antt =====
-- A block of memory that is written and read at offsets, and the C strings in it.
use Prim.Native.Nat.{ℕ, zero, suc, ◌+◌, ◌-◌, ◌*◌, ◌/◌, ◌^◌, ◌≤◌, ◌<◌}
use mathlib.Core.Path.{◌≡◌, refl, sym, ap, ◌∙◌}
use mathlib.Core.Logic.{◌≢◌, inl, inr}
use mathlib.Core.List.{[], ◌∷◌, ◌++◌}
use mathlib.Core.Option.{Option, none, some}
use native.Mathlib.Nat.{pow-zero, pow-suc}
use native.Mathlib.Omega.{arith}
use native.Mathlib.Decide.{dec_lt}
use ipc_with_cht.Prelude.Lists.{length, take, drop, take-append, length-take, length-append}
use ipc_with_cht.Prelude.Tests.{Option-cases, ◌==◌, if◌then◌else◌}
use ipc_with_cht.Prelude.Bytes.{Bytes, encode, decode, load, length-encode}

-- Bytes written over a block from an offset on; what would lie behind the block is not written.
unfoldable pub store : ℕ → Bytes → Bytes → Bytes
store zero [] mem = mem
store zero (b ∷ bs) [] = []
store zero (b ∷ bs) (m ∷ mem) = b ∷ store zero bs mem
store (suc o) bs [] = []
store (suc o) bs (m ∷ mem) = m ∷ store o bs mem

-- A number of `n` bytes.
unfoldable pub store_num : ℕ → ℕ → ℕ → Bytes → Bytes
store_num o n v mem = store o (encode n v) mem

pub length-store : (o : ℕ) (bs mem : Bytes) → length (store o bs mem) ≡ length mem
unfolding store
length-store zero [] mem = refl
length-store zero (b ∷ bs) [] = refl
length-store zero (b ∷ bs) (m ∷ mem) = ap suc (length-store zero bs mem)
length-store (suc o) bs [] = refl
length-store (suc o) bs (m ∷ mem) = ap suc (length-store o bs mem)

pub length-store_num : (o n v : ℕ) (mem : Bytes) → length (store_num o n v mem) ≡ length mem
unfolding store_num
length-store_num o n v mem = length-store o (encode n v) mem

-- What was written is read back, behind it the block is as before.
store-eq_append :
    (bs mem : Bytes) → length bs ≤ length mem → store zero bs mem ≡ bs ++ drop (length bs) mem
unfolding store
store-eq_append [] mem h = refl
store-eq_append (b ∷ bs) [] h = absurd (omega arith)
store-eq_append (b ∷ bs) (m ∷ mem) h = ap (◌∷◌ b) (store-eq_append bs mem (omega arith))

pub drop-store_self :
    (o : ℕ) (bs mem : Bytes)
    → o + length bs ≤ length mem
    → drop o (store o bs mem) ≡ bs ++ drop (length bs) (drop o mem)
unfolding store
drop-store_self zero bs mem h = store-eq_append bs mem (omega arith)
drop-store_self (suc o) bs [] h = absurd (omega arith)
drop-store_self (suc o) bs (m ∷ mem) h = drop-store_self o bs mem (omega arith)

-- A read behind what was written.
pub drop-store_after :
    (o p : ℕ) (bs mem : Bytes) → o + length bs ≤ p → drop p (store o bs mem) ≡ drop p mem
unfolding store
drop-store_after zero p [] mem h = refl
drop-store_after zero zero (b ∷ bs) mem h = absurd (omega arith)
drop-store_after zero (suc p) (b ∷ bs) [] h = refl
drop-store_after zero (suc p) (b ∷ bs) (m ∷ mem) h = drop-store_after zero p bs mem (omega arith)
drop-store_after (suc o) zero bs mem h = absurd (omega arith)
drop-store_after (suc o) (suc p) bs [] h = refl
drop-store_after (suc o) (suc p) bs (m ∷ mem) h = drop-store_after o p bs mem (omega arith)

-- A read in front of what was written.
pub load-store_before :
    (o p n : ℕ) (bs mem : Bytes) → p + n ≤ o → load p n (store o bs mem) ≡ load p n mem
unfolding load decode store
load-store_before o zero zero bs mem h = refl
load-store_before zero zero (suc n) bs mem h = absurd (omega arith)
load-store_before (suc o) zero (suc n) bs [] h = refl
load-store_before (suc o) zero (suc n) bs (m ∷ mem) h =
    let ih = load-store_before o zero n bs mem (omega arith) in rw ih
load-store_before zero (suc p) n bs mem h = absurd (omega arith)
load-store_before (suc o) (suc p) n bs [] h = refl
load-store_before (suc o) (suc p) n bs (m ∷ mem) h = load-store_before o p n bs mem (omega arith)

pub drop-append_add : (a b : Bytes) (o : ℕ) → drop (length a + o) (a ++ b) ≡ drop o b
drop-append_add [] b o = let e : 0 + o ≡ o = omega arith in rw e
drop-append_add (x ∷ a) b o =
    let e : suc (length a) + o ≡ suc (length a + o) = omega arith in rw e (drop-append_add a b o)

-- The first bytes stand for the number that they encode, if it fits.
pub decode-encode : (n v : ℕ) (rest : Bytes) → v < 256 ^ n → decode n (encode n v ++ rest) ≡ some v
unfolding decode encode
decode-encode zero v rest h = let h' : v < 1 = rw pow-zero at h in ap some (omega arith)
decode-encode (suc n) v rest h =
    let h' : v < 256 ^ n * 256 = rw pow-suc at h in
    rw (decode-encode n (v / 256) rest (omega arith)) (ap some (omega arith))

-- A number that was written in a block is read from it.
pub load-store_num :
    (o n v : ℕ) (mem : Bytes)
    → o + n ≤ length mem
    → v < 256 ^ n
    → load o n (store_num o n v mem) ≡ some v
unfolding load store_num
load-store_num o n v mem h f =
    rw (drop-store_self o (encode n v) mem (omega (arith, length-encode n v)))
      (decode-encode n v _ f)

pub load-store_num_before :
    (o n v p k : ℕ) (mem : Bytes) → p + k ≤ o → load p k (store_num o n v mem) ≡ load p k mem
unfolding store_num
load-store_num_before o n v p k mem h = load-store_before o p k (encode n v) mem h

pub load-store_num_after :
    (o n v p k : ℕ) (mem : Bytes) → o + n ≤ p → load p k (store_num o n v mem) ≡ load p k mem
unfolding store_num load
load-store_num_after o n v p k mem h =
    ap (decode k) (drop-store_after o p (encode n v) mem (omega (arith, length-encode n v)))

pub load-store_after :
    (o p k : ℕ) (bs mem : Bytes) → o + length bs ≤ p → load p k (store o bs mem) ≡ load p k mem
unfolding load
load-store_after o p k bs mem h = ap (decode k) (drop-store_after o p bs mem h)

-- Two blocks in a row.
pub load-append_left : (o n : ℕ) (a b : Bytes) → o + n ≤ length a → load o n (a ++ b) ≡ load o n a
unfolding load decode
load-append_left zero zero a b h = refl
load-append_left zero (suc n) [] b h = absurd (omega arith)
load-append_left zero (suc n) (x ∷ a) b h =
    let ih = load-append_left zero n a b (omega arith) in rw ih
load-append_left (suc o) n [] b h = absurd (omega arith)
load-append_left (suc o) n (x ∷ a) b h = load-append_left o n a b (omega arith)

pub load-append_right :
    (k o n : ℕ) (a b : Bytes) → length a ≡ k → load (k + o) n (a ++ b) ≡ load o n b
unfolding load
load-append_right k o n a b e = ap (decode n) (rw (← e) (drop-append_add a b o))

-- Up to the first 0; `none` where the block ends first.
unfoldable pub c_string : Bytes → Option Bytes
c_string [] = none
c_string (b ∷ bs) =
    if b == 0 then some [] else elim (c_string bs) [ none ↦ none | some s ↦ some (b ∷ s) ]

-- The text of a C string holds no 0.
abbrev pub IsText : Bytes → Type 0
IsText [] = Unit {0}
IsText (b ∷ bs) = (b ≢ 0) × IsText bs

pub c_string-append : (s rest : Bytes) → IsText s → c_string (s ++ 0 ∷ rest) ≡ some s
unfolding c_string
c_string-append [] rest h = refl
c_string-append (b ∷ s) rest h = ground (arith, c_string-append s rest h.1)

-- `snprintf(dst, n, "%s", s)`: the text, cut to n - 1 bytes, and a 0.
unfoldable pub print_text : ℕ → Bytes → Bytes
print_text n s = take (n - 1) s ++ 0 ∷ []

pub IsText-take : (n : ℕ) (s : Bytes) → IsText s → IsText (take n s)
IsText-take zero s h = tt
IsText-take (suc n) [] h = tt
IsText-take (suc n) (b ∷ s) h = (h.0, IsText-take n s h.1)

c_string-append_some : (a b s : Bytes) → c_string a ≡ some s → c_string (a ++ b) ≡ some s
unfolding c_string
c_string-append_some [] b s h = cc
c_string-append_some (x ∷ a) b s h = ground (arith, c_string-append_some a b (drop 1 s))

take-store_before : (o p : ℕ) (bs mem : Bytes) → p ≤ o → take p (store o bs mem) ≡ take p mem
unfolding store
take-store_before o zero bs mem h = refl
take-store_before zero (suc p) bs mem h = absurd (omega arith)
take-store_before (suc o) (suc p) bs [] h = refl
take-store_before (suc o) (suc p) bs (m ∷ mem) h =
    ap (◌∷◌ m) (take-store_before o p bs mem (omega arith))

pub take-append-drop : (n : ℕ) (xs : Bytes) → take n xs ++ drop n xs ≡ xs
take-append-drop zero xs = refl
take-append-drop (suc n) [] = refl
take-append-drop (suc n) (x ∷ xs) = ap (◌∷◌ x) (take-append-drop n xs)

-- A block that starts with the printed text `s` is read as that text, cut to n - 1 bytes.
pub Starts : ℕ → Bytes → Bytes → Type 0
Starts n s mem = take (length (print_text n s)) mem ≡ print_text n s

pub Starts-store_self :
    (n : ℕ) (s mem : Bytes)
    → length (print_text n s) ≤ length mem
    → Starts n s (store 0 (print_text n s) mem)
unfolding Starts
Starts-store_self n s mem h =
    rw (store-eq_append (print_text n s) mem h) (take-append (print_text n s) _)

pub Starts-store :
    (n o : ℕ) (s bs mem : Bytes)
    → length (print_text n s) ≤ o
    → Starts n s mem
    → Starts n s (store o bs mem)
unfolding Starts
Starts-store n o s bs mem h st = take-store_before o _ bs mem h ∙ st

pub c_string-Starts :
    (n : ℕ) (s mem rest : Bytes)
    → IsText s
    → Starts n s mem
    → c_string (mem ++ rest) ≡ some (take (n - 1) s)
unfolding Starts print_text
c_string-Starts n s mem rest t st =
    let k = length (print_text n s) in
    let front : c_string (take k mem) ≡ some (take (n - 1) s) =
      rw st (c_string-append (take (n - 1) s) [] (IsText-take (n - 1) s t)) in
    let whole : c_string mem ≡ some (take (n - 1) s) =
      rw (take-append-drop k mem) at (c_string-append_some (take k mem) (drop k mem) _ front) in
    c_string-append_some mem rest _ whole

pub length-print_text : (n : ℕ) (s : Bytes) → 1 ≤ n → length (print_text n s) ≤ n
unfolding print_text
length-print_text n s h =
    omega (arith, length-append (take (n - 1) s) (0 ∷ []), length-take (n - 1) s)

pub Starts-store_num :
    (n o k v : ℕ) (s mem : Bytes)
    → length (print_text n s) ≤ o
    → Starts n s mem
    → Starts n s (store_num o k v mem)
unfolding store_num
Starts-store_num n o k v s mem h st = Starts-store n o s (encode k v) mem h st

abbrev pub AreBytes : Bytes → Type 0
AreBytes [] = Unit {0}
AreBytes (b ∷ bs) = (b < 256) × AreBytes bs

AreBytes-drop : (n : ℕ) (bs : Bytes) → AreBytes bs → AreBytes (drop n bs)
AreBytes-drop zero bs h = h
AreBytes-drop (suc n) [] h = tt
AreBytes-drop (suc n) (b ∷ bs) h = AreBytes-drop n bs h.1

decode-lt : (n : ℕ) (bs : Bytes) (v : ℕ) → AreBytes bs → decode n bs ≡ some v → v < 256 ^ n
unfolding decode
decode-lt zero bs v h e = rw pow-zero (ground arith)
decode-lt (suc n) [] v h e = cc
decode-lt (suc n) (b ∷ bs) v h e = elim (Option-cases (decode n bs)) [
  | inl gone ↦ ground arith
  | inr (w, there) ↦
      let ih = decode-lt n bs w h.1 there in
      let value : v ≡ b + 256 * w = ground arith in rw pow-suc (omega (arith, ih, h.0))
]

-- A number that was read from bytes fits its width.
pub load-lt : (o n v : ℕ) (m : Bytes) → AreBytes m → load o n m ≡ some v → v < 256 ^ n
unfolding load
load-lt o n v m h e = decode-lt n (drop o m) v (AreBytes-drop o m h) e

-- A read that goes over the end of the block.
pub load_past : (o n : ℕ) (m : Bytes) → length m < o + suc n → load o (suc n) m ≡ none
unfolding load decode
load_past zero zero [] h = refl
load_past zero zero (b ∷ m) h = absurd (omega arith)
load_past zero (suc n) [] h = refl
load_past zero (suc n) (b ∷ m) h = let ih = load_past zero n m (omega arith) in rw ih
load_past (suc o) n [] h = refl
load_past (suc o) n (b ∷ m) h = load_past o n m (omega arith)

-- A read within the block.
pub load_within : (o n : ℕ) (m : Bytes) → o + n ≤ length m → load o n m ≢ none
unfolding load decode
load_within zero zero m h e = cc
load_within zero (suc n) [] h e = absurd (omega arith)
load_within zero (suc n) (b ∷ m) h e = ground (arith, load_within zero n m (omega arith))
load_within (suc o) n [] h e = absurd (omega arith)
load_within (suc o) n (b ∷ m) h e = load_within o n m (omega arith) e

pub load_inside : (o n v : ℕ) (m : Bytes) → load o (suc n) m ≡ some v → o + suc n ≤ length m
load_inside o n v m e = elim (dec_lt (length m) (o + suc n)) [
  | yes short ↦ let gone = load_past o n m short in cc
  | no long ↦ omega arith
]

-- A read in the first bytes of a block.
pub load-take :
    (o n k : ℕ) (m : Bytes) → o + n ≤ k → k ≤ length m → load o n (take k m) ≡ load o n m
load-take o n k m h l =
    let e = load-append_left o n (take k m) (drop k m) (omega (arith, length-take k m)) in
    rw (take-append-drop k m) at (sym e)
