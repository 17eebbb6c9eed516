-- ===== src/Camera/Base64/Blanks.antt =====
-- Blanks in the text, and the size of the output.
use ipc_with_cht.Prelude.{
  ℕ, ◌+◌, ◌*◌, ◌≤◌, ◌≡◌, refl, sym, ◌∙◌, true, some, [], ◌∷◌, ◌++◌, arith, length, length-append,
  if◌then◌else◌, inl, inr, Bool-cases,
}
use ipc_with_cht.Prelude.Bytes.{Bytes}
use ipc_with_cht.Camera.Base64.{
  Quartet, q0, q1, q2, q3, blank, is_blank, char2int, push_quartet, push_padded1, push_padded2,
  second_pad, all_blank, closed, decode_pad, add_digit, decode_loop, decode_base64,
}

-- The text without its blanks.
unfoldable pub strip : Bytes → Bytes
strip [] = []
strip (c ∷ s) = let rest = strip s in if is_blank c then rest else c ∷ rest

all_blank-strip : (s : Bytes) → all_blank (strip s) ≡ all_blank s
unfolding all_blank strip
all_blank-strip [] = refl
all_blank-strip (c ∷ s) = ground (arith, all_blank-strip s)

second_pad-strip :
    (s : Bytes)
    → ((second_pad (strip s)).0 ≡ (second_pad s).0)
      × ((second_pad (strip s)).1 ≡ strip (second_pad s).1)
unfolding second_pad strip
second_pad-strip [] = (refl, refl)
second_pad-strip (c ∷ s) = ground (arith, second_pad-strip s)

decode_pad-strip :
    (s : Bytes) (q : Quartet) (tmp : Bytes) → decode_pad (strip s) q tmp ≡ decode_pad s q tmp
unfolding decode_pad closed
decode_pad-strip s q0 tmp = refl
decode_pad-strip s (q1 a) tmp = refl
decode_pad-strip s (q2 a b) tmp =
    ground (arith, second_pad-strip s, all_blank-strip (second_pad s).1)
decode_pad-strip s (q3 a b c) tmp =
    ground (arith, second_pad-strip s, all_blank-strip (second_pad s).1)

char2int_blank : (c : ℕ) → is_blank c ≡ true → char2int c ≡ blank
unfolding char2int
char2int_blank c h = rw h refl

decode_loop_blank :
    (c : ℕ) (s : Bytes) (q : Quartet) (tmp : Bytes)
    → is_blank c ≡ true
    → decode_loop (c ∷ s) q tmp ≡ decode_loop s q tmp
unfolding decode_loop
decode_loop_blank c s q tmp h = ground (arith, char2int_blank c h)

-- The first character has the same effect before two rests that are decoded alike.
decode_loop_alike :
    (c : ℕ) (s t : Bytes) (q : Quartet) (tmp : Bytes)
    → ((q : Quartet) (tmp : Bytes) → decode_loop s q tmp ≡ decode_loop t q tmp)
    → ((q : Quartet) (tmp : Bytes) → decode_pad s q tmp ≡ decode_pad t q tmp)
    → decode_loop (c ∷ s) q tmp ≡ decode_loop (c ∷ t) q tmp
unfolding decode_loop
decode_loop_alike c s t q tmp h p = grind (arith, h, p)

decode_loop-strip :
    (s : Bytes) (q : Quartet) (tmp : Bytes) → decode_loop (strip s) q tmp ≡ decode_loop s q tmp
unfolding strip
decode_loop-strip [] q tmp = refl
decode_loop-strip (c ∷ s) q tmp = elim (Bool-cases (is_blank c)) [
  | inl h ↦ rw h (decode_loop-strip s q tmp ∙ sym (decode_loop_blank c s q tmp h))
  | inr h ↦ rw h (decode_loop_alike c (strip s) s q tmp (decode_loop-strip s) (decode_pad-strip s))
]

-- Blanks do not matter, wherever they stand: a text is decoded, or refused, as the text without
-- them is.
pub decode_base64-strip : (s : Bytes) → decode_base64 s ≡ decode_base64 (strip s)
unfolding decode_base64
decode_base64-strip s = sym (decode_loop-strip s q0 [])

-- The values in the quartet.
abbrev filled : Quartet → ℕ
filled q0 = 0
filled (q1 a) = 1
filled (q2 a b) = 2
filled (q3 a b c) = 3

closed-some : (s out result : Bytes) → closed s out ≡ some result → result ≡ out
unfolding closed
closed-some s out result h = ground arith

decode_pad-bound :
    (s : Bytes) (q : Quartet) (tmp out : Bytes)
    → decode_pad s q tmp ≡ some out
    → 4 * length out ≤ 4 * length tmp + 3 * filled q + 3
unfolding decode_pad push_padded1 push_padded2
decode_pad-bound s q0 tmp out h = cc
decode_pad-bound s (q1 a) tmp out h = cc
decode_pad-bound s (q2 a b) tmp out h =
    let v = push_padded2 a b in
    ground (arith, closed-some (second_pad s).1 (tmp ++ v) out, length-append tmp v)
decode_pad-bound s (q3 a b c) tmp out h =
    let v = push_padded1 a b c in
    ground (arith, closed-some (second_pad s).1 (tmp ++ v) out, length-append tmp v)

add_digit-bound :
    (q : Quartet) (m : ℕ) (tmp : Bytes)
    → 4 * length (tmp ++ (add_digit q m).1) + 3 * filled (add_digit q m).0
      ≡ 4 * length tmp + 3 * filled q + 3
unfolding add_digit push_quartet
add_digit-bound q0 m tmp = omega (arith, length-append tmp [])
add_digit-bound (q1 a) m tmp = omega (arith, length-append tmp [])
add_digit-bound (q2 a b) m tmp = omega (arith, length-append tmp [])
add_digit-bound (q3 a b c) m tmp = omega (arith, length-append tmp (push_quartet a b c m))

decode_loop-bound :
    (s : Bytes) (q : Quartet) (tmp out : Bytes)
    → decode_loop s q tmp ≡ some out
    → 4 * length out ≤ 4 * length tmp + 3 * filled q + 3 * length s
unfolding decode_loop
decode_loop-bound [] q0 tmp out h = ground arith
decode_loop-bound [] (q1 a) tmp out h = cc
decode_loop-bound [] (q2 a b) tmp out h = cc
decode_loop-bound [] (q3 a b c) tmp out h = cc
decode_loop-bound (c ∷ s) q tmp out h =
    grind (arith, decode_pad-bound s q tmp out, decode_loop-bound s, add_digit-bound q)

-- What is decoded has at most three bytes for four characters: the room that the decoder reserves
-- is enough.
pub decode_base64-bound :
    (s out : Bytes) → decode_base64 s ≡ some out → 4 * length out ≤ 3 * length s
unfolding decode_base64
decode_base64-bound s out h = omega (arith, decode_loop-bound s q0 [] out h)
