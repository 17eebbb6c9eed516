-- ===== src/Camera/Base64.antt =====
-- decodeBase64 of implement/zwsystemInterface/test_ipc/camera_parameters_manager.cpp, and the
-- encoding of RFC 4648 that it is for.
pub mod Roundtrip
pub mod Blanks
use ipc_with_cht.Prelude.{
  ℕ, ◌+◌, ◌-◌, ◌*◌, ◌/◌, ◌%◌, ◌^◌, Bool, true, false, ◌&&◌, ◌||◌, Option, none, some, List, [], ◌∷◌,
  ◌++◌, ◌==◌, ltb, leb, if◌then◌else◌,
}
use ipc_with_cht.Prelude.Bytes.{Bytes}

-- What `char2int` gives: -2, a value of six bits, or -1.
pub data Digit : Type 0 where
  blank illegal : Digit
  digit : ℕ → Digit

abbrev pub is_blank : ℕ → Bool
is_blank c = (c == b' ') || ((c == 9) || ((c == 13) || (c == 10)))

unfoldable pub char2int : ℕ → Digit
char2int c =
    if is_blank c
    then blank
    else (if leb b'A' c && leb c b'Z'
        then digit (c - b'A')
        else (if leb b'a' c && leb c b'z'
            then digit (c - b'a' + 26)
            else (if leb b'0' c && leb c b'9'
                then digit (c - b'0' + 52)
                else (if (c == b'+') || (c == b'-')
                    then digit 62
                    else (if (c == b'/') || (c == b'_') then digit 63 else illegal)))))

-- The first `qn` values of `quartet`.
pub data Quartet : Type 0 where
  q0 : Quartet
  q1 : ℕ → Quartet
  q2 : ℕ → ℕ → Quartet
  q3 : ℕ → ℕ → ℕ → Quartet

-- The number `v` of `push_quartet`: the four values do not overlap in it.
abbrev pub quartet_value : ℕ → ℕ → ℕ → ℕ → ℕ
quartet_value a b c d = a * 2 ^ 18 + b * 2 ^ 12 + c * 2 ^ 6 + d

-- `push_quartet` with a pad count of 0, 1 and 2.
unfoldable pub push_quartet : ℕ → ℕ → ℕ → ℕ → Bytes
push_quartet a b c d =
    let v = quartet_value a b c d in (v / 2 ^ 16 % 256) ∷ (v / 2 ^ 8 % 256) ∷ (v % 256) ∷ []

unfoldable pub push_padded1 : ℕ → ℕ → ℕ → Bytes
push_padded1 a b c = let v = quartet_value a b c 0 in (v / 2 ^ 16 % 256) ∷ (v / 2 ^ 8 % 256) ∷ []

unfoldable pub push_padded2 : ℕ → ℕ → Bytes
push_padded2 a b = let v = quartet_value a b 0 0 in (v / 2 ^ 16 % 256) ∷ []

-- Behind a '=': whether another follows, blanks apart, and what stands behind it.
unfoldable pub second_pad : Bytes → Bool × Bytes
second_pad [] = (false, [])
second_pad (c ∷ s) =
    let rest = second_pad s in
    if c == b'=' then (true, s) else (if is_blank c then rest else (false, c ∷ s))

unfoldable pub all_blank : Bytes → Bool
all_blank [] = true
all_blank (c ∷ s) = let rest = all_blank s in if is_blank c then rest else false

-- The output, if nothing but blanks is left.
unfoldable pub closed : Bytes → Bytes → Option Bytes
unfolding all_blank
closed s out = if all_blank s then some out else none

-- From the first '=' on.
unfoldable pub decode_pad : Bytes → Quartet → Bytes → Option Bytes
unfolding second_pad closed push_padded1 push_padded2
decode_pad s q0 tmp = none
decode_pad s (q1 a) tmp = none
decode_pad s (q2 a b) tmp =
    let (second, rest) = second_pad s in
    if second then closed rest (tmp ++ push_padded2 a b) else none
decode_pad s (q3 a b c) tmp = closed (second_pad s).1 (tmp ++ push_padded1 a b c)

-- `quartet[qn++] = m`, and what a full quartet puts out.
unfoldable pub add_digit : Quartet → ℕ → Quartet × Bytes
unfolding push_quartet
add_digit q0 m = (q1 m, [])
add_digit (q1 a) m = (q2 a m, [])
add_digit (q2 a b) m = (q3 a b m, [])
add_digit (q3 a b c) m = (q0, push_quartet a b c m)

-- The loop over the text, and the test behind it.
unfoldable pub decode_loop : Bytes → Quartet → Bytes → Option Bytes
unfolding decode_pad add_digit char2int
decode_loop [] q0 tmp = some tmp
decode_loop [] q tmp = none
decode_loop (c ∷ s) q tmp = elim (c == b'=') [
  | true ↦ decode_pad s q tmp
  | false ↦ elim (char2int c) [
    | blank ↦ decode_loop s q tmp
    | illegal ↦ none
    | digit m ↦ let (q', out) = add_digit q m in decode_loop s q' (tmp ++ out)
  ]
]

-- The bytes that a text stands for; `none` is the result false, which leaves `out` alone.
unfoldable pub decode_base64 : Bytes → Option Bytes
unfolding decode_loop
decode_base64 s = decode_loop s q0 []

-- The encoding of RFC 4648, which the decoder is to undo.
unfoldable pub digit_char : ℕ → ℕ
digit_char n =
    if ltb n 26
    then n + b'A'
    else (if ltb n 52
        then n - 26 + b'a'
        else (if ltb n 62 then n - 52 + b'0' else (if n == 62 then b'+' else b'/')))

unfoldable pub encode_base64 : Bytes → Bytes
unfolding digit_char
encode_base64 [] = []
encode_base64 (a ∷ []) = digit_char (a / 4) ∷ digit_char (a % 4 * 16) ∷ b'=' ∷ b'=' ∷ []
encode_base64 (a ∷ b ∷ []) =
    digit_char (a / 4) ∷ digit_char (a % 4 * 16 + b / 16) ∷ digit_char (b % 16 * 4) ∷ b'=' ∷ []
encode_base64 (a ∷ b ∷ c ∷ s) =
    digit_char (a / 4)
    ∷ digit_char (a % 4 * 16 + b / 16)
    ∷ digit_char (b % 16 * 4 + c / 64)
    ∷ digit_char (c % 64)
    ∷ encode_base64 s
