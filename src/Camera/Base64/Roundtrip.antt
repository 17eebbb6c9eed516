-- ===== src/Camera/Base64/Roundtrip.antt =====
-- What was encoded is decoded to itself.
use ipc_with_cht.Prelude.{
  ℕ, ◌+◌, ◌*◌, ◌/◌, ◌%◌, ◌<◌, ◌≡◌, refl, sym, ◌∙◌, ap, false, some, [], ◌∷◌, ◌++◌, ◌==◌, arith,
  append_assoc, append-nil,
}
use ipc_with_cht.Prelude.Bytes.{Bytes}
use ipc_with_cht.Prelude.Memory.{AreBytes}
use ipc_with_cht.Camera.Base64.{
  Quartet, q0, q1, q2, q3, digit, char2int, quartet_value, push_quartet, push_padded1, push_padded2,
  second_pad, all_blank, closed, decode_pad, add_digit, decode_loop, decode_base64, digit_char,
  encode_base64,
}

char2int-digit_char : (n : ℕ) → n < 64 → char2int (digit_char n) ≡ digit n
unfolding char2int digit_char
char2int-digit_char n h = ground arith

digit_char_no_pad : (n : ℕ) → n < 64 → (digit_char n == b'=') ≡ false
unfolding digit_char
digit_char_no_pad n h = ground arith

-- A character of the alphabet adds its value.
decode_loop-digit_char :
    (n : ℕ) (s : Bytes) (q : Quartet) (tmp : Bytes)
    → n < 64
    → decode_loop (digit_char n ∷ s) q tmp
      ≡ decode_loop s (add_digit q n).0 (tmp ++ (add_digit q n).1)
unfolding decode_loop
decode_loop-digit_char n s q tmp h = ground (arith, digit_char_no_pad n h, char2int-digit_char n h)

-- The bytes of a number of three bytes, from its parts.
high_byte :
    (v a b c : ℕ) → v ≡ a * 65536 + b * 256 + c → a < 256 → b < 256 → c < 256 → v / 65536 % 256 ≡ a
high_byte v a b c e ha hb hc = omega arith

middle_byte : (v a b c : ℕ) → v ≡ a * 65536 + b * 256 + c → b < 256 → c < 256 → v / 256 % 256 ≡ b
middle_byte v a b c e hb hc = omega arith

low_byte : (v a b c : ℕ) → v ≡ a * 65536 + b * 256 + c → c < 256 → v % 256 ≡ c
low_byte v a b c e hc = omega arith

push_quartet_bytes :
    (a b c : ℕ)
    → a < 256
    → b < 256
    → c < 256
    → push_quartet (a / 4) (a % 4 * 16 + b / 16) (b % 16 * 4 + c / 64) (c % 64) ≡ a ∷ b ∷ c ∷ []
unfolding push_quartet
push_quartet_bytes a b c ha hb hc =
    let v = quartet_value (a / 4) (a % 4 * 16 + b / 16) (b % 16 * 4 + c / 64) (c % 64) in
    let e : v ≡ a * 65536 + b * 256 + c = omega arith in
    rw (high_byte v a b c e ha hb hc, middle_byte v a b c e hb hc, low_byte v a b c e hc) refl

push_padded1_bytes :
    (a b : ℕ)
    → a < 256
    → b < 256
    → push_padded1 (a / 4) (a % 4 * 16 + b / 16) (b % 16 * 4) ≡ a ∷ b ∷ []
unfolding push_padded1
push_padded1_bytes a b ha hb =
    let v = quartet_value (a / 4) (a % 4 * 16 + b / 16) (b % 16 * 4) 0 in
    let e : v ≡ a * 65536 + b * 256 + 0 = omega arith in
    rw (high_byte v a b 0 e ha hb (omega arith), middle_byte v a b 0 e hb (omega arith)) refl

push_padded2_bytes : (a : ℕ) → a < 256 → push_padded2 (a / 4) (a % 4 * 16) ≡ a ∷ []
unfolding push_padded2
push_padded2_bytes a ha =
    let v = quartet_value (a / 4) (a % 4 * 16) 0 0 in
    let e : v ≡ a * 65536 + 0 * 256 + 0 = omega arith in
    rw (high_byte v a 0 0 e ha (omega arith) (omega arith)) refl

-- Two and three characters at the start of a quartet put out nothing.
decode_loop_two :
    (a b : ℕ) (s tmp : Bytes)
    → a < 64
    → b < 64
    → decode_loop (digit_char a ∷ digit_char b ∷ s) q0 tmp ≡ decode_loop s (q2 a b) tmp
unfolding add_digit
decode_loop_two a b s tmp ha hb =
    decode_loop-digit_char a (digit_char b ∷ s) q0 tmp ha
    ∙ decode_loop-digit_char b s (q1 a) (tmp ++ []) hb
    ∙ ap (decode_loop s (q2 a b)) (append-nil (tmp ++ []) ∙ append-nil tmp)

decode_loop_three :
    (a b c : ℕ) (s tmp : Bytes)
    → a < 64
    → b < 64
    → c < 64
    → decode_loop (digit_char a ∷ digit_char b ∷ digit_char c ∷ s) q0 tmp
      ≡ decode_loop s (q3 a b c) tmp
unfolding add_digit
decode_loop_three a b c s tmp ha hb hc =
    decode_loop_two a b (digit_char c ∷ s) tmp ha hb
    ∙ decode_loop-digit_char c s (q2 a b) tmp hc
    ∙ ap (decode_loop s (q3 a b c)) (append-nil tmp)

-- The padding ends the text.
padded2 :
    (x y : ℕ) (tmp : Bytes)
    → decode_loop (b'=' ∷ b'=' ∷ []) (q2 x y) tmp ≡ some (tmp ++ push_padded2 x y)
unfolding decode_loop decode_pad second_pad closed all_blank
padded2 x y tmp = refl

padded1 :
    (x y z : ℕ) (tmp : Bytes)
    → decode_loop (b'=' ∷ []) (q3 x y z) tmp ≡ some (tmp ++ push_padded1 x y z)
unfolding decode_loop decode_pad second_pad closed all_blank
padded1 x y z tmp = refl

-- The decoder with the quartet empty goes on behind what it has put out.
decode_loop-encode :
    (bs tmp : Bytes) → AreBytes bs → decode_loop (encode_base64 bs) q0 tmp ≡ some (tmp ++ bs)
unfolding encode_base64 add_digit decode_loop
decode_loop-encode [] tmp h = ap some (sym (append-nil tmp))
decode_loop-encode (a ∷ []) tmp h =
    decode_loop_two (a / 4) (a % 4 * 16) (b'=' ∷ b'=' ∷ []) tmp (omega arith) (omega arith)
    ∙ padded2 (a / 4) (a % 4 * 16) tmp
    ∙ ap (λ bs. some (tmp ++ bs)) (push_padded2_bytes a h.0)
decode_loop-encode (a ∷ b ∷ []) tmp h =
    decode_loop_three (a / 4) (a % 4 * 16 + b / 16) (b % 16 * 4) (b'=' ∷ []) tmp (omega arith)
      (omega arith) (omega arith)
    ∙ padded1 (a / 4) (a % 4 * 16 + b / 16) (b % 16 * 4) tmp
    ∙ ap (λ bs. some (tmp ++ bs)) (push_padded1_bytes a b h.0 h.1.0)
decode_loop-encode (a ∷ b ∷ c ∷ s) tmp (ha, (hb, (hc, h))) =
    let v0 = a / 4 in
    let v1 = a % 4 * 16 + b / 16 in
    let v2 = b % 16 * 4 + c / 64 in
    decode_loop_three v0 v1 v2 (digit_char (c % 64) ∷ encode_base64 s) tmp (omega arith)
      (omega arith) (omega arith)
    ∙ decode_loop-digit_char (c % 64) (encode_base64 s) (q3 v0 v1 v2) tmp (omega arith)
    ∙ ap (λ bs. decode_loop (encode_base64 s) q0 (tmp ++ bs)) (push_quartet_bytes a b c ha hb hc)
    ∙ decode_loop-encode s (tmp ++ (a ∷ b ∷ c ∷ [])) h
    ∙ ap some (append_assoc tmp (a ∷ b ∷ c ∷ []) s)

-- Whatever bytes are encoded, the decoder gives them back.
pub decode-encode_base64 : (bs : Bytes) → AreBytes bs → decode_base64 (encode_base64 bs) ≡ some bs
unfolding decode_base64
decode-encode_base64 bs h = decode_loop-encode bs [] h
