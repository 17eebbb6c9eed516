-- ===== src/Prelude/Integers/Roundtrip.antt =====
-- What is written for an `int` is read back.
use ipc_with_cht.Prelude.{
  ℕ, zero, suc, ◌+◌, ◌-◌, ◌*◌, ◌/◌, ◌%◌, ◌^◌, ◌<◌, ◌≡◌, ap, ◌∙◌, true, some, [], ◌∷◌, ◌++◌, arith,
  if◌then◌else◌, ltb, Bool-cases, inl, inr, subst, sym,
}
use ipc_with_cht.Prelude.Bytes.{Bytes}
use ipc_with_cht.Prelude.Integers.{
  ℤ, pos, negsuc, is_int, digits, print_int, is_digit, read_digits, read_nat, in_range, negate,
  read_signed, parse_int,
}

-- Digits to the end.
abbrev pub AllDigits : Bytes → Type 0
AllDigits [] = Unit
AllDigits (c ∷ s) = (is_digit c ≡ true) × AllDigits s

AllDigits-snoc : (s : Bytes) (c : ℕ) → AllDigits s → is_digit c ≡ true → AllDigits (s ++ c ∷ [])
AllDigits-snoc [] c a h = (h, tt)
AllDigits-snoc (b ∷ s) c (a, as') h = (a, AllDigits-snoc s c as' h)

read_digits-snoc :
    (acc : ℕ) (s : Bytes) (c : ℕ)
    → AllDigits s
    → is_digit c ≡ true
    → read_digits acc (s ++ c ∷ []) ≡ read_digits acc s * 10 + (c - b'0')
unfolding read_digits
read_digits-snoc acc [] c a h = ground arith
read_digits-snoc acc (b ∷ s) c (a, as') h =
    ground (arith, read_digits-snoc (acc * 10 + (b - b'0')) s c as' h)

pub AllDigits-digits : (fuel n : ℕ) → AllDigits (digits fuel n)
unfolding digits
AllDigits-digits zero n = tt
AllDigits-digits (suc fuel) n = elim (Bool-cases (ltb n 10)) [
  | inl h ↦
      subst
        (λ b.
          AllDigits (if b then (b'0' + n) ∷ [] else digits fuel (n / 10) ++ (b'0' + n % 10) ∷ []))
        (sym h) (ground arith, tt)
  | inr h ↦
      subst
        (λ b.
          AllDigits (if b then (b'0' + n) ∷ [] else digits fuel (n / 10) ++ (b'0' + n % 10) ∷ []))
        (sym h)
        (AllDigits-snoc (digits fuel (n / 10)) (b'0' + n % 10) (AllDigits-digits fuel (n / 10))
          (ground arith))
]

read_digits-digits : (fuel n : ℕ) → n < 10 ^ fuel → read_digits 0 (digits fuel n) ≡ n
unfolding read_digits digits
read_digits-digits zero n h = omega arith
read_digits-digits (suc fuel) n h =
    let ih = read_digits-digits fuel (n / 10) in
    let step =
      read_digits-snoc 0 (digits fuel (n / 10)) (b'0' + n % 10) (AllDigits-digits fuel (n / 10)) in
    ground (arith, ih, step)

module _ (c : ℕ) (s : Bytes) where
  -- At the head of a text, a digit decides every test.
  read_nat_digit : is_digit c ≡ true → read_nat (c ∷ s) ≡ some (read_digits 0 (c ∷ s))
  unfolding read_nat
  read_nat_digit h = ground arith

  parse_int_digit : is_digit c ≡ true → parse_int (c ∷ s) ≡ in_range (pos (read_digits 0 (c ∷ s)))
  unfolding parse_int read_signed
  parse_int_digit h = ground (arith, read_nat_digit)

  parse_int_minus :
      is_digit c ≡ true → parse_int (b'-' ∷ c ∷ s) ≡ in_range (negate (read_digits 0 (c ∷ s)))
  unfolding parse_int read_signed
  parse_int_minus h = ground (arith, read_nat_digit)

-- The digits of a number have a first one.
digits-head :
    (fuel n : ℕ) → (c : ℕ) × ((s : Bytes) × ((digits (suc fuel) n ≡ c ∷ s) × (is_digit c ≡ true)))
unfolding digits
digits-head zero n = elim (Bool-cases (ltb n 10)) [
  | inl h ↦ (b'0' + n, ([], (ground arith, ground arith)))
  | inr h ↦ (b'0' + n % 10, ([], (ground arith, ground arith)))
]
digits-head (suc fuel) n =
    let (c, (s, (e, d))) = digits-head fuel (n / 10) in
    elim (Bool-cases (ltb n 10)) [
      | inl h ↦ (
        b'0' + n,
        (
          [],
          (
            ap
                (λ b.
                  if b then (b'0' + n) ∷ [] else digits (suc fuel) (n / 10) ++ (b'0' + n % 10) ∷ [])
                h,
            ground arith,
          ),
        ),
      )
      | inr h ↦ (
        c,
        (
          s ++ (b'0' + n % 10) ∷ [],
          (
            ap
                  (λ b.
                    if b
                    then (b'0' + n) ∷ []
                    else digits (suc fuel) (n / 10) ++ (b'0' + n % 10) ∷ [])
                  h
                ∙ ap (λ t. t ++ (b'0' + n % 10) ∷ []) e,
            d,
          ),
        ),
      )
    ]

pos-lt : (n : ℕ) → is_int (pos n) ≡ true → n < 10 ^ 11
unfolding is_int
pos-lt n h = ground arith

negsuc-lt : (n : ℕ) → is_int (negsuc n) ≡ true → suc n < 10 ^ 11
unfolding is_int
negsuc-lt n h = ground arith

digits_number :
    (n : ℕ)
    → n < 10 ^ 11
    → (c : ℕ) × ((s : Bytes) × ((digits 11 n ≡ c ∷ s)
          × ((is_digit c ≡ true) × (read_digits 0 (c ∷ s) ≡ n))))
digits_number n h =
    let (c, (s, (e, d))) = digits-head 10 n in
    (c, (s, (e, (d, ap (read_digits 0) (sym e) ∙ read_digits-digits 11 n h))))

is_int-in_range : (i : ℤ) → is_int i ≡ true → in_range i ≡ some i
unfolding in_range
is_int-in_range i h = ground arith

-- The text of an `int` is read as that `int`.
pub parse_int-print_int : (i : ℤ) → is_int i ≡ true → parse_int (print_int i) ≡ some i
unfolding print_int
parse_int-print_int (pos n) h =
    let (c, (s, (e, (d, r)))) = digits_number n (pos-lt n h) in
    ap parse_int e
    ∙ parse_int_digit c s d
    ∙ ap (λ m. in_range (pos m)) r
    ∙ is_int-in_range (pos n) h
parse_int-print_int (negsuc n) h =
    let (c, (s, (e, (d, r)))) = digits_number (suc n) (negsuc-lt n h) in
    ap (λ t. parse_int (b'-' ∷ t)) e
    ∙ parse_int_minus c s d
    ∙ ap (λ m. in_range (negate m)) r
    ∙ is_int-in_range (negsuc n) h
