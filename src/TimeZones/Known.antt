-- ===== src/TimeZones/Known.antt =====
-- The time zones that validateParameter of camera_parameters_manager.cpp accepts, against those that
-- the tables have.
use ipc_with_cht.Prelude.{
  ℕ, zero, suc, ◌≤◌, ◌<◌, ◌≡◌, refl, Bool, true, false, ◌||◌, not, arith, inl, inr, ◌↔◌, ◌==◌, leb,
  if◌then◌else◌, Bool-cases,
}
use ipc_with_cht.Prelude.Bytes.{same_text}
use ipc_with_cht.Prelude.Text.{codes}
use ipc_with_cht.Prelude.Integers.{ℤ, pos, negsuc, print_int, is_int}
use ipc_with_cht.Camera.Initial.{validate_parameter}
use ipc_with_cht.Camera.Initial.Checked.{validate_parameter-timezone}
use ipc_with_cht.TimeZones.{is_valid_timezone_id}

-- A test that holds of every number below a bound.
all_below : ℕ → (ℕ → Bool) → Bool
all_below zero p = true
all_below (suc n) p = let rest = all_below n p in if p n then rest else false

all_below-true : (k : ℕ) (p : ℕ → Bool) (n : ℕ) → all_below k p ≡ true → n < k → p n ≡ true
unfolding all_below
all_below-true zero p n h l = absurd (omega arith)
all_below-true (suc k) p n h l = elim (Bool-cases (n == k)) [
  | inl e ↦ ground (arith, h, e)
  | inr e ↦ all_below-true k p n (ground (arith, h)) (ground (arith, e, l))
]

-- The ids that the tables have, as numbers.
abbrev is_known : ℕ → Bool
is_known n = leb n 24 || ((n == 50) || (n == 51))

abbrev agrees : ℕ → Bool
agrees n = if is_valid_timezone_id (print_int (pos n)) then is_known n else not (is_known n)

agrees_below : all_below 52 agrees ≡ true
unfolding all_below is_valid_timezone_id print_int same_text
agrees_below = refl

-- The numbers that have no zone although they are taken for one.
abbrev pub IsGap : ℤ → Type 0
IsGap (pos n) = (25 ≤ n) × (n ≤ 49)
IsGap (negsuc n) = ⊥

-- Of the numbers that an `int` holds, negative ones included, those that `validateParameter` accepts
-- as a time zone although the tables have no zone of that id are 25 to 49.
pub validate_parameter_unknown :
    (i : ℤ)
    → is_int i ≡ true
    → ((validate_parameter (codes "timezone") (print_int i) ≡ true)
        × (is_valid_timezone_id (print_int i) ≡ false))
      ↔ IsGap i
validate_parameter_unknown (negsuc n) h =
    let accepted = validate_parameter-timezone (negsuc n) h in
    (λ (v, u). accepted.0 v, λ e. elim e [ ])
validate_parameter_unknown (pos n) h =
    let accepted = validate_parameter-timezone (pos n) h in
    (
      λ (v, u).
          let l = accepted.0 v in
          let a = all_below-true 52 agrees n agrees_below (omega (arith, l)) in
          (ground (arith, a, u, l), ground (arith, a, u, l)),
      λ (lo, hi).
          let a = all_below-true 52 agrees n agrees_below (omega (arith, hi)) in
          (accepted.1 (omega (arith, hi)), ground (arith, a, lo, hi)),
    )
