-- ===== src/Camera/Features/FileNames/Safety.antt =====
-- What `sanitize` makes of a text is safe in a path.
use ipc_with_cht.Prelude.{ℕ, ◌≡◌, refl, ap, ◌∙◌, true, false, [], ◌∷◌, arith, is_empty}
use ipc_with_cht.Prelude.Bytes.{Bytes}
use ipc_with_cht.Camera.Features.FileNames.{
  slashes, double_dots, first_dot, last_dot, or_unnamed, sanitize, has_slash, starts_with_dot,
  has_double_dot, ends_with_dot, Safe,
}

has_slash-slashes : (s : Bytes) → has_slash (slashes s) ≡ false
unfolding has_slash slashes
has_slash-slashes [] = refl
has_slash-slashes (c ∷ s) = ground (arith, has_slash-slashes s)

has_slash-double_dots : (s : Bytes) → has_slash s ≡ false → has_slash (double_dots s) ≡ false
unfolding has_slash double_dots
has_slash-double_dots [] h = refl
has_slash-double_dots (c ∷ []) h = h
has_slash-double_dots (c ∷ d ∷ s) h =
    ground (arith, h, has_slash-double_dots s, has_slash-double_dots (d ∷ s))

starts_with_dot-double_dots :
    (d : ℕ) (s : Bytes) → starts_with_dot (double_dots (d ∷ s)) ≡ true → d ≡ b'.'
unfolding double_dots
starts_with_dot-double_dots d [] h = ground arith
starts_with_dot-double_dots d (c ∷ s) h = ground arith

has_double_dot-double_dots : (s : Bytes) → has_double_dot (double_dots s) ≡ false
unfolding has_double_dot double_dots
has_double_dot-double_dots [] = refl
has_double_dot-double_dots (c ∷ []) = ground arith
has_double_dot-double_dots (c ∷ d ∷ s) = ground (
  arith,
  has_double_dot-double_dots s,
  has_double_dot-double_dots (d ∷ s),
  starts_with_dot-double_dots d s,
)

has_slash-first_dot : (s : Bytes) → has_slash s ≡ false → has_slash (first_dot s) ≡ false
unfolding has_slash first_dot
has_slash-first_dot [] h = refl
has_slash-first_dot (c ∷ s) h = ground (arith, h)

has_double_dot-first_dot :
    (s : Bytes) → has_double_dot s ≡ false → has_double_dot (first_dot s) ≡ false
unfolding has_double_dot first_dot
has_double_dot-first_dot [] h = refl
has_double_dot-first_dot (c ∷ s) h = ground (arith, h)

starts_with_dot-first_dot : (s : Bytes) → starts_with_dot (first_dot s) ≡ false
unfolding first_dot
starts_with_dot-first_dot [] = refl
starts_with_dot-first_dot (c ∷ s) = ground arith

has_slash-last_dot : (s : Bytes) → has_slash s ≡ false → has_slash (last_dot s) ≡ false
unfolding has_slash last_dot
has_slash-last_dot [] h = refl
has_slash-last_dot (c ∷ []) h = ground (arith, h)
has_slash-last_dot (c ∷ d ∷ s) h = ground (arith, h, has_slash-last_dot (d ∷ s))

starts_with_dot-last_dot :
    (s : Bytes) → starts_with_dot s ≡ false → starts_with_dot (last_dot s) ≡ false
unfolding last_dot
starts_with_dot-last_dot [] h = refl
starts_with_dot-last_dot (c ∷ []) h = ground (arith, h)
starts_with_dot-last_dot (c ∷ d ∷ s) h = h

has_double_dot-last_dot :
    (s : Bytes) → has_double_dot s ≡ false → has_double_dot (last_dot s) ≡ false
unfolding has_double_dot last_dot
has_double_dot-last_dot [] h = refl
has_double_dot-last_dot (c ∷ []) h = ground (arith, h)
has_double_dot-last_dot (c ∷ d ∷ s) h =
    ground (arith, h, has_double_dot-last_dot (d ∷ s), starts_with_dot-last_dot (d ∷ s))

ends_with_dot-last_dot : (s : Bytes) → ends_with_dot (last_dot s) ≡ false
unfolding ends_with_dot last_dot
ends_with_dot-last_dot [] = refl
ends_with_dot-last_dot (c ∷ []) = ground arith
ends_with_dot-last_dot (c ∷ d ∷ []) = ends_with_dot-last_dot (d ∷ [])
ends_with_dot-last_dot (c ∷ d ∷ e ∷ s) = ends_with_dot-last_dot (d ∷ e ∷ s)

or_unnamed-Safe :
    (s : Bytes)
    → has_slash s ≡ false
    → has_double_dot s ≡ false
    → starts_with_dot s ≡ false
    → ends_with_dot s ≡ false
    → Safe (or_unnamed s)
unfolding Safe has_slash has_double_dot ends_with_dot
or_unnamed-Safe [] a b c d = (refl, (refl, (refl, (refl, refl))))
or_unnamed-Safe (x ∷ s) a b c d = (a, (b, (c, (d, refl))))

-- Whatever the text, what `sanitize` makes of it is safe in a path.
pub sanitize-Safe : (s : Bytes) → Safe (sanitize s)
unfolding sanitize
sanitize-Safe s =
    let t = double_dots (slashes s) in
    let no_slash =
      has_slash-first_dot t (has_slash-double_dots (slashes s) (has_slash-slashes s)) in
    let no_dots = has_double_dot-first_dot t (has_double_dot-double_dots (slashes s)) in
    or_unnamed-Safe (last_dot (first_dot t)) (has_slash-last_dot (first_dot t) no_slash)
      (has_double_dot-last_dot (first_dot t) no_dots)
      (starts_with_dot-last_dot (first_dot t) (starts_with_dot-first_dot t))
      (ends_with_dot-last_dot (first_dot t))

slashes-fixed : (s : Bytes) → has_slash s ≡ false → slashes s ≡ s
unfolding has_slash slashes
slashes-fixed [] h = refl
slashes-fixed (c ∷ s) h = ground (arith, h, slashes-fixed s)

double_dots-fixed : (s : Bytes) → has_double_dot s ≡ false → double_dots s ≡ s
unfolding has_double_dot double_dots
double_dots-fixed [] h = refl
double_dots-fixed (c ∷ []) h = refl
double_dots-fixed (c ∷ d ∷ s) h = ground (arith, h, double_dots-fixed (d ∷ s))

first_dot-fixed : (s : Bytes) → starts_with_dot s ≡ false → first_dot s ≡ s
unfolding first_dot
first_dot-fixed [] h = refl
first_dot-fixed (c ∷ s) h = ground (arith, h)

last_dot-fixed : (s : Bytes) → ends_with_dot s ≡ false → last_dot s ≡ s
unfolding last_dot ends_with_dot
last_dot-fixed [] h = refl
last_dot-fixed (c ∷ []) h = ground (arith, h)
last_dot-fixed (c ∷ d ∷ s) h = ap (◌∷◌ c) (last_dot-fixed (d ∷ s) h)

or_unnamed-fixed : (s : Bytes) → is_empty s ≡ false → or_unnamed s ≡ s
or_unnamed-fixed [] h = absurd (ground arith)
or_unnamed-fixed (c ∷ s) h = refl

-- A text that is safe already is left as it is, so that sanitizing twice is sanitizing once.
sanitize-fixed : (s : Bytes) → Safe s → sanitize s ≡ s
unfolding sanitize Safe
sanitize-fixed s (a, (b, (c, (d, e)))) =
    ap (λ t. or_unnamed (last_dot (first_dot (double_dots t)))) (slashes-fixed s a)
    ∙ ap (λ t. or_unnamed (last_dot (first_dot t))) (double_dots-fixed s b)
    ∙ ap (λ t. or_unnamed (last_dot t)) (first_dot-fixed s c)
    ∙ ap or_unnamed (last_dot-fixed s d)
    ∙ or_unnamed-fixed s e
