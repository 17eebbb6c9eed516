-- ===== src/Camera/Runs/Ids.antt =====
-- The ids of the registered callbacks.
use ipc_with_cht.Prelude.{
  ℕ, suc, ◌≤◌, ◌<◌, ◌≡◌, ◌≢◌, sym, none, some, List, [], ◌∷◌, ◌++◌, arith, Bool-cases, inl, inr,
  subst, Option-cases, ◌⊎◌, ◌==◌,
}
use ipc_with_cht.Prelude.Bytes.{Bytes}
use ipc_with_cht.Camera.Store.{Callback, Store, erase_callback}

-- Ids that rise from `lo` on and stay below `hi`: each callback has an id of its own.
abbrev pub Rises : ℕ → List Callback → ℕ → Type 0
Rises lo [] hi = lo ≤ hi
Rises lo (c ∷ cs) hi = (lo ≤ Callback.id c) × Rises (suc (Callback.id c)) cs hi

-- The invariant of the callbacks.
unfoldable pub Registered : Store → Type 0
Registered s = Rises 1 (Store.callbacks s) (Store.next_id s)

pub Rises-append :
    (lo : ℕ) (cs : List Callback) (hi : ℕ) (k : Bytes)
    → Rises lo cs hi
    → Rises lo (cs ++ record { id = hi; key = k } ∷ []) (suc hi)
Rises-append lo [] hi k h = (h, omega arith)
Rises-append lo (c ∷ cs) hi k (h, r) = (h, Rises-append (suc (Callback.id c)) cs hi k r)

pub Rises-lower :
    (lo lo' : ℕ) (cs : List Callback) (hi : ℕ) → lo' ≤ lo → Rises lo cs hi → Rises lo' cs hi
Rises-lower lo lo' [] hi l h = omega arith
Rises-lower lo lo' (c ∷ cs) hi l (h, r) = (omega arith, r)

-- What is left when a callback is erased.
pub erase_callback-cases :
    (i : ℕ) (c : Callback) (cs ds : List Callback)
    → erase_callback i (c ∷ cs) ≡ some ds
    → ((Callback.id c ≡ i) × (ds ≡ cs))
      ⊎ ((Callback.id c ≢ i)
          × ((es : List Callback) × ((erase_callback i cs ≡ some es) × (ds ≡ c ∷ es))))
unfolding erase_callback
erase_callback-cases i c cs ds e = elim (Option-cases (erase_callback i cs)) [
  | inl h ↦ inl (ground arith, ground arith)
  | inr (es, h) ↦ elim (Bool-cases (Callback.id c == i)) [
    | inl b ↦ inl (ground arith, ground arith)
    | inr b ↦ inr (ground arith, (es, (h, ground arith)))
  ]
]

pub Rises-erase :
    (lo i : ℕ) (cs ds : List Callback) (hi : ℕ)
    → erase_callback i cs ≡ some ds
    → Rises lo cs hi
    → Rises lo ds hi
unfolding erase_callback
Rises-erase lo i [] ds hi e r = absurd (ground arith)
Rises-erase lo i (c ∷ cs) ds hi e (h, r) = elim (erase_callback-cases i c cs ds e) [
  | inl (q, d) ↦
      subst (λ t. Rises lo t hi) (sym d)
        (Rises-lower (suc (Callback.id c)) lo cs hi (omega arith) r)
  | inr (q, (es, (g, d))) ↦
      subst (λ t. Rises lo t hi) (sym d) (h, Rises-erase (suc (Callback.id c)) i cs es hi g r)
]

-- No callback of the list has the id.
abbrev pub Lacks : ℕ → List Callback → Type 0
Lacks i [] = Unit
Lacks i (c ∷ cs) = (Callback.id c ≢ i) × Lacks i cs

pub Lacks-append : (i : ℕ) (cs ds : List Callback) → Lacks i cs → Lacks i ds → Lacks i (cs ++ ds)
Lacks-append i [] ds h g = g
Lacks-append i (c ∷ cs) ds (h, hs) g = (h, Lacks-append i cs ds hs g)

-- Ids that rise lack all that is below them.
pub Rises-Lacks : (i lo : ℕ) (cs : List Callback) (hi : ℕ) → i < lo → Rises lo cs hi → Lacks i cs
Rises-Lacks i lo [] hi l r = tt
Rises-Lacks i lo (c ∷ cs) hi l (h, r) =
    (λ e. omega (arith, e), Rises-Lacks i (suc (Callback.id c)) cs hi (omega arith) r)

-- Erasing an id leaves none of it, and brings none back.
pub Lacks-erase :
    (i j : ℕ) (cs ds : List Callback) → erase_callback j cs ≡ some ds → Lacks i cs → Lacks i ds
unfolding erase_callback
Lacks-erase i j [] ds e r = absurd (ground arith)
Lacks-erase i j (c ∷ cs) ds e (h, r) = elim (erase_callback-cases j c cs ds e) [
  | inl (q, d) ↦ subst (Lacks i) (sym d) r
  | inr (q, (es, (g, d))) ↦ subst (Lacks i) (sym d) (h, Lacks-erase i j cs es g r)
]

pub Lacks-erase_self :
    (lo i : ℕ) (cs ds : List Callback) (hi : ℕ)
    → erase_callback i cs ≡ some ds
    → Rises lo cs hi
    → Lacks i ds
unfolding erase_callback
Lacks-erase_self lo i [] ds hi e r = absurd (ground arith)
Lacks-erase_self lo i (c ∷ cs) ds hi e (h, r) = elim (erase_callback-cases i c cs ds e) [
  | inl (q, d) ↦
      subst (Lacks i) (sym d) (Rises-Lacks i (suc (Callback.id c)) cs hi (omega (arith, q)) r)
  | inr (q, (es, (g, d))) ↦
      subst (Lacks i) (sym d) (q, Lacks-erase_self (suc (Callback.id c)) i cs es hi g r)
]

pub Lacks-erase_none : (i : ℕ) (cs : List Callback) → erase_callback i cs ≡ none → Lacks i cs
unfolding erase_callback
Lacks-erase_none i [] e = tt
Lacks-erase_none i (c ∷ cs) e = (ground arith, Lacks-erase_none i cs (ground arith))
