-- ===== src/Camera/Runs/Mirror.antt =====
-- A client that keeps a copy of the parameters by what its callback is told.
use ipc_with_cht.Prelude.{
  ℕ, suc, ◌≤◌, ◌≡◌, refl, sym, ap, Bool, true, false, Option, none, some, List, [], ◌∷◌, ◌++◌,
  arith, inl, inr, ◌⊎◌, ◌==◌, subst, Bool-cases, if◌then◌else◌, is_empty, ◌||◌,
}
use ipc_with_cht.Prelude.Bytes.{Bytes, same_text, same_text_iff}
use ipc_with_cht.Prelude.Text.{codes}
use ipc_with_cht.Prelude.Dict.{Dict, lookup, insert}
use ipc_with_cht.Camera.Store.{
  Callback, Store, Notice, Step, set_parameter, set_ntp_server, notified, notify_parameter_changed,
  write, wants, differs,
}
use ipc_with_cht.Camera.Store.Values.{lookup-insert}
use ipc_with_cht.Camera.Runs.{
  Call, set, set_ntp, remove, register, unregister, add_face, remove_face, update_face,
  update_faces, name_camera, call, run,
}
use ipc_with_cht.Camera.Runs.Ids.{Rises, Registered, Rises-Lacks}
use ipc_with_cht.Camera.Runs.Told.{
  NotTold, NotTold-notified, Tells, set_parameter-Tells, set_ntp_server-Tells,
}
use ipc_with_cht.Camera.Runs.Registration.{Tells-Registered}

-- The copy of the client with this id: it stores each pair that it is told of.
unfoldable pub mirror : ℕ → List Notice → Dict Bytes → Dict Bytes
mirror i [] d = d
mirror i (n ∷ ns) d =
    if Notice.to n == i
    then mirror i ns (insert (Notice.key n) (Notice.value n) d)
    else mirror i ns d

mirror-append :
    (i : ℕ) (ns ms : List Notice) (d : Dict Bytes)
    → mirror i (ns ++ ms) d ≡ mirror i ms (mirror i ns d)
unfolding mirror
mirror-append i [] ms d = refl
mirror-append i (n ∷ ns) ms d = elim (Bool-cases (Notice.to n == i)) [
  | inl h ↦ ground (arith, mirror-append i ns ms (insert (Notice.key n) (Notice.value n) d))
  | inr h ↦ ground (arith, mirror-append i ns ms d)
]

mirror-NotTold : (i : ℕ) (ns : List Notice) (d : Dict Bytes) → NotTold i ns → mirror i ns d ≡ d
unfolding mirror
mirror-NotTold i [] d h = refl
mirror-NotTold i (n ∷ ns) d (h, hs) = ground (arith, h, mirror-NotTold i ns d hs)

-- A callback for every parameter is registered under the id.
abbrev pub Listens : ℕ → List Callback → Type 0
Listens i [] = ⊥
Listens i (c ∷ cs) = ((Callback.id c ≡ i) × (Callback.key c ≡ [])) ⊎ Listens i cs

Listens-above : (i lo : ℕ) (cs : List Callback) (hi : ℕ) → Rises lo cs hi → Listens i cs → lo ≤ i
Listens-above i lo [] hi r l = elim l [ ]
Listens-above i lo (c ∷ cs) hi (h, r) l = elim l [
  | inl (e, k) ↦ omega (arith, e)
  | inr l' ↦ let b = Listens-above i (suc (Callback.id c)) cs hi r l' in omega (arith, b)
]

mirror-notified :
    (i lo : ℕ) (k v : Bytes) (cs : List Callback) (hi : ℕ) (d : Dict Bytes)
    → Rises lo cs hi
    → Listens i cs
    → mirror i (notified k v cs) d ≡ insert k v d
unfolding mirror notified
mirror-notified i lo k v [] hi d r l = elim l [ ]
mirror-notified i lo k v (c ∷ cs) hi d (h, r) l = elim l [
  | inl (e, q) ↦
      let quiet = mirror-NotTold i (notified k v cs) (insert k v d) (
        NotTold-notified i k v cs
          (Rises-Lacks i (suc (Callback.id c)) cs hi (omega (arith, e)) r)) in
      let w : wants k c ≡ true = ap (λ t. is_empty t || same_text t k) q in
      ground (arith, e, w, quiet)
  | inr l' ↦
      let b = Listens-above i (suc (Callback.id c)) cs hi r l' in
      let ih = mirror-notified i (suc (Callback.id c)) k v cs hi d r l' in ground (arith, b, ih)
]

-- The two dictionaries have the same entries.
abbrev pub Agrees : Dict Bytes → Dict Bytes → Type 0
Agrees d e = (j : Bytes) → lookup j d ≡ lookup j e

Agrees-insert : (k v : Bytes) (d e : Dict Bytes) → Agrees d e → Agrees (insert k v d) (insert k v e)
Agrees-insert k v d e a j =
    let at_j = a j in ground (arith, lookup-insert k j v d, lookup-insert k j v e, at_j)

-- Writing what stands there already changes nothing.
Agrees-same :
    (k v : Bytes) (d e : Dict Bytes) → Agrees d e → lookup k e ≡ some v → Agrees d (insert k v e)
Agrees-same k v d e a h j =
    let at_j = a j in ground (arith, lookup-insert k j v e, same_text_iff k j, at_j, h)

-- The calls that write parameters.
unfoldable pub writes : List Call → Bool
writes [] = true
writes (set now k v ∷ cs) = writes cs
writes (set_ntp now v ∷ cs) = writes cs
writes (c ∷ cs) = false

-- The client with the id listens to a manager, and its copy has the manager's parameters.
abbrev pub Mirrors : ℕ → Dict Bytes → Store → Type 0
Mirrors i d s = Registered s × (Listens i (Store.callbacks s) × Agrees d (Store.parameters s))

differs-false : (v : Bytes) (o : Option Bytes) → differs o v ≡ false → o ≡ some v
differs-false v none h = absurd (ground arith)
differs-false v (some w) h = ground (arith, same_text_iff w v)

module _ (i : ℕ) (d : Dict Bytes) (s : Store) (m : Mirrors i d s) where
  notified-Agrees :
      (k v : Bytes)
      → Agrees (mirror i (notified k v (Store.callbacks s)) d) (insert k v (Store.parameters s))
  unfolding Registered
  notified-Agrees k v =
      subst (λ e. Agrees e (insert k v (Store.parameters s)))
        (sym (mirror-notified i 1 k v (Store.callbacks s) (Store.next_id s) d m.0 m.1.0))
        (Agrees-insert k v d (Store.parameters s) m.1.1)

  set_ntp_server-Mirrors :
      (now : ℕ) (v : Bytes)
      → Agrees (mirror i (set_ntp_server now v s).1 d) (Store.parameters (set_ntp_server now v s).0)
  unfolding set_ntp_server write notify_parameter_changed
  set_ntp_server-Mirrors now v = notified-Agrees (codes "ntpServer") v

  set_parameter-Mirrors :
      (now : ℕ) (k v : Bytes)
      → Agrees
          (mirror i (set_parameter now k v s).1 d)
          (Store.parameters (set_parameter now k v s).0)
  unfolding set_parameter write notify_parameter_changed mirror
  set_parameter-Mirrors now k v =
      let follows : Bool → Type 0 = λ b.
        let t : Step =
          if b
          then (write now k v s, notified k v (Store.callbacks s))
          else (write now k v s, []) in
        Agrees (mirror i t.1 d) (Store.parameters t.0) in
      elim (Bool-cases (differs (lookup k (Store.parameters s)) v)) [
        | inl h ↦ subst follows (sym h) (notified-Agrees k v)
        | inr h ↦ subst follows (sym h) (
            Agrees-same k v d (Store.parameters s) m.1.1
              (differs-false v (lookup k (Store.parameters s)) h))
      ]

-- A step that writes one parameter keeps the callbacks, so the client goes on listening.
Tells-Mirrors :
    (i : ℕ) (d : Dict Bytes) (s : Store) (t : Step)
    → Tells s t
    → Mirrors i d s
    → Agrees (mirror i t.1 d) (Store.parameters t.0)
    → Mirrors i (mirror i t.1 d) t.0
Tells-Mirrors i d s t told (r, (l, a)) b =
    (Tells-Registered s t told r, (subst (Listens i) (sym told.0) l, b))

-- A client with a callback for every parameter, whose copy has the manager's parameters, has them
-- after any number of writes by `setParameter` and `setNtpServer`: it is told all that changes.
pub run-Mirrors :
    (i : ℕ) (cs : List Call) (d : Dict Bytes) (s : Store)
    → writes cs ≡ true
    → Mirrors i d s
    → Mirrors i (mirror i (run cs s).1 d) (run cs s).0
unfolding run call writes mirror
run-Mirrors i [] d s w m = m
run-Mirrors i (set now k v ∷ cs) d s w m =
    let t = set_parameter now k v s in
    let m' =
      Tells-Mirrors i d s t (set_parameter-Tells now k v s) m
        (set_parameter-Mirrors i d s m now k v) in
    subst (λ e. Mirrors i e (run cs t.0).0) (sym (mirror-append i t.1 (run cs t.0).1 d))
      (run-Mirrors i cs (mirror i t.1 d) t.0 w m')
run-Mirrors i (set_ntp now v ∷ cs) d s w m =
    let t = set_ntp_server now v s in
    let m' =
      Tells-Mirrors i d s t (set_ntp_server-Tells now v s) m
        (set_ntp_server-Mirrors i d s m now v) in
    subst (λ e. Mirrors i e (run cs t.0).0) (sym (mirror-append i t.1 (run cs t.0).1 d))
      (run-Mirrors i cs (mirror i t.1 d) t.0 w m')
run-Mirrors i (remove k ∷ cs) d s w m = absurd (ground arith)
run-Mirrors i (register k ∷ cs) d s w m = absurd (ground arith)
run-Mirrors i (unregister j ∷ cs) d s w m = absurd (ground arith)
run-Mirrors i (add_face f ∷ cs) d s w m = absurd (ground arith)
run-Mirrors i (remove_face j ∷ cs) d s w m = absurd (ground arith)
run-Mirrors i (update_face j f ∷ cs) d s w m = absurd (ground arith)
run-Mirrors i (update_faces p q t ∷ cs) d s w m = absurd (ground arith)
run-Mirrors i (name_camera mac ∷ cs) d s w m = absurd (ground arith)
