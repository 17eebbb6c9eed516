-- ===== src/P2pAgent/Exchange.antt =====
-- The callback of the service against the check of the client.
use ipc_with_cht.Prelude.{
  ℕ, ◌+◌, ◌%◌, ◌<◌, ◌≡◌, refl, sym, ap, ◌∙◌, Bool, true, false, Option, none, some, ◌++◌, arith,
  length, take, length-take, length-append, leb,
}
use ipc_with_cht.Prelude.Bytes.{Bytes, load}
use ipc_with_cht.Prelude.Memory.{
  length-store, length-store_num, load-store_num, load-store_num_before, load-store_num_after,
  load-take, load-append_left, load_past,
}
use ipc_with_cht.SystemClient.{hdr_size, read_hdr, make_hdr}
use ipc_with_cht.P2pAgent.{cht_fourcc, cht_command_number, cht_get_cam_status_by_id}
use ipc_with_cht.P2pAgent.Client.{
  status_req_size, status_rep_size, cht_judge, cht_judge_read, cht_judge_hdr,
}
use ipc_with_cht.P2pAgent.Service.{
  fill_status, filled, answer_status, answer_hdr, respond, handle, request_callback,
}

-- The header of a reply, field by field.
module _ (id : ℕ) (req : Bytes) (long : hdr_size < length req) where
  cut : length (take hdr_size req) ≡ hdr_size
  cut = omega (arith, length-take hdr_size req)

  length-answer_hdr : length (answer_hdr id req) ≡ hdr_size
  unfolding answer_hdr
  length-answer_hdr = simp (length-store_num, cut)

  fourcc-answer_hdr : load 0 4 (answer_hdr id req) ≡ load 0 4 req
  unfolding answer_hdr
  fourcc-answer_hdr =
      load-store_num_before 4 4 3 0 4 _ (omega arith)
      ∙ load-store_num_before 16 2 0 0 4 _ (omega arith)
      ∙ load-store_num_before 8 4 status_rep_size 0 4 _ (omega arith)
      ∙ load-store_num_before 12 2 (id % 2) 0 4 _ (omega arith)
      ∙ load-take 0 4 hdr_size req (omega arith) (omega (arith, long))

  numbers-answer_hdr : load 4 4 (answer_hdr id req) ≡ some 3
  unfolding answer_hdr
  numbers-answer_hdr =
      load-store_num 4 4 3 _ (simp (length-store_num, cut) (omega arith)) (omega arith)

  payload-answer_hdr : load 8 4 (answer_hdr id req) ≡ some status_rep_size
  unfolding answer_hdr
  payload-answer_hdr =
      load-store_num_after 4 4 3 8 4 _ (omega arith)
      ∙ load-store_num_before 16 2 0 8 4 _ (omega arith)
      ∙ load-store_num 8 4 status_rep_size _ (simp (length-store_num, cut) (omega arith))
          (omega arith)

  cmd_type-answer_hdr : load 14 2 (answer_hdr id req) ≡ load 14 2 req
  unfolding answer_hdr
  cmd_type-answer_hdr =
      load-store_num_after 4 4 3 14 2 _ (omega arith)
      ∙ load-store_num_before 16 2 0 14 2 _ (omega arith)
      ∙ load-store_num_after 8 4 status_rep_size 14 2 _ (omega arith)
      ∙ load-store_num_after 12 2 (id % 2) 14 2 _ (omega arith)
      ∙ load-take 14 2 hdr_size req (omega arith) (omega (arith, long))

  result-answer_hdr : load 16 2 (answer_hdr id req) ≡ some 0
  unfolding answer_hdr
  result-answer_hdr =
      load-store_num_after 4 4 3 16 2 _ (omega arith)
      ∙ load-store_num 16 2 0 _ (simp (length-store_num, cut) (omega arith)) (omega arith)

-- What stands behind a reply that was given.
handle-some :
    (granted : Bool) (req : Bytes) (rep : Option Bytes) (f id cmd size : Option ℕ) (r : Bytes)
    → handle granted req rep f id cmd size ≡ some (some r)
    → (i : ℕ) × ((b : Bytes) × ((f ≡ some cht_fourcc)
          × ((cmd ≡ some (cht_command_number cht_get_cam_status_by_id))
              × ((rep ≡ some b) × (r ≡ answer_hdr i req ++ b)))))
unfolding handle respond
handle-some granted req (some b) (some f) (some id) (some cmd) (some size) r h =
    (id, (b, (ground (arith, h), (ground (arith, h), (refl, ground (arith, h))))))
handle-some granted req none (some f) (some id) (some cmd) (some size) r h =
    absurd (ground (arith, h))
handle-some granted req rep none id cmd size r h = absurd (ground (arith, h))
handle-some granted req rep (some f) none cmd size r h = absurd (ground (arith, h))
handle-some granted req rep (some f) (some id) none size r h = absurd (ground (arith, h))
handle-some granted req rep (some f) (some id) (some cmd) none r h = absurd (ground (arith, h))

request_callback-some :
    (granted : Bool) (rep req r : Bytes)
    → request_callback granted rep req ≡ some (some r)
    → (hdr_size < length req)
      × (handle granted req
            (answer_status rep req)
            (load 0 4 req)
            (load 12 2 req)
            (load 14 2 req)
            (load 8 4 req)
          ≡ some (some r))
unfolding request_callback
request_callback-some granted rep req r h = (ground (arith, h), ground (arith, h))

-- A header with these fields, and anything behind it, is accepted.
cht_judge-accepts :
    (hdr b : Bytes)
    → length hdr ≡ hdr_size
    → load 0 4 hdr ≡ some cht_fourcc
    → load 4 4 hdr ≡ some 3
    → load 8 4 hdr ≡ some status_rep_size
    → load 14 2 hdr ≡ some (cht_command_number cht_get_cam_status_by_id)
    → load 16 2 hdr ≡ some 0
    → cht_judge true (some (hdr ++ b)) ≡ some 0
unfolding cht_judge cht_judge_read read_hdr make_hdr cht_judge_hdr
cht_judge-accepts hdr b n f k p c z =
    let f' = load-append_left 0 4 hdr b (omega (arith, n)) ∙ f in
    let k' = load-append_left 4 4 hdr b (omega (arith, n)) ∙ k in
    let p' = load-append_left 8 4 hdr b (omega (arith, n)) ∙ p in
    let c' = load-append_left 14 2 hdr b (omega (arith, n)) ∙ c in
    let z' = load-append_left 16 2 hdr b (omega (arith, n)) ∙ z in
    rw f' (rw k' (rw p' (rw c' (rw z' (ground (arith, length-append hdr b, n))))))

some-injective : (a b : Bytes) → Path (Option Bytes) (some a) (some b) → a ≡ b
some-injective a b h = ground (arith, h)

length-fill_status :
    (tenant net : Bytes) (sid : ℕ) (cam rep : Bytes)
    → length (fill_status tenant net sid cam rep) ≡ length rep
unfolding fill_status
length-fill_status tenant net sid cam rep = simp (length-store, length-store_num)

length-filled :
    (t n : Option Bytes) (i : Option ℕ) (c : Option Bytes) (rep b : Bytes)
    → filled t n i c rep ≡ some b
    → length b ≡ length rep
length-filled (some t) (some n) (some i) (some c) rep b h =
    ap length (sym (some-injective (fill_status t n i c rep) b h)) ∙ length-fill_status t n i c rep
length-filled none n i c rep b h = absurd (ground (arith, h))
length-filled (some t) none i c rep b h = absurd (ground (arith, h))
length-filled (some t) (some n) none c rep b h = absurd (ground (arith, h))
length-filled (some t) (some n) (some i) none rep b h = absurd (ground (arith, h))

length-answer_status : (rep req b : Bytes) → answer_status rep req ≡ some b → length b ≡ length rep
unfolding answer_status
length-answer_status rep req b h = length-filled _ _ _ _ rep b h

-- Whatever request the service answers, its reply has a header and a record of 3100 bytes, if that
-- is the size of the record in memory, and the client accepts it.
pub request_callback_accepted :
    (granted : Bool) (rep req r : Bytes)
    → length rep ≡ status_rep_size
    → request_callback granted rep req ≡ some (some r)
    → (length r ≡ hdr_size + status_rep_size) × (cht_judge true (some r) ≡ some 0)
request_callback_accepted granted rep req r room h =
    let (long, g) = request_callback-some granted rep req r h in
    let (i, (b, (f, (c, (a, e))))) =
      handle-some granted req (answer_status rep req) (load 0 4 req) (load 12 2 req) (load 14 2 req)
        (load 8 4 req) r g in
    let n = length-answer_hdr i req long in
    (
      ap length e
          ∙ length-append (answer_hdr i req) b
          ∙ omega (arith, n, length-answer_status rep req b a, room),
      ap (λ t. cht_judge true (some t)) e
          ∙ cht_judge-accepts (answer_hdr i req) b n (fourcc-answer_hdr i req long ∙ f)
              (numbers-answer_hdr i req long) (payload-answer_hdr i req long)
              (cmd_type-answer_hdr i req long ∙ c) (result-answer_hdr i req long),
    )

filled_no_number :
    (t n c : Option Bytes) (o : Option ℕ) (rep : Bytes) → o ≡ none → filled t n o c rep ≡ none
filled_no_number none n c o rep h = refl
filled_no_number (some t) none c o rep h = refl
filled_no_number (some t) (some n) c none rep h = refl
filled_no_number (some t) (some n) c (some i) rep h = absurd (ground (arith, h))

answer_status_past : (rep req : Bytes) → length req < hdr_size + 516 → answer_status rep req ≡ none
unfolding answer_status
answer_status_past rep req short =
    filled_no_number _ _ _ (load (hdr_size + 512) 4 req) rep
      (load_past (hdr_size + 512) 3 req short)

not_leb : (a b : ℕ) → b < a → leb a b ≡ false
not_leb a b h = ground (arith, h)

handle_past :
    (granted : Bool) (req : Bytes) (id : ℕ)
    → handle granted req none
        (some cht_fourcc)
        (some id)
        (some (cht_command_number cht_get_cam_status_by_id))
        (some status_req_size)
      ≡ none
unfolding handle respond cht_command_number
handle_past granted req id = refl

-- A request with the header of a whole one whose bytes end in front of its number: the service reads
-- behind them.
request_callback_reads_past :
    (granted : Bool) (rep req : Bytes) (id : ℕ)
    → hdr_size < length req
    → length req < hdr_size + 516
    → load 0 4 req ≡ some cht_fourcc
    → load 12 2 req ≡ some id
    → load 14 2 req ≡ some (cht_command_number cht_get_cam_status_by_id)
    → load 8 4 req ≡ some status_req_size
    → request_callback granted rep req ≡ none
unfolding request_callback
request_callback_reads_past granted rep req id long short f i c p =
    let a = answer_status_past rep req short in
    rw (not_leb (length req) hdr_size long)
      (rw a (rw f (rw i (rw c (rw p (handle_past granted req id))))))
