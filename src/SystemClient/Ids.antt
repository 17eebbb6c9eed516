-- ===== src/SystemClient/Ids.antt =====
-- The ids of requests: ipc_client_getMsgId, and the id that goes into the header.
use ipc_with_cht.Prelude.{ℕ, zero, suc, ◌+◌, ◌%◌, ◌^◌, ◌<◌, ◌≡◌, ◌≢◌, refl, arith}
use ipc_with_cht.SystemClient.{next_msg_id, wire_id}

-- The id of the n-th request, counted from 0, of a program that starts with the counter at 0.
unfoldable pub nth_id : ℕ → ℕ
unfolding next_msg_id
nth_id zero = next_msg_id 0
nth_id (suc n) = next_msg_id (nth_id n)

-- The n-th request of a program, counted from 0, has the id n mod 65535 + 1: the ids run through 1 to
-- 65535 and start again.
pub nth_id_closed : (n : ℕ) → nth_id n ≡ n % 65535 + 1
unfolding nth_id next_msg_id
nth_id_closed zero = refl
nth_id_closed (suc n) = ground (arith, nth_id_closed n)

-- Whatever the counter holds, the next id is a number of 16 bits other than 0.
pub next_msg_id-range : (g : ℕ) → (0 < next_msg_id g) × (next_msg_id g < 2 ^ 16)
unfolding next_msg_id
next_msg_id-range g = ground arith

-- Of 32767 requests in a row no two carry the same id in their headers.
pub wire_ids_distinct : (i j : ℕ) → i < j → j < i + 32767 → wire_id (nth_id i) ≢ wire_id (nth_id j)
unfolding wire_id
wire_ids_distinct i j h k e = omega (arith, nth_id_closed i, nth_id_closed j, h, k, e)

-- A request of the first half of the cycle and the one 32768 later carry the same id: the shift
-- drops the highest bit.
pub wire_ids_repeat :
    (i : ℕ) → i % 65535 < 32767 → wire_id (nth_id i) ≡ wire_id (nth_id (i + 32768))
unfolding wire_id
wire_ids_repeat i h = omega (arith, nth_id_closed i, nth_id_closed (i + 32768), h)
