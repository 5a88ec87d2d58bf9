-- ===== src/Icmp/Sping.antt =====
-- The queue of echo replies of scone/or_sping.c: `wait_for_reply`, and a pass of
-- `sping_queue_cleanup_thread`.
pub mod Laws
mod Tests
use osnt_plus.Prelude.{
  ℕ, zero, suc, ◌+◌, Bool, true, false, Option, none, some, List, [], ◌∷◌, ltb, ◌==◌, if◌then◌else◌,
}
use osnt_plus.State.{SpingQueueEntry}
use osnt_plus.Packet.{get16}

-- The bytes behind the ICMP header
unfoldable pub is_reply : ℕ → SpingQueueEntry → Bool
is_reply id se = get16 se.packet 38 == id

-- The inner `while`: the queue without the first reply to `id`, or none where there is no such reply
unfoldable pub take_reply : ℕ → List SpingQueueEntry → Option (List SpingQueueEntry)
unfolding is_reply
take_reply id [] = none
take_reply id (se ∷ next) = elim (take_reply id next) [
  | none ↦ if is_reply id se then some next else none
  | some rest ↦ some (if is_reply id se then next else se ∷ rest)
]

-- How a call of `pthread_cond_timedwait` returns, with the queue as it is then
pub data Wake : Type 0 where
  timed_out : (queue : List SpingQueueEntry) → Wake
  woken : (queue : List SpingQueueEntry) → Wake

-- `wait_for_reply`: what it returns and the queue then; none where the wake-ups are counted out
unfoldable pub wait_for_reply : ℕ → List Wake → Option (ℕ × List SpingQueueEntry)
unfolding take_reply
wait_for_reply id [] = none
wait_for_reply id (timed_out queue ∷ wakes) = some (1, queue)
wait_for_reply id (woken queue ∷ wakes) = elim (take_reply id queue) [
  | none ↦ wait_for_reply id wakes
  | some rest ↦ some (0, rest)
]

-- The pass over the queue; `now i` is what the `i`-th call of `time` returns.
unfoldable pub cleanup_loop : (ℕ → ℕ) → ℕ → List SpingQueueEntry → List SpingQueueEntry
cleanup_loop now i [] = []
cleanup_loop now i (sqe ∷ next) =
    let rest = cleanup_loop now (i + 1) next in
    if ltb (sqe.arrival_time + 30) (now i) then rest else sqe ∷ rest
