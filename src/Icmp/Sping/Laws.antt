-- ===== src/Icmp/Sping/Laws.antt =====
-- Waiting for a reply.
use osnt_plus.Prelude.{
  ℕ, ◌≡◌, refl, Bool, true, false, none, some, List, [], ◌∷◌, ◌++◌, ==_iff, length, All,
}
use osnt_plus.State.{RouterState, SpingQueueEntry}
use osnt_plus.Packet.{Packet, get8, get16}
use osnt_plus.Icmp.{echo_reply, process_icmp_packet}
use osnt_plus.Icmp.Sping.{is_reply, take_reply, Wake, timed_out, woken, wait_for_reply}

-- No packet of the queue is a reply to `id`.
abbrev pub NoReply : ℕ → List SpingQueueEntry → Type 0
NoReply id queue = All (λ se. is_reply id se ≡ false) queue

-- The wake-ups are early and find no reply to `id`.
abbrev pub InVain : ℕ → List Wake → Type 0
InVain id [] = Unit
InVain id (timed_out queue ∷ wakes) = ⊥
InVain id (woken queue ∷ wakes) = NoReply id queue × InVain id wakes

take_reply-none :
    (id : ℕ) (queue : List SpingQueueEntry) → NoReply id queue → take_reply id queue ≡ none
unfolding take_reply
take_reply-none id [] h = refl
take_reply-none id (se ∷ next) h = rw (take_reply-none id next h.1, h.0) refl

take_reply-append :
    (id : ℕ) (queue : List SpingQueueEntry) (se : SpingQueueEntry)
    → NoReply id queue
    → is_reply id se ≡ true
    → take_reply id (queue ++ se ∷ []) ≡ some queue
unfolding take_reply
take_reply-append id [] se h reply = rw reply refl
take_reply-append id (e ∷ queue) se h reply = rw (take_reply-append id queue se h.1 reply, h.0) refl

wait_for_reply-woken :
    (id : ℕ) (earlier later : List Wake) (queue rest : List SpingQueueEntry)
    → InVain id earlier
    → take_reply id queue ≡ some rest
    → wait_for_reply id (earlier ++ woken queue ∷ later) ≡ some (0, rest)
unfolding wait_for_reply
wait_for_reply-woken id [] later queue rest h e = rw (wait_for_reply, e) refl
wait_for_reply-woken id (timed_out q ∷ earlier) later queue rest h e = absurd h
wait_for_reply-woken id (woken q ∷ earlier) later queue rest h e =
    rw (wait_for_reply, take_reply-none id q h.0)
      (wait_for_reply-woken id earlier later queue rest h.1 e)

-- Where the queue has no reply to an id, the handler of an echo reply with that id succeeds. Then
-- `wait_for_reply`, woken with the queue that the handler leaves, returns 0, whatever it found in
-- vain before, and the queue is the one before the reply.
pub wait_for_reply-process_icmp_packet :
    (output : Packet → List ℕ → Bool) (now id : ℕ) (rs : RouterState) (p : Packet)
    (earlier later : List Wake)
    → get8 p 34 ≡ echo_reply
    → get16 p 38 ≡ id
    → NoReply id rs.sping_queue
    → InVain id earlier
    → (rs' : RouterState) × (process_icmp_packet output now rs p ≡ some rs')
      × (wait_for_reply id (earlier ++ woken rs'.sping_queue ∷ later) ≡ some (0, rs.sping_queue))
unfolding process_icmp_packet is_reply
wait_for_reply-process_icmp_packet output now id rs p earlier later kind same none_yet in_vain =
    let se : SpingQueueEntry = record { packet = p; len = length p; arrival_time = now } in
    let rs' : RouterState = record rs { sping_queue = rs.sping_queue ++ se ∷ [] } in
    let reply : is_reply id se ≡ true = (==_iff (get16 p 38) id).1 same in
    (
      rs',
      rw (process_icmp_packet, kind) refl,
      wait_for_reply-woken id earlier later rs'.sping_queue rs.sping_queue in_vain
          (take_reply-append id rs.sping_queue se none_yet reply),
    )
