-- ===== src/Icmp/Sping/Tests.antt =====
-- A reply to 263 that comes after one to 8.
use osnt_plus.Prelude.{ℕ, ◌+◌, ◌≡◌, refl, Bool, true, some, List, [], ◌∷◌, ◌++◌}
use osnt_plus.State.{RouterState, SpingQueueEntry}
use osnt_plus.Packet.{Packet, get8, get16}
use osnt_plus.Headers.{zeros}
use osnt_plus.Start.{zeroed}
use osnt_plus.Icmp.{process_icmp_packet}
use osnt_plus.Icmp.Sping.{is_reply, take_reply, timed_out, woken, wait_for_reply, cleanup_loop}
use osnt_plus.Icmp.Sping.Laws.{NoReply, wait_for_reply-process_icmp_packet}

abbrev reply : ℕ → ℕ → Packet
reply low high = zeros 38 ++ low ∷ high ∷ []

abbrev entry : ℕ → SpingQueueEntry
entry time = record { packet = reply 8 0; len = 40; arrival_time = time }

abbrev router : RouterState
router = record (zeroed []) { sping_queue = entry 90 ∷ [] }

abbrev output : Packet → List ℕ → Bool
output p iface = true

wait_runs :
    (wait_for_reply 8 (woken [] ∷ woken (entry 90 ∷ []) ∷ []) ≡ some (0, []))
    × (wait_for_reply 9 (woken (entry 90 ∷ []) ∷ timed_out (entry 90 ∷ []) ∷ [])
        ≡ some (1, entry 90 ∷ []))
    × (cleanup_loop (λ i. 100 + i) 0 (entry 70 ∷ entry 70 ∷ entry 90 ∷ [])
        ≡ entry 70 ∷ entry 90 ∷ [])
unfolding wait_for_reply take_reply is_reply get8 get16 cleanup_loop zeros
wait_runs = (refl, refl, refl)

none_for_263 : NoReply 263 router.sping_queue
unfolding is_reply get8 get16 zeros
none_for_263 = (refl, tt)

kind : get8 (reply 7 1) 34 ≡ 0
unfolding get8 zeros
kind = refl

id : get16 (reply 7 1) 38 ≡ 263
unfolding get8 get16 zeros
id = refl

wait_example :
    (rs' : RouterState) × (process_icmp_packet output 100 router (reply 7 1) ≡ some rs')
    × (wait_for_reply 263 (woken router.sping_queue ∷ woken rs'.sping_queue ∷ [])
        ≡ some (0, router.sping_queue))
wait_example =
    wait_for_reply-process_icmp_packet output 100 263 router (reply 7 1)
      (woken router.sping_queue ∷ []) [] kind id none_for_263 (none_for_263, tt)
