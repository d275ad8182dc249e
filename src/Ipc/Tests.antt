-- ===== src/Ipc/Tests.antt =====
-- Runs of microkernel/src/ipc.rs at concrete inputs, after the unit tests of that file.
use zero_os.Common.{
  ℕ, ◌≡◌, refl, true, false, List, [], ◌∷◌, ◌++◌, Option, none, some, replicate, arith,
  if◌then◌else◌,
}
use zero_os.Common.Result.{ok}
use zero_os.Ipc.Queue.{
  ProcessId, Message, Envelope, MessageQueue, empty_envelope, push, pop_for, take_at, find_for,
  compact, eligible,
}
use zero_os.Ipc.Queue.Ring.{IsQueue, contents, take_first, pushed, push-contents}
use zero_os.Ipc.Queue.Refines.{popped}
use zero_os.Ipc.Channel.{
  Channel, ChannelDesc, no_waiters, configure, ensure_access, ensure_groups, group_allows, send,
  receive, pop_waiter_for, take_waiter, is_waiting,
}
use zero_os.Ipc.Channel
use zero_os.Ipc.Channel.Wakeups.{IsAwake, sends, here, next, Reach-IsAwake}
use zero_os.Ipc.Channel.Access.{Owns, Allows, calls_authorised}
use zero_os.Ipc.Channel.Access
use zero_os.Ipc.Channel.Delivery.{addressed, receive-send, receive-keeps_others}
use zero_os.Ipc.Table
use zero_os.Ipc.Table.{create, claim, has_channel, with_channel}
use zero_os.Ipc.Table.Ids.{IdsDistinct, Acts}
use zero_os.Ipc.Table.Calls.{calls-Act}
use zero_os.Ipc.Table.Calls

abbrev hello : Message
hello = record { code = 42; payload = [] }

abbrev for_pid_from : ProcessId → ProcessId → Envelope
for_pid_from s t = record { sender = s; target = t; message = hello }

abbrev for_pid : ProcessId → Envelope
for_pid t = for_pid_from 11 t

abbrev idle_queue : MessageQueue
idle_queue = record { buf = replicate 16 empty_envelope; head = 14; tail = 14; len = 0 }

idle_queue-IsQueue : IsQueue idle_queue
idle_queue-IsQueue = record {
  sized = refl;
  in_ring = omega arith;
  tail_at = refl;
  fits = omega arith;
}

-- Two envelopes for different processes, on both sides of the end of the buffer.
abbrev wrapped : MessageQueue
wrapped = pushed (pushed (pushed idle_queue (for_pid 7)) (for_pid 8)) (for_pid 7)

wrapped-IsQueue : IsQueue wrapped
wrapped-IsQueue = record { sized = refl; in_ring = omega arith; tail_at = refl; fits = omega arith }

push-contents_example :
    (push wrapped (for_pid 9) 4 ≡ ok (pushed wrapped (for_pid 9)))
    × IsQueue (pushed wrapped (for_pid 9))
    × (contents (pushed wrapped (for_pid 9)) ≡ contents wrapped ++ for_pid 9 ∷ [])
push-contents_example =
    push-contents wrapped (for_pid 9) 4 wrapped-IsQueue (omega arith) (omega arith)

-- The envelope for 8 is taken from between the two for 7.
targeted_not_stolen : take_first 8 (contents wrapped) ≡ some (for_pid 8, for_pid 7 ∷ for_pid 7 ∷ [])
unfolding take_first eligible
targeted_not_stolen = refl

-- Process 8 waits on an open channel.
abbrev waiting : Channel
waiting = record {
  in_use = true;
  id = 0x2a1;
  capacity = 4;
  owner = none;
  tx_groups = 0;
  rx_groups = 0;
  queue = idle_queue;
  waiters = some 8 ∷ none ∷ none ∷ none ∷ [];
}

waiting-IsAwake : IsAwake waiting
unfolding is_waiting
waiting-IsAwake = record {
  ring = idle_queue-IsQueue;
  bounded = omega arith;
  capped = omega arith;
  distinct = (refl, tt);
  quiet = λ p n h. refl;
}

abbrev no_caps : ProcessId → ℕ
no_caps pid = 0

abbrev woken : Channel
woken = record waiting {
  queue = pushed idle_queue (for_pid 8);
  waiters = none ∷ none ∷ none ∷ none ∷ [];
}

sent : send no_caps 11 (some 8) hello waiting ≡ ok (some 8, woken)
unfolding send ensure_access ensure_groups group_allows push pop_waiter_for take_waiter
sent = refl

Reach-IsAwake_example : IsAwake woken
Reach-IsAwake_example =
    Reach-IsAwake no_caps waiting woken waiting-IsAwake
      (next here (sends 11 (some 8) hello (some 8) sent))

receive-send_example :
    (◌≡◌ {A = Option ProcessId} (some 8) (if is_waiting 8 waiting.waiters then some 8 else none))
    × ((f : Channel) × (receive no_caps 8 woken ≡ ok ((11, hello), f))
        × (contents f.queue ≡ contents waiting.queue))
receive-send_example =
    receive-send no_caps 11 8 hello waiting woken (some 8) waiting-IsAwake (omega arith) sent
      (unfold take_first in refl) (unfold ensure_access in refl) (unfold group_allows in refl)

abbrev stocked : Channel
stocked = record waiting { queue = wrapped; waiters = no_waiters }

stocked-IsAwake : IsAwake stocked
unfolding is_waiting
stocked-IsAwake = record {
  ring = wrapped-IsQueue;
  bounded = omega arith;
  capped = omega arith;
  distinct = tt;
  quiet = λ p n h. absurd (cc);
}

abbrev after_8 : Channel
after_8 = record stocked { queue = popped wrapped 1 }

received : receive no_caps 8 stocked ≡ ok ((11, hello), after_8)
unfolding receive ensure_access ensure_groups group_allows pop_for take_at find_for compact eligible
received = refl

receive-keeps_others_example :
    addressed 7 (contents after_8.queue) ≡ addressed 7 (contents stocked.queue)
receive-keeps_others_example =
    receive-keeps_others no_caps 8 7 stocked after_8 (11, hello) stocked-IsAwake (omega arith)
      (omega arith) received

-- Process 7 may send by a capability of the mask, on a channel of its own.
abbrev restricted : Channel
restricted = record waiting { owner = some 7; tx_groups = 0x30 }

abbrev network_caps : ProcessId → ℕ
network_caps pid = 0x10

abbrev after_send : Channel
after_send = record restricted {
  queue = pushed idle_queue (for_pid_from 7 8);
  waiters = no_waiters;
}

sent_restricted : send network_caps 7 (some 8) hello restricted ≡ ok (some 8, after_send)
unfolding send ensure_access ensure_groups group_allows push pop_waiter_for take_waiter
sent_restricted = refl

calls_authorised_example : Owns (some 7) 7 × Allows 0x30 0x10
calls_authorised_example =
    calls_authorised network_caps 7 restricted 0x30
      (Access.sends (some 8) hello (some 8, after_send) sent_restricted)

abbrev shelf : List Channel
shelf = waiting ∷ record stocked { in_use = false; id = 0 } ∷ []

abbrev desc : ChannelDesc
desc = record { id = 0x2a2; capacity = 99; tx_groups = 0; rx_groups = 0 }

shelf-IdsDistinct : IdsDistinct shelf
unfolding has_channel
shelf-IdsDistinct = (λ h. refl, (λ h. refl, tt))

abbrev shelf_after : List Channel
shelf_after = waiting ∷ configure (record stocked { in_use = false; id = 0 }) desc none ∷ []

created : create shelf desc none ≡ ok shelf_after
unfolding create has_channel claim
created = refl

abbrev shelf_sent : List Channel
shelf_sent = woken ∷ record stocked { in_use = false; id = 0 } ∷ []

sent_by_id : Table.send no_caps 11 (some 8) 0x2a1 hello shelf ≡ ok (some 8, shelf_sent)
unfolding Table.send with_channel Channel.send ensure_access ensure_groups group_allows push
    pop_waiter_for take_waiter
sent_by_id = refl

calls-Act_example : Acts 0x2a1 (Channel.send no_caps 11 (some 8) hello) shelf shelf_sent (some 8)
calls-Act_example =
    calls-Act no_caps 11 0x2a1 shelf shelf_sent (Option ProcessId)
      (Channel.send no_caps 11 (some 8) hello) (some 8) shelf-IdsDistinct
      (Calls.sends (some 8) hello (some 8) sent_by_id)
