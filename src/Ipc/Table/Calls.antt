-- ===== src/Ipc/Table/Calls.antt =====
-- The calls of the crate on the whole table of channels.
use zero_os.Common.{ℕ, ◌≡◌, refl, Option, List, arith}
use zero_os.Common.Result.{Result, ok, err, >>=-eq-ok}
use zero_os.Ipc.Queue.{ProcessId, Message, Envelope, MessageQueue, IpcError, empty}
use zero_os.Ipc.Channel.{
  Channel, enlist, is_waiting, add_waiter, ensure_access, ensure_groups, receive_or_enlist,
}
use zero_os.Ipc.Channel
use zero_os.Ipc.Channel.Wakeups.{send-inv, receive-inv}
use zero_os.Ipc.Table.{send, receive, receive_or_register_waiter, register_waiter}
use zero_os.Ipc.Table.Ids.{IdsDistinct, Acts, with_channel-Acts}

-- The name by which a channel is found is not touched by a call on it.
abbrev Keeps : Channel → Channel → Type 0
Keeps c d = (d.id ≡ c.id) × (d.in_use ≡ c.in_use)

module _ (caps : ProcessId → ℕ) (caller : ProcessId) where
  send-Keeps :
      (target : Option ProcessId) (msg : Message) (c d : Channel) (w : Option ProcessId)
      → Channel.send caps caller target msg c ≡ ok (w, d)
      → Keeps c d
  send-Keeps target msg c d w e =
      let (r, queued, woken, shape) = send-inv caps caller target msg c w d e in
      rw shape (refl, refl)

  receive-Keeps :
      (c d : Channel) (m : ProcessId × Message)
      → Channel.receive caps caller c ≡ ok (m, d)
      → Keeps c d
  receive-Keeps c d m e =
      let (env, r, taken, got, shape) = receive-inv caps caller c m d e in rw shape (refl, refl)

  enlist-Keeps : (c d : Channel) → enlist c caller ≡ ok d → Keeps c d
  unfolding Channel.enlist
  enlist-Keeps c d e = ground arith

  receive_or_enlist-Keeps :
      (c d : Channel) (popped : Result IpcError (Envelope × MessageQueue))
      (m : Option (ProcessId × Message))
      → receive_or_enlist caller c popped ≡ ok (m, d)
      → Keeps c d
  unfolding Channel.receive_or_enlist
  receive_or_enlist-Keeps c d (ok (env, r)) m e = ground arith
  receive_or_enlist-Keeps c d (err empty) m e =
      let (d', listed, e₁) = >>=-eq-ok (enlist c caller) _ e in
      let same : d' ≡ d = cc in rw (← same) (enlist-Keeps c d' listed)
  receive_or_enlist-Keeps c d (err other) m e = absurd (cc)

  blocking-Keeps :
      (c d : Channel) (m : Option (ProcessId × Message))
      → Channel.receive_or_register_waiter caps caller c ≡ ok (m, d)
      → Keeps c d
  unfolding Channel.receive_or_register_waiter
  blocking-Keeps c d m e =
      let (u, access, e₁) = >>=-eq-ok (ensure_access c.owner caller) _ e in
      let (v, groups, e₂) = >>=-eq-ok (ensure_groups caps c.rx_groups caller) _ e₁ in
      receive_or_enlist-Keeps c d _ m e₂

  register-Keeps :
      (c d : Channel) (u : Unit {0}) → Channel.register_waiter caps caller c ≡ ok (u, d) → Keeps c d
  unfolding Channel.register_waiter
  register-Keeps c d w e =
      let (u, access, e₁) = >>=-eq-ok (ensure_access c.owner caller) _ e in
      let (v, groups, e₂) = >>=-eq-ok (ensure_groups caps c.rx_groups caller) _ e₁ in
      let (d', listed, e₃) = >>=-eq-ok (enlist c caller) _ e₂ in
      let same : d' ≡ d = cc in rw (← same) (enlist-Keeps c d' listed)

  -- The successful calls by id, each with the operation on a channel that it stands for.
  pub data TableCall (chan : ℕ) (cs ds : List Channel)
      : (A : Type 0) → (Channel → Result IpcError (A × Channel)) → A → Type 1 where
    sends :
        (target : Option ProcessId) (msg : Message) (w : Option ProcessId)
        → send caps caller target chan msg cs ≡ ok (w, ds)
        → TableCall chan cs ds (Option ProcessId) (Channel.send caps caller target msg) w
    receives :
        (m : ProcessId × Message)
        → receive caps caller chan cs ≡ ok (m, ds)
        → TableCall chan cs ds (ProcessId × Message) (Channel.receive caps caller) m
    blocks :
        (m : Option (ProcessId × Message))
        → receive_or_register_waiter caps caller chan cs ≡ ok (m, ds)
        → TableCall chan cs ds
            (Option (ProcessId × Message))
            (Channel.receive_or_register_waiter caps caller)
            m
    registers :
        (u : Unit {0})
        → register_waiter caps caller chan cs ≡ ok (u, ds)
        → TableCall chan cs ds Unit (Channel.register_waiter caps caller) u

  -- A successful call by id acts on the one channel with that id as the channel's own operation
  -- says, every other id finds the channel that it found before, and no id comes to stand for two
  -- channels.
  pub calls-Act :
      (chan : ℕ) (cs ds : List Channel) (A : Type 0) (f : Channel → Result IpcError (A × Channel))
      (a : A)
      → IdsDistinct cs
      → TableCall chan cs ds A f a
      → Acts chan f cs ds a
  unfolding send receive receive_or_register_waiter register_waiter
  calls-Act chan cs ds A f a v (sends target msg w e) =
      with_channel-Acts chan _ cs ds w (send-Keeps target msg) e v
  calls-Act chan cs ds A f a v (receives m e) = with_channel-Acts chan _ cs ds m receive-Keeps e v
  calls-Act chan cs ds A f a v (blocks m e) = with_channel-Acts chan _ cs ds m blocking-Keeps e v
  calls-Act chan cs ds A f a v (registers u e) = with_channel-Acts chan _ cs ds u register-Keeps e v
