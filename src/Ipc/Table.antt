-- ===== src/Ipc/Table.antt =====
-- `ChannelTable` of microkernel/src/ipc.rs: a fixed array of channels, found by their id.
-- Each call of the crate holds the table's lock from beginning to end, so a call is one step. A
-- failed call leaves the table as it was, so the error case carries no table.
pub mod Ids
pub mod Calls
use zero_os.Common.{
  ℕ, Bool, true, false, ◌&&◌, List, [], ◌∷◌, Option, none, some, ◌==◌, if◌then◌else◌, replicate,
  map, Option-cases,
}
use zero_os.Common.Result.{Result, ok, err, ◌>>=◌}
use zero_os.Ipc.Queue.{ProcessId, Message, IpcError, channel_busy, invalid}
use zero_os.Ipc.Channel.{Channel, ChannelDesc}
use zero_os.Ipc.Channel

abbrev pub max_channels : ℕ
max_channels = 32

-- `c.in_use && c.id == chan`
abbrev pub is_channel : ℕ → Channel → Bool
is_channel chan c = c.in_use && c.id == chan

pub new : List Channel
new = replicate max_channels Channel.new

pub reset : List Channel → List Channel
reset cs = map Channel.reset cs

-- `channels.iter().any(|c| c.in_use && c.id == chan)`
unfoldable pub has_channel : ℕ → List Channel → Bool
has_channel chan [] = false
has_channel chan (c ∷ cs) = if is_channel chan c then true else has_channel chan cs

-- The first channel that is not in use is configured.
unfoldable pub claim :
    ChannelDesc → Option ProcessId → List Channel → Result IpcError (List Channel)
claim desc owner [] = err channel_busy
claim desc owner (c ∷ cs) =
    let rest = claim desc owner cs in
    if c.in_use then (do cs' ← rest; ok (c ∷ cs')) else ok (Channel.configure c desc owner ∷ cs)

unfoldable pub create :
    List Channel → ChannelDesc → Option ProcessId → Result IpcError (List Channel)
create cs desc owner = if has_channel desc.id cs then err invalid else claim desc owner cs

-- `find(|c| c.in_use && c.id == chan).ok_or(Invalid)?`, then `f` on the channel in its place.
unfoldable pub with_channel :
    {A : Type 0}
    → ℕ
    → (Channel → Result IpcError (A × Channel))
    → List Channel
    → Result IpcError (A × List Channel)
with_channel chan f [] = err invalid
with_channel chan f (c ∷ cs) =
    let rest = with_channel chan f cs in
    if is_channel chan c then (do r ← f c; ok (r.0, r.1 ∷ cs)) else (do r ← rest; ok (r.0, c ∷ r.1))

module _ (effective_caps : ProcessId → ℕ) where
  unfoldable pub send :
      ProcessId
      → Option ProcessId
      → ℕ
      → Message
      → List Channel
      → Result IpcError (Option ProcessId × List Channel)
  send caller target chan msg = with_channel chan (Channel.send effective_caps caller target msg)

  pub receive :
      ProcessId → ℕ → List Channel → Result IpcError ((ProcessId × Message) × List Channel)
  receive caller chan = with_channel chan (Channel.receive effective_caps caller)

  pub receive_or_register_waiter :
      ProcessId → ℕ → List Channel → Result IpcError (Option (ProcessId × Message) × List Channel)
  receive_or_register_waiter caller chan =
      with_channel chan (Channel.receive_or_register_waiter effective_caps caller)

  pub register_waiter : ProcessId → ℕ → List Channel → Result IpcError (Unit {0} × List Channel)
  register_waiter caller chan = with_channel chan (Channel.register_waiter effective_caps caller)

-- A missing channel is no error here.
pub unregister_waiter : ProcessId → ℕ → List Channel → List Channel
unregister_waiter caller chan [] = []
unregister_waiter caller chan (c ∷ cs) =
    if is_channel chan c
    then Channel.unregister_waiter caller c ∷ cs
    else c ∷ unregister_waiter caller chan cs
