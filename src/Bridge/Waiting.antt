-- ===== src/Bridge/Waiting.antt =====
-- The waiting calls of `CasparBridgeClient` (davinci/caspar_bridge.py), whatever the threads do.
use davinci_agent.Prelude.{ℕ, ◌<◌, ◌≡◌, Bool, true, some}
use davinci_agent.Prelude.Value.{Value}
use davinci_agent.Bridge.Bytes.{Bytes}
use davinci_agent.Bridge.Table.{Table, find}
use davinci_agent.Bridge.Messages.{
  Client, Codec, Reading, reading, crashed, alloc_id, register, take_result, dispatch_frame,
}
use davinci_agent.Bridge.Wire.{wake}

-- the client after the handling of a frame, fine or not
abbrev pub client_of : Reading → Client
client_of (reading c) = c
client_of (crashed c) = c

-- One step of a thread. A call takes its number and registers it; no other thread is given that
-- number, so the two are one step.
pub data Step (codec : Codec) : Client → Client → Type 0 where
  number_taken : (c : Client) → Step codec c (alloc_id c).1
  call_begun : (c : Client) → Step codec c (register (alloc_id c).0 (alloc_id c).1)
  call_ended : (corr : ℕ) (c : Client) → Step codec c (take_result corr c).1
  frame_read : (body : Bytes) (c : Client) → Step codec c (client_of (dispatch_frame codec body c))
  reader_ended : (c : Client) → Step codec c (wake c)

pub data Steps (codec : Codec) : Client → Client → Type 0 where
  no_step : (c : Client) → Steps codec c c
  one_more : {a b c : Client} → Steps codec a b → Step codec b c → Steps codec a c

-- The waiting calls have numbers that were given, and whoever has a result has been woken.
pub record IsWaiting (c : Client) : Type 0 where
  pub numbered : (k : ℕ) (b : Bool) → find k c.pending ≡ some b → k < c.next_id
  pub woken : (k : ℕ) (v : Value) → find k c.results ≡ some v → find k c.pending ≡ some true
