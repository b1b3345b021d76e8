-- ===== src/Bridge/Stream.antt =====
-- `CasparBridgeClient._recvall` of davinci/caspar_bridge.py. What the reads of the socket give is a
-- list of events, which ends where the connection is lost.
use davinci_agent.Prelude.{
  ℕ, zero, suc, ◌-◌, Bool, Option, none, some, List, [], ◌∷◌, ◌++◌, length, take, drop, leb,
  if◌then◌else◌,
}
use davinci_agent.Bridge.Bytes.{Bytes}

-- `bytes_in []` is the end of the stream; `timed_out` says whether the client is being closed.
pub data Event : Type 0 where
  bytes_in : Bytes → Event
  timed_out : Bool → Event
  os_error : Event

-- the bytes that a read does not take stay for the next one
unfoldable pub put_back : Bytes → List Event → List Event
put_back [] es = es
put_back (d ∷ ds) es = bytes_in (d ∷ ds) ∷ es

abbrev prefixed : Bytes → Option Bytes × List Event → Option Bytes × List Event
prefixed chunk (none, es) = (none, es)
prefixed chunk (some more, es) = (some (chunk ++ more), es)

-- `_recvall` with `missing` bytes to come
unfoldable pub recvall : ℕ → List Event → Option Bytes × List Event
unfolding put_back
recvall zero es = (some [], es)
recvall (suc missing) [] = (none, [])
recvall (suc missing) (os_error ∷ es) = (none, es)
recvall (suc missing) (timed_out closing ∷ es) =
    let rest = recvall (suc missing) es in if closing then (none, es) else rest
recvall (suc missing) (bytes_in [] ∷ es) = (none, es)
recvall (suc missing) (bytes_in (d ∷ ds) ∷ es) =
    let rest = recvall (missing - length ds) es in
    if leb (length ds) missing
    then prefixed (d ∷ ds) rest
    else (some (take (suc missing) (d ∷ ds)), put_back (drop missing ds) es)
