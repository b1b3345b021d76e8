-- ===== src/Bridge/Samples.antt =====
-- Messages of davinci/caspar_bridge.py, and the theorems at them.
use davinci_agent.Prelude.{◌≡◌, refl, true, false, List, [], ◌∷◌, take, drop, arith}
use davinci_agent.Prelude.Value.{dict, end}
use davinci_agent.Bridge.Table.{find}
use davinci_agent.Bridge.Bytes.{Bytes, big_endian, pack, unpack}
use davinci_agent.Bridge.Stream.{Event, bytes_in, timed_out}
use davinci_agent.Bridge.Messages.{
  Client, Codec, parsed, op_response, on_message, alloc_id, register, dispatch_frame,
}
use davinci_agent.Bridge.Wire.{send, read_loop}
use davinci_agent.Bridge.Flow.{Reads, recvall-Reads}
use davinci_agent.Bridge.Frames.{finish}
use davinci_agent.Bridge.RoundTrip.{send-read_loop}
use davinci_agent.Bridge.Waiting.{client_of}

abbrev new_client : Client
new_client = record {
  connected = true;
  next_id = 1;
  pending = [];
  results = [];
  partials = [];
  has_handler = false;
  delivered = [];
}

-- a client that waits for the answer to call 7
abbrev waiting_client : Client
waiting_client = record new_client { next_id = 8; pending = (7, false) ∷ [] }

abbrev braces : Bytes
braces = 123 ∷ 125 ∷ []

abbrev small_codec : Codec
small_codec = record { loads = λ b. parsed (dict end); decode = λ b. "" }

abbrev sent : Bytes
sent = (send op_response 7 braces new_client).0

abbrev pieces : List Event
pieces = bytes_in (take 3 sent) ∷ timed_out false ∷ bytes_in (drop 3 sent) ∷ []

send-read_loop_example :
    read_loop small_codec 2 pieces waiting_client
    ≡ finish (on_message small_codec op_response 7 braces waiting_client)
unfolding send pack davinci_agent.Bridge.Bytes.big_endian davinci_agent.Bridge.Table.find
send-read_loop_example =
    send-read_loop small_codec 2 op_response 7 braces pieces new_client waiting_client refl refl tt
      refl (omega arith)

recvall-Reads_example :
    Reads 3 (bytes_in (1 ∷ 2 ∷ []) ∷ timed_out false ∷ bytes_in (3 ∷ 4 ∷ []) ∷ [])
recvall-Reads_example =
    recvall-Reads 3 (bytes_in (1 ∷ 2 ∷ []) ∷ timed_out false ∷ bytes_in (3 ∷ 4 ∷ []) ∷ []) tt
      (omega arith)

-- a call that has begun, and the body of the answer to it
abbrev begun : Client
begun = register (alloc_id new_client).0 (alloc_id new_client).1

abbrev answer_body : Bytes
answer_body = drop 4 (send op_response 1 braces new_client).0

abbrev answered_client : Client
answered_client = client_of (dispatch_frame small_codec answer_body begun)
