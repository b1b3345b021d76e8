-- ===== src/Bridge/Wire.antt =====
-- `CasparBridgeClient._send` and `_read_loop` of davinci/caspar_bridge.py.
use davinci_agent.Prelude.{
  ℕ, zero, suc, ◌+◌, ◌-◌, ◌*◌, ◌/◌, max, String, Bool, true, false, ◌||◌, Option, none, some, List,
  [], ◌∷◌, ◌++◌, length, take, drop, ltb, eqb, map, if◌then◌else◌,
}
use davinci_agent.Prelude.Value.{Value, null}
use davinci_agent.Bridge.Bytes.{Bytes, read_number, pack}
use davinci_agent.Bridge.Table.{Table, find, store}
use davinci_agent.Bridge.Stream.{Event, recvall}
use davinci_agent.Bridge.Messages.{
  Client, Codec, Reading, reading, crashed, header, alloc_id, dispatch_frame,
}

abbrev pub max_chunk : ℕ
max_chunk = 64 * 1024

abbrev pub max_frame : ℕ
max_frame = 32 * 1024 * 1024

-- payload[seq * MAX_CHUNK:(seq + 1) * MAX_CHUNK]
abbrev pub chunk_at : ℕ → Bytes → Bytes
chunk_at seq payload = take max_chunk (drop (seq * max_chunk) payload)

abbrev pub chunk_total : Bytes → ℕ
chunk_total payload = max 1 ((length payload + max_chunk - 1) / max_chunk)

-- a frame; `none` is a `struct.error`
unfoldable pub frame : List ℕ → Bytes → Option Bytes
frame fields chunk = elim (pack header fields) [
  | none ↦ none
  | some head ↦ elim (pack (4 ∷ []) (length (head ++ chunk) ∷ [])) [
    | none ↦ none
    | some prefix ↦ some (prefix ++ (head ++ chunk))
  ]
]

-- The loop over the chunks, from `seq` on: what is sent, and whether it ends without a
-- `struct.error`. The socket's `sendall` is taken not to fail.
unfoldable pub send_chunks : ℕ → ℕ → ℕ → ℕ → ℕ → Bytes → ℕ → Bytes × Bool
unfolding frame
send_chunks opcode msg_id corr total zero payload seq = ([], true)
send_chunks opcode msg_id corr total (suc count) payload seq =
    let rest = send_chunks opcode msg_id corr total count payload (suc seq) in
    elim (frame (opcode ∷ msg_id ∷ corr ∷ seq ∷ total ∷ []) (chunk_at seq payload)) [
      | none ↦ ([], false)
      | some f ↦ (f ++ rest.0, rest.1)
    ]

-- `_send`, from the encoded payload on: what is sent, the text of what is raised, and the client
unfoldable pub send : ℕ → ℕ → Bytes → Client → Bytes × Option String × Client
unfolding send_chunks alloc_id
send opcode corr payload c =
    let total = chunk_total payload in
    let (msg_id, c') = alloc_id c in
    let (sent, fine) = send_chunks opcode msg_id corr total total payload 0 in
    if c.connected
    then (sent, if fine then none else some "struct.error", c')
    else ([], some "not connected", c)

-- the waiting calls are woken, without a result where none has come
unfoldable pub wake_results : Table Bool → Table Value → Table Value
wake_results [] results = results
wake_results ((corr, waiting) ∷ pending) results =
    wake_results pending
      (elim (find corr results) [ none ↦ store corr null results | some v ↦ results ])

unfoldable pub wake : Client → Client
unfolding wake_results
wake c = record c {
  pending = map (λ e. (e.0, true)) c.pending;
  results = wake_results c.pending c.results;
}

-- How the reader's thread ends; the fuel is no part of the program. A crash wakes nobody.
pub data Ended : Type 0 where
  no_fuel : Ended
  woken dead : Client → Ended

module _ (codec : Codec) where
  unfoldable pub next : (List Event → Client → Ended) → List Event → Reading → Ended
  next loop es (reading c) = loop es c
  next loop es (crashed c) = dead c

  unfoldable pub after_body :
      (List Event → Client → Ended) → Option Bytes × List Event → Client → Ended
  unfolding next
  after_body loop (none, es) c = woken (wake c)
  after_body loop (some body, es) c = next loop es (dispatch_frame codec body c)

  unfoldable pub by_length : (List Event → Client → Ended) → ℕ → List Event → Client → Ended
  unfolding after_body
  by_length loop frame_len es c =
      if eqb frame_len 0
      then loop es c
      else if ltb max_frame frame_len || ltb frame_len 25
      then woken (wake c)
      else after_body loop (recvall frame_len es) c

  unfoldable pub after_length :
      (List Event → Client → Ended) → Option Bytes × List Event → Client → Ended
  unfolding by_length
  after_length loop (none, es) c = woken (wake c)
  after_length loop (some hdr, es) c = by_length loop (read_number hdr) es c

  -- `_read_loop`. That the client is being closed is seen at a read that times out or fails.
  unfoldable pub read_loop : ℕ → List Event → Client → Ended
  read_loop zero es c = no_fuel
  read_loop (suc fuel) es c = after_length (read_loop fuel) (recvall 4 es) c
