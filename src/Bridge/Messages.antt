-- ===== src/Bridge/Messages.antt =====
-- `CasparBridgeClient` of davinci/caspar_bridge.py: the waiting calls, the reassembly of messages
-- and their delivery. An event is whether it is set; `null` is `None`.
use davinci_agent.Prelude.{
  ℕ, zero, suc, String, Bool, true, false, ◌||◌, Option, none, some, List, [], ◌∷◌, ◌++◌, length,
  leb, ltb, eqb, or_else, drop, if◌then◌else◌,
}
use davinci_agent.Prelude.Value.{Value, null, string, dict, field, end, get}
use davinci_agent.Bridge.Bytes.{Bytes, unpack}
use davinci_agent.Bridge.Table.{Table, find, store, discard}

-- an entry of `_partials`
pub record Part : Type 0 where
  pub total : ℕ
  pub chunks : Table Bytes
  pub op : ℕ
  pub corr : ℕ

pub record Client : Type 0 where
  pub connected : Bool
  pub next_id : ℕ
  pub pending : Table Bool
  pub results : Table Value
  pub partials : Table Part
  pub has_handler : Bool
  -- what the handler was called with; it cannot change the client
  pub delivered : List (Value × Value)

-- What `json.loads` gives for bytes: a value, a `JSONDecodeError`, or the `UnicodeDecodeError` of
-- bytes that are no text.
pub data Loaded : Type 0 where
  parsed : Value → Loaded
  not_json undecodable : Loaded

-- the parts of the library that read a payload: `json.loads` and `bytes.decode`
pub record Codec : Type 0 where
  pub loads : Bytes → Loaded
  pub decode : Bytes → String

-- how the handling of a frame ends: an exception ends the reader's thread
pub data Reading : Type 0 where
  reading crashed : Client → Reading

-- the opcodes
abbrev pub op_hello : ℕ
op_hello = 0x01

abbrev pub op_welcome : ℕ
op_welcome = 0x02

abbrev pub op_request : ℕ
op_request = 0x10

abbrev pub op_response : ℕ
op_response = 0x11

abbrev pub op_signal : ℕ
op_signal = 0x20

abbrev pub op_ping : ℕ
op_ping = 0x30

abbrev pub op_pong : ℕ
op_pong = 0x31

abbrev pub op_error : ℕ
op_error = 0x40

-- `_alloc_id`
unfoldable pub alloc_id : Client → ℕ × Client
alloc_id c = (c.next_id, record c { next_id = suc c.next_id })

-- `_register`
unfoldable pub register : ℕ → Client → Client
register corr c = record c { pending = store corr false c.pending }

-- `_take`
unfoldable pub take_result : ℕ → Client → Value × Client
take_result corr c = (
  or_else (find corr c.results) null,
  record c { pending = discard corr c.pending; results = discard corr c.results },
)

-- `_complete`
unfoldable pub complete : ℕ → Value → Client → Client
complete corr result c = elim (find corr c.pending) [
  | none ↦ c
  | some waiting ↦ record c {
    pending = store corr true c.pending;
    results = store corr result c.results;
  }
]

abbrev pub is_reply : ℕ → Bool
is_reply opcode =
    eqb opcode op_response || eqb opcode op_welcome || eqb opcode op_pong || eqb opcode op_error

-- the handler is only called with a dict
unfoldable pub deliver : Value → Client → Client
deliver (dict m) c =
    if c.has_handler
    then record c {
      delivered =
          c.delivered ++ (or_else (get "key" m) (string ""), or_else (get "data" m) null) ∷ [];
    }
    else c
deliver v c = c

unfoldable pub route : ℕ → ℕ → Value → Client → Client
unfolding complete deliver
route opcode corr value c =
    if is_reply opcode
    then complete corr value c
    else if eqb opcode op_signal
    then deliver value c
    else c

-- b"".join(chunks[i] for i in range(i, i + count)); `none` is a `KeyError`
unfoldable pub join_chunks : ℕ → ℕ → Table Bytes → Option Bytes
join_chunks zero i chunks = some []
join_chunks (suc count) i chunks =
    let rest = join_chunks count (suc i) chunks in
    elim (find i chunks) [
      | none ↦ none
      | some chunk ↦ elim rest [ none ↦ none | some more ↦ some (chunk ++ more) ]
    ]

-- the entry that `setdefault` gives, with the chunk
unfoldable pub with_chunk : ℕ → ℕ → ℕ → ℕ → ℕ → Bytes → Client → Part
with_chunk opcode msg_id corr seq total chunk c =
    let part =
      or_else (find msg_id c.partials)
        (record { total = total; chunks = []; op = opcode; corr = corr }) in
    record part { chunks = store seq chunk part.chunks }

-- the header's fields: opcode, message, correlation, sequence number and total
abbrev pub header : List ℕ
header = 1 ∷ 8 ∷ 8 ∷ 4 ∷ 4 ∷ []

module _ (codec : Codec) where
  unfoldable pub on_loaded : ℕ → ℕ → Bytes → Loaded → Client → Reading
  unfolding route
  on_loaded opcode corr payload (parsed value) c = reading (route opcode corr value c)
  on_loaded opcode corr payload not_json c =
      reading (route opcode corr (dict (field "raw" (string (codec.decode payload)) end)) c)
  on_loaded opcode corr payload undecodable c = crashed c

  -- `_on_message`
  unfoldable pub on_message : ℕ → ℕ → Bytes → Client → Reading
  unfolding on_loaded
  on_message opcode corr [] c = reading (route opcode corr null c)
  on_message opcode corr (d ∷ ds) c = on_loaded opcode corr (d ∷ ds) (codec.loads (d ∷ ds)) c

  unfoldable pub joined : ℕ → ℕ → Client → Option Bytes → Reading
  unfolding on_message
  joined opcode corr c none = crashed c
  joined opcode corr c (some payload) = on_message opcode corr payload c

  unfoldable pub collected : ℕ → ℕ → ℕ → ℕ → Part → Client → Reading
  unfolding joined join_chunks
  collected opcode msg_id corr total part c =
      if ltb (length part.chunks) total
      then reading (record c { partials = store msg_id part c.partials })
      else joined opcode corr
          (record c { partials = discard msg_id (store msg_id part c.partials) })
          (join_chunks total 0 part.chunks)

  unfoldable pub on_frame : ℕ → ℕ → ℕ → ℕ → ℕ → Bytes → Client → Reading
  unfolding with_chunk collected
  on_frame opcode msg_id corr seq total chunk c =
      if leb total 1
      then on_message opcode corr chunk c
      else collected opcode msg_id corr total (with_chunk opcode msg_id corr seq total chunk c) c

  unfoldable pub on_fields : List ℕ → Bytes → Client → Reading
  unfolding on_frame
  on_fields (opcode ∷ msg_id ∷ corr ∷ seq ∷ total ∷ []) chunk c =
      on_frame opcode msg_id corr seq total chunk c
  on_fields _ chunk c = crashed c

  -- `_dispatch_frame`
  unfoldable pub dispatch_frame : Bytes → Client → Reading
  unfolding on_fields
  dispatch_frame body c = on_fields (unpack header body) (drop 25 body) c
