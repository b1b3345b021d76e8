-- ===== src/Bridge/Calls.antt =====
-- The calls of `CasparBridgeClient` in davinci/caspar_bridge.py: `call`, `ping` and `_handshake`.
use davinci_agent.Prelude.{
  ℕ, String, ◌<>◌, Bool, true, false, Option, none, some, or_else, [], ◌∷◌, if◌then◌else◌,
}
use davinci_agent.Prelude.Value.{
  Value, null, string, bool, list, dict, Items, nil, Fields, field, end, fields, get, put, merge,
  truthy, str,
}
use davinci_agent.Bridge.Bytes.{Bytes}
use davinci_agent.Bridge.Messages.{
  Client, alloc_id, register, take_result, op_hello, op_request, op_ping,
}
use davinci_agent.Bridge.Wire.{send}

-- how a call ends; an error is named by its text
pub data Answer : Type 0 where
  answered : Value → Answer
  failed : String → Answer

-- the identity of the connection
pub record Identity : Type 0 where
  pub session_id : Value
  pub vm_id : Value
  pub machine_id : Value
  pub program_id : Value
  pub creature_id : Value

-- What the other threads do while a call waits for its event: whether it was set in time, and the
-- client then.
abbrev pub Wait : Type 0
Wait = ℕ → Client → Bool × Client

unfoldable pub settle : String → ℕ → Bool × Client → Answer × Client
unfolding take_result
settle late corr (true, c) = let (v, c') = take_result corr c in (answered v, c')
settle late corr (false, c) = let (v, c') = take_result corr c in (failed late, c')

-- a handshake that comes too late leaves its entry
unfoldable pub settle_welcome : ℕ → Bool × Client → Answer × Client
unfolding take_result
settle_welcome corr (true, c) = let (v, c') = take_result corr c in (answered v, c')
settle_welcome corr (false, c) = (failed "handshake timed out waiting for WELCOME", c)

-- the part of a call after `_send`
unfoldable pub await :
    (Bool × Client → Answer × Client)
    → Wait
    → ℕ
    → Bytes × Option String × Client
    → Bytes × Answer × Client
await settled wait corr (sent, some error, c) = (sent, failed error, c)
await settled wait corr (sent, none, c) = let (a, c') = settled (wait corr c) in (sent, a, c')

-- The steps that `call`, `ping` and `_handshake` share, with the encoded payload.
unfoldable pub exchange :
    ℕ → Bytes → (ℕ → Bool × Client → Answer × Client) → Wait → Client → Bytes × Answer × Client
unfolding alloc_id register send await
exchange opcode payload settled wait c =
    let (corr, c1) = alloc_id c in
    await (settled corr) wait corr (send opcode corr payload (register corr c1))

module _ (dumps : Value → Bytes) where
  -- `call`
  unfoldable pub call : String → Option Fields → Wait → Client → Bytes × Answer × Client
  unfolding exchange settle
  call op input wait c =
      exchange op_request
        (dumps (dict (field "op" (string op) (field "input" (dict (or_else input end)) end))))
        (settle ("host call '" <> op <> "' timed out")) wait c

  -- `db_put`, `db_get` and `db_del`
  unfoldable pub db_put : String → String → Fields → Wait → Client → Bytes × Answer × Client
  unfolding call merge
  db_put key val extra wait c =
      call "dbOp"
        (some (
          merge (fields (("op", string "put") ∷ ("key", string key) ∷ ("val", string val) ∷ []))
            extra))
        wait c

  unfoldable pub db_get : String → Fields → Wait → Client → Bytes × Answer × Client
  unfolding call merge
  db_get key extra wait c =
      call "dbOp" (some (merge (fields (("op", string "get") ∷ ("key", string key) ∷ [])) extra))
        wait c

  unfoldable pub db_del : String → Fields → Wait → Client → Bytes × Answer × Client
  unfolding call merge
  db_del key extra wait c =
      call "dbOp" (some (merge (fields (("op", string "del") ∷ ("key", string key) ∷ [])) extra))
        wait c

  -- `http_request`
  unfoldable pub http_request :
      String → String → Option Fields → Option String → Wait → Client → Bytes × Answer × Client
  unfolding call put
  http_request url method headers body wait c =
      let request = fields (("url", string url) ∷ ("method", string method) ∷ []) in
      let with_headers : Fields = elim headers [
        | none ↦ request
        | some h ↦ if truthy (dict h) then put "headers" (dict h) request else request
      ] in
      let with_body : Fields = elim body [
        | none ↦ with_headers
        | some b ↦ put "body" (string b) with_headers
      ] in
      call "httpRequest" (some with_body) wait c

  module _ (dumps_text : Value → String) where
    -- a packet that is no text is encoded
    unfoldable pub packet_text : Value → Value
    packet_text (string s) = string s
    packet_text v = string (dumps_text v)

    -- `signal_user`
    unfoldable pub signal_user : String → String → Value → Wait → Client → Bytes × Answer × Client
    unfolding call packet_text
    signal_user key user_id packet wait c =
        call "signalUser"
          (some (
            fields (
              ("key", string key)
              ∷ ("userId", string user_id)
              ∷ ("packet", packet_text packet)
              ∷ [])))
          wait c

    -- `signal_group`
    unfoldable pub signal_group :
        String → String → Value → Option Items → Wait → Client → Bytes × Answer × Client
    unfolding call packet_text
    signal_group key group_id packet except_ids wait c =
        call "signalGroup"
          (some (
            fields (
              ("key", string key)
              ∷ ("groupId", string group_id)
              ∷ ("packet", packet_text packet)
              ∷ ("except", list (or_else except_ids nil))
              ∷ [])))
          wait c

  -- `ping`
  unfoldable pub ping : Wait → Client → Bytes × Answer × Client
  unfolding exchange settle
  ping wait c = exchange op_ping (dumps (dict end)) (settle "ping timed out") wait c

  unfoldable pub identity_of : Fields → Identity
  identity_of m = record {
    session_id = or_else (get "sessionId" m) null;
    vm_id = or_else (get "vmId" m) (string "");
    machine_id = or_else (get "machineId" m) (string "");
    program_id = or_else (get "programId" m) (string "");
    creature_id = or_else (get "creatureId" m) (string "");
  }

  -- what the handshake makes of the answer: the new identity, or the text of what is raised
  unfoldable pub welcomed : Identity → Answer → Identity × Option String
  unfolding identity_of
  welcomed i (failed error) = (i, some error)
  welcomed i (answered (dict m)) =
      if truthy (or_else (get "ok" m) (bool false))
      then (identity_of m, none)
      else (i, some ("handshake rejected: " <> str (dict m)))
  welcomed i (answered v) = (i, some ("handshake rejected: " <> str v))

  -- `_handshake`
  unfoldable pub handshake : Identity → Wait → Client → Bytes × (Identity × Option String) × Client
  unfolding exchange settle_welcome welcomed
  handshake i wait c =
      let (sent, a, c') = exchange op_hello (dumps (dict end)) settle_welcome wait c in
      (sent, welcomed i a, c')
