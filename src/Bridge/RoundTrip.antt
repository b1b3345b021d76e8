-- ===== src/Bridge/RoundTrip.antt =====
-- What the reader (davinci/caspar_bridge.py) makes of the bytes that `_send` puts on the wire.
use davinci_agent.Prelude.{
  ℕ, zero, suc, ◌+◌, ◌*◌, ◌≤◌, ◌<◌, ◌≡◌, refl, sym, ap, ◌∙◌, String, Bool, true, false, Option,
  none, some, List, [], ◌∷◌, ◌++◌, append_assoc, append-nil, length, length-append, length-take,
  take, drop, drop-drop, arith, Option-cases, inl, inr, if◌then◌else◌,
}
use davinci_agent.Bridge.Bytes.{Bytes}
use davinci_agent.Bridge.Table.{Table, find}
use davinci_agent.Bridge.Stream.{Event}
use davinci_agent.Bridge.Messages.{
  alloc_id, Part, Client, Codec, Reading, reading, crashed, on_message, on_fields, on_frame,
}
use davinci_agent.Bridge.Wire.{
  max_chunk, chunk_at, chunk_total, frame, send_chunks, send, next, read_loop,
}
use davinci_agent.Bridge.Flow.{flat, IsFlowing}
use davinci_agent.Bridge.Reassembly.{
  concat, part_of, Holds, Holds-none, Holds-some, on_frame-more, on_frame-last,
}
use davinci_agent.Bridge.Frames.{finish, read_frame, read_loop-end}

module _ {A : Type 0} where
  take-nil : (n : ℕ) → take {A = A} n [] ≡ []
  take-nil zero = refl
  take-nil (suc n) = refl

  take-all : (n : ℕ) (xs : List A) → length xs ≤ n → take n xs ≡ xs
  take-all n [] h = take-nil n
  take-all zero (x ∷ xs) h = absurd (omega arith)
  take-all (suc n) (x ∷ xs) h = ap (λ l. x ∷ l) (take-all n xs (omega arith))

  take-sum : (a b : ℕ) (xs : List A) → take (a + b) xs ≡ take a xs ++ take b (drop a xs)
  take-sum zero b xs = let e : 0 + b ≡ b = omega arith in ap (λ k. take k xs) e
  take-sum (suc a) b [] =
      let e : suc a + b ≡ suc (a + b) = omega arith in ap (λ k. take k []) e ∙ sym (take-nil b)
  take-sum (suc a) b (x ∷ xs) =
      let e : suc a + b ≡ suc (a + b) = omega arith in
      ap (λ k. take k (x ∷ xs)) e ∙ ap (λ l. x ∷ l) (take-sum a b xs)

-- the chunks from a sequence number on
abbrev chunks_from : Bytes → ℕ → ℕ → List Bytes
chunks_from payload seq zero = []
chunks_from payload seq (suc n) = chunk_at seq payload ∷ chunks_from payload (suc seq) n

concat-chunks_from :
    (payload : Bytes) (seq n : ℕ)
    → concat (chunks_from payload seq n) ≡ take (n * max_chunk) (drop (seq * max_chunk) payload)
concat-chunks_from payload seq zero = refl
concat-chunks_from payload seq (suc n) =
    let front = drop (seq * max_chunk) payload in
    let e : max_chunk + n * max_chunk ≡ suc n * max_chunk = omega arith in
    let f : seq * max_chunk + max_chunk ≡ suc seq * max_chunk = omega arith in
    ap (λ l. chunk_at seq payload ++ l)
      (concat-chunks_from payload (suc seq) n
        ∙ ap (λ k. take (n * max_chunk) (drop k payload)) (sym f)
        ∙ ap (take (n * max_chunk)) (sym (drop-drop max_chunk (seq * max_chunk) payload)))
    ∙ sym (take-sum max_chunk (n * max_chunk) front)
    ∙ ap (λ k. take k front) e

pub concat-chunks :
    (payload : Bytes) → concat (chunks_from payload 0 (chunk_total payload)) ≡ payload
concat-chunks payload =
    concat-chunks_from payload 0 (chunk_total payload)
    ∙ take-all (chunk_total payload * max_chunk) payload (omega arith)

chunk-le : (seq : ℕ) (payload : Bytes) → length (chunk_at seq payload) ≤ max_chunk
chunk-le seq payload = omega (arith, length-take max_chunk (drop (seq * max_chunk) payload))

-- a loop of `_send` that goes on
record Sending (opcode msg_id corr total count : ℕ) (payload : Bytes) (seq : ℕ) (sent : Bytes)
    : Type 0 where
  f : Bytes
  more : Bytes
  framed : frame (opcode ∷ msg_id ∷ corr ∷ seq ∷ total ∷ []) (chunk_at seq payload) ≡ some f
  all_sent : sent ≡ f ++ more
  goes_on : send_chunks opcode msg_id corr total count payload (suc seq) ≡ (more, true)

send_chunks-step :
    (opcode msg_id corr total count : ℕ) (payload : Bytes) (seq : ℕ) (f : Bytes)
    → frame (opcode ∷ msg_id ∷ corr ∷ seq ∷ total ∷ []) (chunk_at seq payload) ≡ some f
    → send_chunks opcode msg_id corr total (suc count) payload seq ≡ (
      f ++ (send_chunks opcode msg_id corr total count payload (suc seq)).0,
      (send_chunks opcode msg_id corr total count payload (suc seq)).1,
    )
unfolding send_chunks
send_chunks-step opcode msg_id corr total count payload seq f framed = ground arith

send_chunks-fails :
    (opcode msg_id corr total count : ℕ) (payload : Bytes) (seq : ℕ)
    → frame (opcode ∷ msg_id ∷ corr ∷ seq ∷ total ∷ []) (chunk_at seq payload) ≡ none
    → (send_chunks opcode msg_id corr total (suc count) payload seq).1 ≡ false
unfolding send_chunks
send_chunks-fails opcode msg_id corr total count payload seq fails = ground arith

send_chunks-Sending :
    (opcode msg_id corr total count : ℕ) (payload : Bytes) (seq : ℕ) (sent : Bytes)
    → send_chunks opcode msg_id corr total (suc count) payload seq ≡ (sent, true)
    → Sending opcode msg_id corr total count payload seq sent
send_chunks-Sending opcode msg_id corr total count payload seq sent e =
    let fields = opcode ∷ msg_id ∷ corr ∷ seq ∷ total ∷ [] in
    elim (Option-cases (frame fields (chunk_at seq payload))) [
      | inl fails ↦
          let no = send_chunks-fails opcode msg_id corr total count payload seq fails in
          let yes_ : (send_chunks opcode msg_id corr total (suc count) payload seq).1 ≡ true =
            ap (λ (x : Bytes × Bool). x.1) e in
          absurd (ground arith)
      | inr (f, framed) ↦
          let rest = send_chunks opcode msg_id corr total count payload (suc seq) in
          let both =
            sym (send_chunks-step opcode msg_id corr total count payload seq f framed) ∙ e in
          record {
            f = f;
            more = rest.0;
            framed = framed;
            all_sent = sym (ap (λ (x : Bytes × Bool). x.0) both);
            goes_on = ap (λ x. (rest.0, x)) (ap (λ (x : Bytes × Bool). x.1) both);
          }
    ]

none_sent :
    (opcode msg_id corr total : ℕ) (payload : Bytes) (seq : ℕ) (more : Bytes)
    → send_chunks opcode msg_id corr total 0 payload seq ≡ (more, true)
    → more ≡ []
unfolding send_chunks
none_sent opcode msg_id corr total payload seq more e = sym (ap (λ (x : Bytes × Bool). x.0) e)

module _ (codec : Codec) where
  next-end :
      (fuel : ℕ) (es : List Event) (r : Reading)
      → 0 < fuel
      → IsFlowing es
      → flat es ≡ []
      → next codec (read_loop codec fuel) es r ≡ finish r
  unfolding next
  next-end zero es r h flows e = absurd (omega arith)
  next-end (suc fuel) es (reading c) h flows e = read_loop-end codec fuel es c flows e
  next-end (suc fuel) es (crashed c) h flows e = refl

  next-reading :
      (fuel : ℕ) (es : List Event) (c : Client)
      → next codec (read_loop codec fuel) es (reading c) ≡ read_loop codec fuel es c
  unfolding next
  next-reading fuel es c = refl

  on_fields-five :
      (opcode msg_id corr seq total : ℕ) (chunk : Bytes) (c : Client)
      → on_fields codec (opcode ∷ msg_id ∷ corr ∷ seq ∷ total ∷ []) chunk c
        ≡ on_frame codec opcode msg_id corr seq total chunk c
  unfolding on_fields
  on_fields-five opcode msg_id corr seq total chunk c = refl

  module _ (c : Client) (opcode msg_id corr total : ℕ) (payload : Bytes)
      (unknown : find msg_id c.partials ≡ none) (two : 2 ≤ total) where
    several :
        (count fuel : ℕ) (es : List Event) (t : Table Part) (cs : List Bytes)
        → length cs + suc count ≡ total
        → Holds codec c opcode msg_id corr total unknown cs t
        → send_chunks opcode msg_id corr total (suc count) payload (length cs) ≡ (flat es, true)
        → IsFlowing es
        → suc count < fuel
        → read_loop codec fuel es (record c { partials = t })
          ≡ finish (
              on_message codec opcode corr
                (concat (cs ++ chunks_from payload (length cs) (suc count)))
                c)
    several count zero es t cs counted h sent flows enough = absurd (omega arith)
    several zero (suc fuel) es t cs counted h sent flows enough =
        let seq = length cs in
        let s = send_chunks-Sending opcode msg_id corr total 0 payload seq (flat es) sent in
        let chunk = chunk_at seq payload in
        let r =
          read_frame codec (opcode ∷ msg_id ∷ corr ∷ seq ∷ total ∷ []) chunk s.f s.more es s.framed
            (chunk-le seq payload) flows s.all_sent in
        let last =
          on_frame-last codec c opcode msg_id corr total unknown cs t h chunk two (omega arith) in
        r.reads fuel (record c { partials = t })
        ∙ ap (next codec (read_loop codec fuel) r.later)
            (on_fields-five opcode msg_id corr seq total chunk (record c { partials = t }) ∙ last)
        ∙ next-end fuel r.later (on_message codec opcode corr (concat (cs ++ chunk ∷ [])) c)
            (omega arith) r.flows
            (r.left ∙ none_sent opcode msg_id corr total payload (suc seq) s.more s.goes_on)
    several (suc count) (suc fuel) es t cs counted h sent flows enough =
        let seq = length cs in
        let s =
          send_chunks-Sending opcode msg_id corr total (suc count) payload seq (flat es) sent in
        let chunk = chunk_at seq payload in
        let r =
          read_frame codec (opcode ∷ msg_id ∷ corr ∷ seq ∷ total ∷ []) chunk s.f s.more es s.framed
            (chunk-le seq payload) flows s.all_sent in
        let more =
          on_frame-more codec c opcode msg_id corr total unknown cs t h chunk two (omega arith) in
        let cs' = cs ++ chunk ∷ [] in
        let one : length cs' ≡ suc seq = length-append cs (chunk ∷ []) ∙ omega arith in
        let t' =
          c.partials ++ (msg_id, part_of codec c opcode msg_id corr total unknown cs') ∷ [] in
        let goes_on : send_chunks opcode msg_id corr total (suc count) payload (length cs')
            ≡ (flat r.later, true) =
          ap (send_chunks opcode msg_id corr total (suc count) payload) one
          ∙ s.goes_on
          ∙ ap (λ b. (b, true)) (sym r.left) in
        r.reads fuel (record c { partials = t })
        ∙ ap (next codec (read_loop codec fuel) r.later)
            (on_fields-five opcode msg_id corr seq total chunk (record c { partials = t }) ∙ more)
        ∙ next-reading fuel r.later (record c { partials = t' })
        ∙ several count fuel r.later t' cs' (omega arith)
            (Holds-some codec c opcode msg_id corr total unknown cs') goes_on r.flows (omega arith)
        ∙ ap (λ l. finish (on_message codec opcode corr (concat l) c))
            (ap (λ k. cs' ++ chunks_from payload k (suc count)) one
              ∙ append_assoc cs (chunk ∷ []) (chunks_from payload (suc seq) (suc count)))

  single :
      (opcode msg_id corr fuel : ℕ) (payload : Bytes) (es : List Event) (c : Client)
      → send_chunks opcode msg_id corr 1 1 payload 0 ≡ (flat es, true)
      → IsFlowing es
      → 1 < fuel
      → read_loop codec fuel es c ≡ finish (on_message codec opcode corr (chunk_at 0 payload) c)
  unfolding on_frame
  single opcode msg_id corr zero payload es c sent flows enough = absurd (omega arith)
  single opcode msg_id corr (suc fuel) payload es c sent flows enough =
      let s = send_chunks-Sending opcode msg_id corr 1 0 payload 0 (flat es) sent in
      let chunk = chunk_at 0 payload in
      let r =
        read_frame codec (opcode ∷ msg_id ∷ corr ∷ 0 ∷ 1 ∷ []) chunk s.f s.more es s.framed
          (chunk-le 0 payload) flows s.all_sent in
      r.reads fuel c
      ∙ ap (next codec (read_loop codec fuel) r.later)
          (on_fields-five opcode msg_id corr 0 1 chunk c)
      ∙ next-end fuel r.later (on_message codec opcode corr chunk c) (omega arith) r.flows
          (r.left ∙ none_sent opcode msg_id corr 1 payload 1 s.more s.goes_on)

pair_eq : {A B : Type 0} {p : A × B} {a : A} {b : B} → p.0 ≡ a → p.1 ≡ b → p ≡ (a, b)
pair_eq {p = p} {a = a} e f = ap (λ x. (x, p.1)) e ∙ ap (λ y. (a, y)) f

none_if : (b : Bool) (s : String) → (if b then none else some s) ≡ none → b ≡ true
none_if true s e = refl
none_if false s e = absurd (ground arith)

-- what `_send` gives when the client is connected, or else
abbrev sending : Bool → Bytes × Bool → Client → Client → Bytes × Option String × Client
sending b all s t =
    if b
    then (all.0, if all.1 then none else some "struct.error", s)
    else ([], some "not connected", t)

sending-fine :
    (b : Bool) (all : Bytes × Bool) (s t : Client) (sent : Bytes)
    → (sending b all s t).0 ≡ sent
    → (sending b all s t).1 ≡ none
    → all ≡ (sent, true)
sending-fine true all s t sent e f = pair_eq e (none_if all.1 "struct.error" f)
sending-fine false all s t sent e f = absurd (ground arith)

send-chunks :
    (opcode corr : ℕ) (payload sent : Bytes) (sender : Client)
    → (send opcode corr payload sender).0 ≡ sent
    → (send opcode corr payload sender).1 ≡ none
    → send_chunks opcode sender.next_id corr (chunk_total payload) (chunk_total payload) payload 0
      ≡ (sent, true)
unfolding send alloc_id
send-chunks opcode corr payload sent sender e f =
    let total = chunk_total payload in
    sending-fine sender.connected (send_chunks opcode sender.next_id corr total total payload 0)
      (record sender { next_id = suc sender.next_id }) sender sent e f

-- the two ways of `_send`: one chunk, or several
delivered-total :
    (codec : Codec) (fuel opcode corr msg_id total : ℕ) (payload : Bytes) (es : List Event)
    (receiver : Client)
    → chunk_total payload ≡ total
    → send_chunks opcode msg_id corr total total payload 0 ≡ (flat es, true)
    → IsFlowing es
    → find msg_id receiver.partials ≡ none
    → total < fuel
    → read_loop codec fuel es receiver ≡ finish (on_message codec opcode corr payload receiver)
delivered-total codec fuel opcode corr msg_id zero payload es receiver count e flows new enough =
    absurd (omega arith)
delivered-total codec fuel opcode corr msg_id (suc zero) payload es receiver count e flows new
      enough =
    single codec opcode msg_id corr fuel payload es receiver e flows enough
    ∙ ap (λ b. finish (on_message codec opcode corr b receiver))
        (sym (append-nil (chunk_at 0 payload))
          ∙ ap (λ n. concat (chunks_from payload 0 n)) (sym count)
          ∙ concat-chunks payload)
delivered-total codec fuel opcode corr msg_id (suc (suc n)) payload es receiver count e flows new
      enough =
    several codec receiver opcode msg_id corr (suc (suc n)) payload new (omega arith) (suc n) fuel
      es receiver.partials [] (omega arith)
      (Holds-none codec receiver opcode msg_id corr (suc (suc n)) new) e flows enough
    ∙ ap (λ b. finish (on_message codec opcode corr b receiver))
        (ap (λ k. concat (chunks_from payload 0 k)) (sym count) ∙ concat-chunks payload)

-- What `_send` puts on the wire without an error, in whatever pieces it comes in at a peer that
-- knows no part of a message of that number, is taken in as the one message that was sent, however
-- many chunks it has: the peer's reader routes its payload and, as nothing more comes, wakes the
-- waiting calls. Fuel beyond the number of chunks is enough.
pub send-read_loop :
    (codec : Codec) (fuel opcode corr : ℕ) (payload : Bytes) (es : List Event)
    (sender receiver : Client)
    → (send opcode corr payload sender).0 ≡ flat es
    → (send opcode corr payload sender).1 ≡ none
    → IsFlowing es
    → find sender.next_id receiver.partials ≡ none
    → chunk_total payload < fuel
    → read_loop codec fuel es receiver ≡ finish (on_message codec opcode corr payload receiver)
send-read_loop codec fuel opcode corr payload es sender receiver e f flows new enough =
    delivered-total codec fuel opcode corr sender.next_id (chunk_total payload) payload es receiver
      refl (send-chunks opcode corr payload (flat es) sender e f) flows new enough
