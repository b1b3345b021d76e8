-- ===== src/Bridge/Frames.antt =====
-- How the reader (davinci/caspar_bridge.py) takes one frame from the wire.
use davinci_agent.Prelude.{
  ℕ, suc, ◌≤◌, ◌≡◌, refl, ap, ◌∙◌, false, ◌||◌, Option, none, some, List, [], ◌∷◌, ◌++◌,
  append_assoc, length, length-append, take, drop, ltb, eqb, arith, Option-cases, inl, inr,
}
use davinci_agent.Bridge.Bytes.{Bytes, read_number, pack, unpack}
use davinci_agent.Bridge.Packing.{unpack-pack, take-append-left, drop-append-right}
use davinci_agent.Bridge.Stream.{Event, recvall}
use davinci_agent.Bridge.Messages.{
  Client, Codec, Reading, reading, crashed, header, on_fields, dispatch_frame,
}
use davinci_agent.Bridge.Wire.{
  max_chunk, max_frame, frame, wake, Ended, woken, dead, next, after_body, by_length, after_length,
  read_loop,
}
use davinci_agent.Bridge.Flow.{flat, IsFlowing, recvall-Reads, recvall-end}

-- the parts of a frame
record Framed (fields : List ℕ) (chunk f : Bytes) : Type 0 where
  head : Bytes
  prefix : Bytes
  packed : pack header fields ≡ some head
  measured : pack (4 ∷ []) (length (head ++ chunk) ∷ []) ≡ some prefix
  whole : f ≡ prefix ++ (head ++ chunk)

frame-Framed :
    (fields : List ℕ) (chunk f : Bytes) → frame fields chunk ≡ some f → Framed fields chunk f
unfolding frame
frame-Framed fields chunk f e = elim (Option-cases (pack header fields)) [
  | inl fails ↦ absurd (ground arith)
  | inr (head, packed) ↦ elim (Option-cases (pack (4 ∷ []) (length (head ++ chunk) ∷ []))) [
    | inl fails ↦ absurd (ground arith)
    | inr (prefix, measured) ↦ record {
      head = head;
      prefix = prefix;
      packed = packed;
      measured = measured;
      whole = ground arith;
    }
  ]
]

head_eq : {a b : ℕ} {xs ys : List ℕ} → a ∷ xs ≡ b ∷ ys → a ≡ b
head_eq e = cc

-- how the thread ends when nothing comes after a message
abbrev pub finish : Reading → Ended
finish (reading c) = woken (wake c)
finish (crashed c) = dead c

module _ (codec : Codec) where
  by_length-body :
      (loop : List Event → Client → Ended) (n : ℕ) (es : List Event) (c : Client)
      → 25 ≤ n
      → n ≤ max_frame
      → by_length codec loop n es c ≡ after_body codec loop (recvall n es) c
  unfolding by_length
  by_length-body loop n es c low high =
      let not_empty : eqb n 0 ≡ false = ground arith in
      let fits : (ltb max_frame n || ltb n 25) ≡ false = ground arith in rw (not_empty, fits) refl

  read_loop-step :
      (fuel n : ℕ) (es es1 es2 : List Event) (c : Client) (hdr body : Bytes)
      → recvall 4 es ≡ (some hdr, es1)
      → read_number hdr ≡ n
      → 25 ≤ n
      → n ≤ max_frame
      → recvall n es1 ≡ (some body, es2)
      → read_loop codec (suc fuel) es c
        ≡ next codec (read_loop codec fuel) es2 (dispatch_frame codec body c)
  unfolding read_loop after_length after_body
  read_loop-step fuel n es es1 es2 c hdr body e1 e2 low high e3 =
      let loop = read_loop codec fuel in
      ap (λ r. after_length codec loop r c) e1
      ∙ ap (λ k. by_length codec loop k es1 c) e2
      ∙ by_length-body loop n es1 c low high
      ∙ ap (λ r. after_body codec loop r c) e3

  after_length-none :
      (loop : List Event → Client → Ended) (r : Option Bytes × List Event) (c : Client)
      → r.0 ≡ none
      → after_length codec loop r c ≡ woken (wake c)
  unfolding after_length
  after_length-none loop (none, es) c e = refl
  after_length-none loop (some hdr, es) c e = absurd (ground arith)

  -- at the end of the stream the waiting calls are woken
  pub read_loop-end :
      (fuel : ℕ) (es : List Event) (c : Client)
      → IsFlowing es
      → flat es ≡ []
      → read_loop codec (suc fuel) es c ≡ woken (wake c)
  unfolding read_loop
  read_loop-end fuel es c h e =
      after_length-none (read_loop codec fuel) (recvall 4 es) c (recvall-end 3 es h e)

  -- one frame
  pub record FrameRead (fields : List ℕ) (chunk rest : Bytes) (es : List Event) : Type 0 where
    pub later : List Event
    pub left : flat later ≡ rest
    pub flows : IsFlowing later
    pub reads :
        (fuel : ℕ) (c : Client)
        → read_loop codec (suc fuel) es c
          ≡ next codec (read_loop codec fuel) later (on_fields codec fields chunk c)

  pub read_frame :
      (fields : List ℕ) (chunk f rest : Bytes) (es : List Event)
      → frame fields chunk ≡ some f
      → length chunk ≤ max_chunk
      → IsFlowing es
      → flat es ≡ f ++ rest
      → FrameRead fields chunk rest es
  unfolding unpack
  read_frame fields chunk f rest es framed small flows e =
      let p = frame-Framed fields chunk f framed in
      let body = p.head ++ chunk in
      let measure = unpack-pack (4 ∷ []) (length body ∷ []) p.prefix (body ++ rest) p.measured in
      let fields_of = unpack-pack header fields p.head chunk p.packed in
      let all_in : flat es ≡ p.prefix ++ (body ++ rest) =
        e ∙ ap (λ b. b ++ rest) p.whole ∙ append_assoc p.prefix body rest in
      let r1 =
        recvall-Reads 4 es flows
          (omega (arith, ap length all_in, length-append p.prefix (body ++ rest), measure.2)) in
      let after : flat r1.rest ≡ body ++ rest = r1.others ∙ ap (drop 4) all_in ∙ measure.1 in
      let r2 =
        recvall-Reads (length body) r1.rest r1.flows
          (omega (arith, ap length after, length-append body rest)) in
      record {
        later = r2.rest;
        left = r2.others ∙ ap (drop (length body)) after ∙ drop-append-right body rest;
        flows = r2.flows;
        reads = λ fuel c.
            read_loop-step fuel (length body) es r1.rest r2.rest c (take 4 (flat es)) body r1.read
              (ap (λ b. read_number (take 4 b)) all_in ∙ head_eq measure.0)
              (omega (arith, length-append p.head chunk, fields_of.2))
              (omega (arith, length-append p.head chunk, fields_of.2))
              (r2.read
                ∙ ap (λ b. (some b, r2.rest))
                    (ap (take (length body)) after ∙ take-append-left body rest))
            ∙ ap (next codec (read_loop codec fuel) r2.rest) (
                unfold dispatch_frame in
                ap (λ x. on_fields codec x (drop 25 body) c) fields_of.0
                ∙ ap (λ x. on_fields codec fields x c) fields_of.1);
      }
