-- ===== src/Bridge/Reassembly.antt =====
-- The chunks of a message, taken in one after the other (davinci/caspar_bridge.py).
use davinci_agent.Prelude.{
  ℕ, suc, ◌+◌, ◌≤◌, ◌<◌, ◌≡◌, refl, sym, ap, ◌∙◌, false, none, some, List, [], ◌∷◌, ◌++◌,
  append_assoc, length, length-append, leb, ltb, lt→ltb, or_else, arith,
}
use davinci_agent.Bridge.Bytes.{Bytes}
use davinci_agent.Bridge.Table.{
  Table, find, store, discard, store-new, store-newest, find-newest, discard-newest,
}
use davinci_agent.Bridge.Messages.{
  Part, Client, Codec, reading, on_message, join_chunks, joined, with_chunk, collected, on_frame,
}

-- b"".join(…)
abbrev pub concat : List Bytes → Bytes
concat [] = []
concat (c ∷ cs) = c ++ concat cs

pub concat-append : (xs ys : List Bytes) → concat (xs ++ ys) ≡ concat xs ++ concat ys
concat-append [] ys = refl
concat-append (x ∷ xs) ys =
    ap (λ l. x ++ l) (concat-append xs ys) ∙ sym (append_assoc x (concat xs) (concat ys))

-- the chunks under their sequence numbers, from `k` on
abbrev pub numbered : ℕ → List Bytes → Table Bytes
numbered k [] = []
numbered k (c ∷ cs) = (k, c) ∷ numbered (suc k) cs

numbered-snoc :
    (k : ℕ) (cs : List Bytes) (c : Bytes)
    → numbered k (cs ++ c ∷ []) ≡ numbered k cs ++ (k + length cs, c) ∷ []
numbered-snoc k [] c = let e : k ≡ k + 0 = omega arith in ap (λ j. (j, c) ∷ []) e
numbered-snoc k (x ∷ cs) c =
    let e : suc k + length cs ≡ k + suc (length cs) = omega arith in
    ap (λ l. (k, x) ∷ l)
      (numbered-snoc (suc k) cs c ∙ ap (λ j. numbered (suc k) cs ++ (j, c) ∷ []) e)

find-numbered-above :
    (j k : ℕ) (cs : List Bytes) → k + length cs ≤ j → find j (numbered k cs) ≡ none
unfolding find
find-numbered-above j k [] h = refl
find-numbered-above j k (c ∷ cs) h = ground (arith, find-numbered-above j (suc k) cs (omega arith))

length-numbered : (k : ℕ) (cs : List Bytes) → length (numbered k cs) ≡ length cs
length-numbered k [] = refl
length-numbered k (c ∷ cs) = ap suc (length-numbered (suc k) cs)

store-numbered :
    (cs : List Bytes) (c : Bytes) → store (length cs) c (numbered 0 cs) ≡ numbered 0 (cs ++ c ∷ [])
store-numbered cs c =
    let e : length cs ≡ 0 + length cs = omega arith in
    store-new (length cs) c (numbered 0 cs) (find-numbered-above (length cs) 0 cs (omega arith))
    ∙ ap (λ j. numbered 0 cs ++ (j, c) ∷ []) e
    ∙ sym (numbered-snoc 0 cs c)

find-append : (j : ℕ) (t u : Table Bytes) → find j t ≡ none → find j (t ++ u) ≡ find j u
unfolding find
find-append j [] u h = refl
find-append j ((i, w) ∷ t) u h = ground (arith, find-append j t u)

join_chunks-step :
    (n k : ℕ) (t : Table Bytes) (chunk more : Bytes)
    → find k t ≡ some chunk
    → join_chunks n (suc k) t ≡ some more
    → join_chunks (suc n) k t ≡ some (chunk ++ more)
unfolding join_chunks
join_chunks-step n k t chunk more h e = ground arith

join-numbered :
    (t : Table Bytes) (k : ℕ) (cs : List Bytes)
    → ((j : ℕ) → k ≤ j → find j t ≡ none)
    → join_chunks (length cs) k (t ++ numbered k cs) ≡ some (concat cs)
unfolding join_chunks
join-numbered t k [] h = refl
join-numbered t k (c ∷ cs) h =
    let t' : Table Bytes = t ++ (k, c) ∷ [] in
    let e : t' ++ numbered (suc k) cs ≡ t ++ (k, c) ∷ numbered (suc k) cs =
      append_assoc t ((k, c) ∷ []) (numbered (suc k) cs) in
    let here : find k (t ++ (k, c) ∷ numbered (suc k) cs) ≡ some c =
      find-append k t _ (h k (omega arith)) ∙ unfold find in ground arith in
    let above : (j : ℕ) → suc k ≤ j → find j t' ≡ none =
      λ j le. find-append j t _ (h j (omega arith)) ∙ unfold find in ground arith in
    let later = ap (join_chunks (length cs) (suc k)) (sym e) ∙ join-numbered t' (suc k) cs above in
    join_chunks-step (length cs) k (t ++ (k, c) ∷ numbered (suc k) cs) c (concat cs) here later

pub join_chunks-numbered :
    (cs : List Bytes) → join_chunks (length cs) 0 (numbered 0 cs) ≡ some (concat cs)
join_chunks-numbered cs = join-numbered [] 0 cs (λ j le. unfold find in refl)

module _ (codec : Codec) (c : Client) (opcode msg_id corr total : ℕ)
    (unknown : find msg_id c.partials ≡ none) where
  -- the entry of the message with these chunks
  abbrev pub part_of : List Bytes → Part
  part_of cs = record { total = total; chunks = numbered 0 cs; op = opcode; corr = corr }

  -- The partial messages are those of before, and these chunks of the message.
  pub record Holds (cs : List Bytes) (t : Table Part) : Type 0 where
    pub part : or_else (find msg_id t) (part_of []) ≡ part_of cs
    pub stores : (p : Part) → store msg_id p t ≡ c.partials ++ (msg_id, p) ∷ []

  pub Holds-none : Holds [] c.partials
  Holds-none = record {
    part = rw unknown refl;
    stores = λ p. store-new msg_id p c.partials unknown;
  }

  pub Holds-some : (cs : List Bytes) → Holds cs (c.partials ++ (msg_id, part_of cs) ∷ [])
  Holds-some cs = record {
    part = rw (find-newest msg_id (part_of cs) c.partials unknown) refl;
    stores = λ p. store-newest msg_id p (part_of cs) c.partials unknown;
  }

  collected-more :
      (p : Part) (t : Table Part)
      → length p.chunks < total
      → collected codec opcode msg_id corr total p (record c { partials = t })
        ≡ reading (record c { partials = store msg_id p t })
  unfolding collected
  collected-more p t h = rw (lt→ltb _ _ h) refl

  collected-last :
      (p : Part) (t : Table Part) (payload : Bytes)
      → total ≤ length p.chunks
      → join_chunks total 0 p.chunks ≡ some payload
      → collected codec opcode msg_id corr total p (record c { partials = t })
        ≡ on_message codec opcode corr payload
            (record c { partials = discard msg_id (store msg_id p t) })
  unfolding collected joined
  collected-last p t payload h e =
      let all_there : ltb (length p.chunks) total ≡ false = ground arith in rw (all_there, e) refl

  module _ (cs : List Bytes) (t : Table Part) (h : Holds cs t) (chunk : Bytes) where
    abbrev pub holding : Client
    holding = record c { partials = t }

    with_chunk-Holds :
        with_chunk opcode msg_id corr (length cs) total chunk holding ≡ part_of (cs ++ chunk ∷ [])
    unfolding with_chunk
    with_chunk-Holds = rw (h.part, store-numbered cs chunk) refl

    on_frame-several :
        2 ≤ total
        → on_frame codec opcode msg_id corr (length cs) total chunk holding
          ≡ collected codec opcode msg_id corr total (part_of (cs ++ chunk ∷ [])) holding
    unfolding on_frame
    on_frame-several two =
        let several : leb total 1 ≡ false = ground arith in
        rw several (ap (λ p. collected codec opcode msg_id corr total p holding) with_chunk-Holds)

    size : length (numbered 0 (cs ++ chunk ∷ [])) ≡ length cs + 1
    size = length-numbered 0 (cs ++ chunk ∷ []) ∙ length-append cs (chunk ∷ [])

    -- one chunk more, and others to come
    pub on_frame-more :
        2 ≤ total
        → length cs + 1 < total
        → on_frame codec opcode msg_id corr (length cs) total chunk holding
          ≡ reading
              (record c { partials = c.partials ++ (msg_id, part_of (cs ++ chunk ∷ [])) ∷ [] })
    on_frame-more two more =
        on_frame-several two
        ∙ collected-more (part_of (cs ++ chunk ∷ [])) t (omega (arith, size))
        ∙ ap (λ u. reading (record c { partials = u })) (h.stores (part_of (cs ++ chunk ∷ [])))

    -- the last chunk
    pub on_frame-last :
        2 ≤ total
        → length cs + 1 ≡ total
        → on_frame codec opcode msg_id corr (length cs) total chunk holding
          ≡ on_message codec opcode corr (concat (cs ++ chunk ∷ [])) c
    on_frame-last two last =
        let whole = cs ++ chunk ∷ [] in
        let count : length whole ≡ total = length-append cs (chunk ∷ []) ∙ last in
        on_frame-several two
        ∙ collected-last (part_of whole) t (concat whole) (omega (arith, size))
            (ap (λ n. join_chunks n 0 (numbered 0 whole)) (sym count) ∙ join_chunks-numbered whole)
        ∙ ap (λ u. on_message codec opcode corr (concat whole) (record c { partials = u }))
            (ap (discard msg_id) (h.stores (part_of whole))
              ∙ discard-newest msg_id (part_of whole) c.partials unknown)
