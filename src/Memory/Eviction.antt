-- ===== src/Memory/Eviction.antt =====
-- The ordered dict of `SessionMemory` (davinci/memory.py) and its eviction loop.
use davinci_agent.Prelude.{
  ℕ, zero, suc, ◌≤◌, ◌≡◌, refl, sym, String, true, false, [], ◌∷◌, ◌++◌, arith, lt→ltb,
  take_last-append, take_last_all, Bool-cases, inl, inr, length, length-take_last, drop, take_last,
  All, ◌==◌, eq_iff, if◌then◌else◌,
}
use native.Mathlib.Decide.{dec_lt}
use davinci_agent.Prelude.Dict.{Dict, has, lookup, remove, IsDistinct}
use davinci_agent.Memory.Session.{evict, write}

module _ {V : Type 0} where
  -- The eviction loop drops entries from the old end until the dict fits.
  pub evict-eq-take_last : (n : ℕ) (d : Dict V) → evict n d ≡ take_last n d
  unfolding evict
  evict-eq-take_last n [] = ground arith
  evict-eq-take_last n (e ∷ es) = elim (dec_lt n (length (e ∷ es))) [
    | yes long ↦
        rw (lt→ltb _ _ long, evict-eq-take_last n es)
          (sym (take_last-append n (e ∷ []) es (omega arith)))
    | no short ↦ ground (arith, take_last_all n (e ∷ es) (omega arith))
  ]

  pub length-evict : (n : ℕ) (d : Dict V) → length (evict n d) ≤ n
  length-evict n d = rw evict-eq-take_last (omega (arith, length-take_last n d))

  pub length-write : (sid : String) (v : V) (d : Dict V) → length (write sid v d) ≡ length d
  unfolding write
  length-write sid v [] = refl
  length-write sid v ((k, w) ∷ d) = ground (arith, length-write sid v d)

  -- a write to the newest entry
  pub write-newest :
      (sid : String) (v w : V) (d : Dict V)
      → has sid d ≡ false
      → write sid v (d ++ (sid, w) ∷ []) ≡ d ++ (sid, v) ∷ []
  unfolding write has
  write-newest sid v w [] h = ground (arith, eq_iff sid sid)
  write-newest sid v w ((k, u) ∷ d) h = ground (arith, write-newest sid v w d)

  pub has-remove : (sid k : String) (d : Dict V) → has k d ≡ false → has k (remove sid d) ≡ false
  unfolding has remove
  has-remove sid k [] h = refl
  has-remove sid k ((j, w) ∷ d) h = ground (arith, has-remove sid k d)

  pub remove-removes : (sid : String) (d : Dict V) → IsDistinct d → has sid (remove sid d) ≡ false
  unfolding has remove IsDistinct
  remove-removes sid [] h = refl
  remove-removes sid ((j, w) ∷ d) h =
      ground (arith, eq_iff j sid, eq_iff sid j, remove-removes sid d)

  pub has-drop : (n : ℕ) (k : String) (d : Dict V) → has k d ≡ false → has k (drop n d) ≡ false
  unfolding has
  has-drop zero k d h = h
  has-drop (suc n) k [] h = refl
  has-drop (suc n) k ((j, w) ∷ d) h = has-drop n k d (ground arith)

  pub drop-IsDistinct : (n : ℕ) (d : Dict V) → IsDistinct d → IsDistinct (drop n d)
  unfolding IsDistinct
  drop-IsDistinct zero d h = h
  drop-IsDistinct (suc n) [] h = tt
  drop-IsDistinct (suc n) ((j, w) ∷ d) h = drop-IsDistinct n d h.1

  pub remove-IsDistinct : (sid : String) (d : Dict V) → IsDistinct d → IsDistinct (remove sid d)
  unfolding IsDistinct remove
  remove-IsDistinct sid [] h = tt
  remove-IsDistinct sid ((j, w) ∷ d) h = ground (arith, remove-IsDistinct sid d, has-remove sid j d)

  has-append : (k : String) (d e : Dict V) → has k (d ++ e) ≡ (if has k d then true else has k e)
  unfolding has
  has-append k [] e = refl
  has-append k ((j, w) ∷ d) e = ground (arith, has-append k d e)

  pub lookup-append : (k : String) (d e : Dict V) → has k d ≡ false → lookup k (d ++ e) ≡ lookup k e
  unfolding has lookup
  lookup-append k [] e h = refl
  lookup-append k ((j, w) ∷ d) e h = ground (arith, lookup-append k d e)

  pub snoc-IsDistinct :
      (sid : String) (v : V) (d : Dict V)
      → has sid d ≡ false
      → IsDistinct d
      → IsDistinct (d ++ (sid, v) ∷ [])
  unfolding IsDistinct has
  snoc-IsDistinct sid v [] h k = (refl, tt)
  snoc-IsDistinct sid v ((j, w) ∷ d) h k = (
    ground (arith, eq_iff j sid, eq_iff sid j, has-append j d ((sid, v) ∷ [])),
    snoc-IsDistinct sid v d (ground arith) k.1,
  )

  pub remove-All :
      (P : String × V → Type 0) (sid : String) (d : Dict V) → All P d → All P (remove sid d)
  unfolding remove
  remove-All P sid [] h = tt
  remove-All P sid ((j, w) ∷ d) h = elim (Bool-cases (j == sid)) [
    | inl e ↦ rw e h.1
    | inr e ↦ rw e (h.0, remove-All P sid d h.1)
  ]

  pub length-remove-le : (sid : String) (d : Dict V) → length (remove sid d) ≤ length d
  unfolding remove
  length-remove-le sid [] = omega arith
  length-remove-le sid ((j, w) ∷ d) = ground (arith, length-remove-le sid d)
