-- ===== src/Prelude/Int.antt =====
-- Python's `int`. `negsuc n` is -(n + 1).
use Prim.Native.Nat.{ℕ, suc}
use Prim.Native.String.{String, ◌++◌}
use davinci_agent.Prelude.Text

pub data ℤ : Type 0 where
  pos : ℕ → ℤ
  negsuc : ℕ → ℤ

-- str(n)
unfoldable pub show : ℤ → String
show (pos n) = Text.show n
show (negsuc n) = "-" ++ Text.show (suc n)
