-- ===== src/Memory/Climb.antt =====
-- The walk of `InstructionMemory.discover` (davinci/memory.py) up the directories.
use davinci_agent.Prelude.{
  ℕ, zero, suc, ◌<◌, ◌≡◌, ◌≢◌, String, count, false, Option, none, List, [], ◌∷◌, arith, ◌==◌,
  if◌then◌else◌,
}
use davinci_agent.Memory.Instructions.{Files, InstructionMemory, climb, or_root, discover, filename}

climb_ends :
    (fs : Files)
    → ((p : String) → (fs.dirname p == p) ≡ false → count (fs.dirname p) < count p)
    → (fuel : ℕ) (stop cur : String) (chain : List String) → count cur < fuel
    → climb fs fuel stop cur chain ≢ none
unfolding climb
climb_ends fs shrinks zero stop cur chain h = omega arith
climb_ends fs shrinks (suc fuel) stop cur chain h =
    let candidate = fs.join_path cur filename in
    let chain' : List String = if fs.isfile candidate then candidate ∷ chain else chain in
    ground (arith, shrinks cur, climb_ends fs shrinks fuel stop (fs.dirname cur) chain')

-- Where `os.path.dirname` shortens every path that it changes, fuel above the length of the start's
-- absolute path is enough for `discover`.
pub discover_ends :
    (fs : Files)
    → ((p : String) → (fs.dirname p == p) ≡ false → count (fs.dirname p) < count p)
    → (fuel : ℕ) (start_dir : String) (root_dir : Option String) (m : InstructionMemory)
    → count (fs.abspath start_dir) < fuel
    → discover fs fuel start_dir root_dir m ≢ none
unfolding discover
discover_ends fs shrinks fuel start_dir root_dir m h = ground (
  arith,
  climb_ends fs shrinks fuel (fs.abspath (or_root fs root_dir)) (fs.abspath start_dir) [] h,
)
