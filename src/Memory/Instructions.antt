-- ===== src/Memory/Instructions.antt =====
-- `InstructionMemory` of davinci/memory.py. The file system is a parameter: `isfile`, reading a file
-- (`none` is an `OSError`), and the functions of `os.path`.
use davinci_agent.Prelude.{
  ℕ, zero, suc, String, ◌<>◌, Bool, true, false, not, ◌||◌, Option, none, some, List, [], ◌∷◌, ◌++◌,
  map, ◌==◌, if◌then◌else◌,
}
use davinci_agent.Prelude.Text.{strip, join}

pub record Block : Type 0 where
  pub source : String
  pub text : String

abbrev pub InstructionMemory : Type 0
InstructionMemory = List Block

pub record Files : Type 0 where
  pub isfile : String → Bool
  pub read : String → Option String
  pub abspath : String → String
  pub dirname : String → String
  pub join_path : String → String → String
  pub sep : String

-- `FILENAME`
abbrev pub filename : String
filename = "DAVINCI.md"

-- `InstructionMemory.add_inline`
unfoldable pub add_inline : String → String → InstructionMemory → InstructionMemory
add_inline text source m =
    if strip text == "" then m else m ++ record { source = source; text = strip text } ∷ []

-- `InstructionMemory.render`
unfoldable pub render : InstructionMemory → String
render [] = ""
render (x ∷ m) =
    join "\n\n" (map (λ b. "## Instructions from " <> b.source <> "\n" <> b.text) (x ∷ m))

module _ (fs : Files) where
  -- `InstructionMemory.load_file`
  unfoldable pub load_file : String → InstructionMemory → Bool × InstructionMemory
  load_file path m =
      if not (path == "")
      then (if fs.isfile path
          then (elim (fs.read path) [
            | none ↦ (false, m)
            | some text ↦ (true, m ++ record { source = path; text = strip text } ∷ [])
          ])
          else (false, m))
      else (false, m)

  unfoldable pub load_files : List String → InstructionMemory → InstructionMemory
  unfolding load_file
  load_files [] m = m
  load_files (path ∷ paths) m = load_files paths (load_file path m).1

  -- The walk upward, on fuel; `none` is its end. The files stand outermost first.
  unfoldable pub climb : ℕ → String → String → List String → Option (List String)
  climb zero stop cur chain = none
  climb (suc fuel) stop cur chain =
      let candidate = fs.join_path cur filename in
      let chain' = if fs.isfile candidate then candidate ∷ chain else chain in
      let rest = climb fuel stop (fs.dirname cur) chain' in
      if (cur == stop) || (fs.dirname cur == cur) then some chain' else rest

  -- `root_dir`, or the root of the file system
  unfoldable pub or_root : Option String → String
  or_root none = fs.sep
  or_root (some root) = if root == "" then fs.sep else root

  -- `InstructionMemory.discover`
  unfoldable pub discover :
      ℕ → String → Option String → InstructionMemory → Option InstructionMemory
  unfolding or_root
  discover fuel start_dir root_dir m =
      elim (climb fuel (fs.abspath (or_root root_dir)) (fs.abspath start_dir) []) [
        | none ↦ none
        | some chain ↦ some (load_files chain m)
      ]
