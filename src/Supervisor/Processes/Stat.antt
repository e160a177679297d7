-- ===== src/Supervisor/Processes/Stat.antt =====
-- internal/supervisor/procfs.go: parseStat reads the line that the kernel prints.
use lemul.Prelude.{◌≡◌, ◌≢◌, List, [], ◌∷◌, ◌++◌, false, All}
use lemul.Prelude.Text.{Bytes}
use lemul.Prelude.Int.{ℤ}
use lemul.Strconv.{itoa}
use lemul.Supervisor.Processes.{is_space}

abbrev pub IsSolid : Bytes → Type 0
IsSolid w = All (λ c. is_space c ≡ false) w

-- The words that follow the name, each behind a space.
unfoldable pub spaced : List Bytes → Bytes
spaced [] = []
spaced (w ∷ ws) = 32 ∷ (w ++ spaced ws)

-- A word of the line: no white space, no closing bracket, and not empty.
pub record IsWord (w : Bytes) : Type 0 where
  pub solid : IsSolid w
  pub bracketless : All (λ c. c ≢ b')') w
  pub filled : w ≢ []

-- The line of /proc/<pid>/stat: the number, the name in brackets, and the words.
unfoldable pub stat_line : ℤ → Bytes → List Bytes → Bytes
stat_line pid name ws = (itoa pid ++ (32 ∷ [])) ++ (b'(' ∷ (name ++ (b')' ∷ spaced ws)))
