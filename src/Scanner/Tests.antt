-- ===== src/Scanner/Tests.antt =====
-- Lines of NanoC that src/nc_scanner.c cuts into tokens.
use nanoc.Base.{ℕ, List, [], ◌∷◌, Ensures}
use nanoc.Scanner.{nc_scanner}
use nanoc.Scanner.Progress.{Scanned, nc_scanner-Scanned}

-- ` A$=0x1f`
abbrev assignment : List ℕ
assignment = 32 ∷ b'A' ∷ b'$' ∷ b'=' ∷ b'0' ∷ b'x' ∷ b'1' ∷ b'f' ∷ []

nc_scanner-Scanned_example : Ensures (nc_scanner assignment) (Scanned assignment)
nc_scanner-Scanned_example = nc_scanner-Scanned assignment
