-- ===== src/Scanner/Writer/Kept.antt =====
-- What becomes of the results that the goroutine takes.
use xray_knife.Prelude.{ℕ, Bool, true, false, List, [], ◌∷◌, ◌++◌, Option, if◌then◌else◌}
use xray_knife.Text.{Text}
use xray_knife.Scanner.{Speeds, ScannerConfig}
use xray_knife.Scanner.Writer.{Writer, WriterEvent, received, cancelled, closed}

module _ {S : Type 0} (sp : Speeds S) (c : ScannerConfig) (refuses : ℕ → Option Text) where
  abbrev pub took : WriterEvent S → List ℕ
  took (received n room) = n ∷ []
  took _ = []

  abbrev pub ends : WriterEvent S → Bool
  ends cancelled = true
  ends closed = true
  ends _ = false

  -- The results that the goroutine takes before it returns.
  abbrev pub taken_from : List (WriterEvent S) → List ℕ
  taken_from [] = []
  taken_from (e ∷ es) = took e ++ (let rest = taken_from es in if ends e then [] else rest)
