-- ===== src/Exact/Lines.antt =====
-- A pass hands on the complete lines of the buffer in their order, and drops what follows the last.
use mathlib.Core.Path.{fun_ext}
use exact.Base.{
  ℕ, ◌+◌, false, ◌||◌, List, [], ◌∷◌, ◌++◌, ◌≡◌, ◌≢◌, sym, ap, ◌∙◌, Bytes, arith, ◌==◌, All,
  append_assoc, append-nil,
}
use exact.Os.{Os}
use exact.Outcome.{Outcome, ◌>>=◌, pure}
use exact.Exact.{World, handle_line, scan_lines}

-- A byte that does not end a line.
abbrev pub IsInner : ℕ → Type 0
IsInner c = (c ≢ b'\n') × (c ≢ 0)

abbrev pub unlines : List Bytes → Bytes
unlines [] = []
unlines (l ∷ ls) = l ++ b'\n' ∷ unlines ls

abbrev pub handle_lines : (ℕ → Os) → ℕ → List Bytes → World → Outcome World
handle_lines os k [] w = pure w
handle_lines os k (l ∷ ls) w = handle_line (os k) l w >>= handle_lines os (k + 1) ls

module _ (os : ℕ → Os) where
  scan_lines-line :
      (k : ℕ) (line l rest : Bytes) (w : World)
      → All IsInner l
      → scan_lines os k line (l ++ rest) w ≡ scan_lines os k (line ++ l) rest w
  unfolding scan_lines
  scan_lines-line k line [] rest w h = rw append-nil
  scan_lines-line k line (c ∷ l) rest w h =
      let inner : (c == b'\n' || c == 0) ≡ false = ground arith in
      rw inner (
        scan_lines-line k (line ++ c ∷ []) l rest w h.1
        ∙ ap (λ x. scan_lines os k x rest w) (append_assoc line (c ∷ []) l))

  -- On a buffer of whole lines and a last part without its newline, all free of newlines and
  -- zero bytes inside, the byte loop of a pass is the handling of the whole lines, each as it
  -- stands and in order; the last part is dropped.
  pub scan_lines-unlines :
      (ls : List Bytes) (k : ℕ) (partial : Bytes) (w : World)
      → All (All IsInner) ls
      → All IsInner partial
      → scan_lines os k [] (unlines ls ++ partial) w ≡ handle_lines os k ls w
  unfolding scan_lines
  scan_lines-unlines [] k partial w h p =
      ap (λ b. scan_lines os k [] b w) (sym (append-nil partial))
      ∙ scan_lines-line k [] partial [] w p
  scan_lines-unlines (l ∷ ls) k partial w h p =
      let later = unlines ls ++ partial in
      ap (λ b. scan_lines os k [] b w) (append_assoc l (b'\n' ∷ unlines ls) partial)
      ∙ scan_lines-line k [] l (b'\n' ∷ later) w h.0
      ∙ ap (λ f. handle_line (os k) l w >>= f)
          (fun_ext λ v. scan_lines-unlines ls (k + 1) partial v h.1 p)
