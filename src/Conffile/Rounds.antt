-- ===== src/Conffile/Rounds.antt =====
-- conffile.c: the loop over the file's lines ends, and the fuel of its model is enough.
use mathlib.Core.Path.{fun_ext, subst}
use exact.Base.{
  ℕ, zero, suc, ◌≤◌, ◌<◌, none, some, [], ◌∷◌, ◌≡◌, refl, sym, ap, ◌∙◌, Bytes, inl, inr, arith,
  ◌==◌, length, Option-cases, Bool-cases,
}
use exact.Libc.{Line, fgets, fgets_room}
use exact.Outcome.{Trace, pure, ◌>>=◌}
use exact.Conffile.Param.{Conf}
use exact.Conffile.File.{read_line, read_loop}
use exact.Conffile.RoundTrip.{read_loop-line}

fgets_room-shorter : (room : ℕ) (s : Bytes) → length (fgets_room room s).unread ≤ length s
unfolding fgets_room
fgets_room-shorter zero s = omega arith
fgets_room-shorter (suc room) [] = omega arith
fgets_room-shorter (suc room) (c ∷ cs) = elim (Bool-cases (c == b'\n')) [
  | inl ended ↦ rw ended (omega arith)
  | inr going ↦ rw going (omega (arith, fgets_room-shorter room cs))
]

fgets_room-takes :
    (room : ℕ) (c : ℕ) (cs : Bytes) → length (fgets_room (suc room) (c ∷ cs)).unread ≤ length cs
unfolding fgets_room
fgets_room-takes room c cs = elim (Bool-cases (c == b'\n')) [
  | inl ended ↦ rw ended (omega arith)
  | inr going ↦ rw going (fgets_room-shorter room cs)
]

line_inj : (a b : Line) → some a ≡ some b → a ≡ b
line_inj a b h = cc

pub line-shorter :
    (room : ℕ) (c : ℕ) (cs : Bytes) (l : Line)
    → some (fgets_room (suc room) (c ∷ cs)) ≡ some l
    → length l.unread < suc (length cs)
line-shorter room c cs l h =
    subst (λ (x : Line). length x.unread < suc (length cs))
      (line_inj (fgets_room (suc room) (c ∷ cs)) l h) (omega (arith, fgets_room-takes room c cs))

-- A call that gives a line takes a byte at least.
fgets-shorter : (file : Bytes) (l : Line) → fgets 1023 file ≡ some l → length l.unread < length file
unfolding fgets
fgets-shorter [] l h = absurd (cc)
fgets-shorter (c ∷ cs) l h = line-shorter 1021 c cs l h

read_loop-none :
    (stop : Trace) (fuel : ℕ) (file : Bytes) (conf : Conf)
    → fgets 1023 file ≡ none
    → read_loop stop (suc fuel) file conf ≡ pure conf
unfolding read_loop
read_loop-none stop fuel file conf h = rw (h, read_loop) refl

-- Every two amounts of fuel above the number of the file's bytes, such as the one that the reading
-- uses, give the same outcome of the loop over the file's lines, whatever two results stand for being
-- out of fuel: the loop ends in fewer rounds than that, and is never out of fuel.
pub read_loop-rounds :
    (stop other : Trace) (fuel more : ℕ) (file : Bytes) (conf : Conf)
    → length file < fuel
    → length file < more
    → read_loop stop fuel file conf ≡ read_loop other more file conf
read_loop-rounds stop other zero more file conf h k = absurd (omega arith)
read_loop-rounds stop other (suc fuel) zero file conf h k = absurd (omega arith)
read_loop-rounds stop other (suc fuel) (suc more) file conf h k =
    elim (Option-cases (fgets 1023 file)) [
      | inl ended ↦
          read_loop-none stop fuel file conf ended ∙ sym (read_loop-none other more file conf ended)
      | inr (l, line) ↦
          let shorter = fgets-shorter file l line in
          read_loop-line stop fuel file l conf line
          ∙ ap (λ go. read_line l.line conf >>= go)
              (fun_ext (λ c.
                read_loop-rounds stop other fuel more l.unread c (omega (arith, shorter))
                  (omega (arith, shorter))))
          ∙ sym (read_loop-line other more file l conf line)
    ]
