-- ===== src/Conffile/RoundTrip.antt =====
-- conffile.c: what is printed as a configuration file is read back.
use mathlib.Core.Path.{subst}
use exact.Base.{
  ℕ, zero, suc, ◌+◌, ◌≤◌, ◌<◌, true, false, some, List, [], ◌∷◌, ◌++◌, ◌≡◌, ◌≢◌, refl, sym, ap, ◌∙◌,
  Bytes, arith, lt→ltb, length, length-append, append_assoc, append-nil, All, All-append,
}
use exact.Libc.{Line, fgets, c_string}
use exact.Libc.Lines.{fgets-line, c_string-nonzero}
use exact.Outcome.{Trace, Ends, pure, ◌>>=◌}
use exact.Outcome.Laws.{Ends-bind, Ends-map}
use exact.Conffile.Param.{Param, Conf}
use exact.Conffile.File.{
  zap_comments, name_of, behind_name, skip_blanks, value_of, param_size, add_param, drop_last,
  add_line, read_line, read_loop, read_file,
}

-- A byte that can stand in a value; and one that can stand in a name.
abbrev pub IsPlain : ℕ → Type 0
IsPlain c = (c ≢ 0) × (c ≢ b'\n') × (c ≢ b'#')

abbrev pub IsNamePart : ℕ → Type 0
IsNamePart c = IsPlain c × (c ≢ b'\t') × (c ≢ b' ')

-- A parameter that a line of the file can hold.
pub record IsWritable (s : Bytes × Bytes) : Type 0 where
  pub name_plain : All IsNamePart s.0
  pub named : 0 < length s.0
  pub value_plain : All IsPlain s.1
  pub no_blank : skip_blanks s.1 ≡ s.1
  pub fits : length s.0 + length s.1 + 1 < 1022

abbrev pub line_of : Bytes × Bytes → Bytes
line_of s = s.0 ++ b'\t' ∷ s.1

abbrev pub print : List (Bytes × Bytes) → Bytes
print [] = []
print (s ∷ ss) = line_of s ++ b'\n' ∷ print ss

abbrev pub params_of : List (Bytes × Bytes) → List Param
params_of [] = []
params_of (s ∷ ss) = record { name = s.0; value = s.1; allocated = true } ∷ params_of ss

IsPlain-line : (l : Bytes) → All IsPlain l → All (λ c. c ≢ b'\n') l
IsPlain-line [] p = tt
IsPlain-line (c ∷ l) p = (p.0.1, IsPlain-line l p.1)

drop_last-append : (l : Bytes) (c : ℕ) → drop_last (l ++ c ∷ []) ≡ l
unfolding drop_last
drop_last-append [] c = refl
drop_last-append (d ∷ []) c = refl
drop_last-append (d ∷ e ∷ l) c = ap (◌∷◌ d) (drop_last-append (e ∷ l) c)

zap_comments-of_plain : (l : Bytes) → All IsPlain l → zap_comments l ≡ l
unfolding zap_comments
zap_comments-of_plain [] p = refl
zap_comments-of_plain (c ∷ l) p = ground (arith, zap_comments-of_plain l p.1)

name_of-line : (name v : Bytes) → All IsNamePart name → name_of (name ++ b'\t' ∷ v) ≡ name
unfolding name_of
name_of-line [] v p = refl
name_of-line (c ∷ name) v p = ground (arith, name_of-line name v p.1)

behind_name-line :
    (name v : Bytes) → All IsNamePart name → behind_name (name ++ b'\t' ∷ v) ≡ b'\t' ∷ v
unfolding behind_name
behind_name-line [] v p = refl
behind_name-line (c ∷ name) v p = ground (arith, behind_name-line name v p.1)

pub IsNamePart-IsPlain : (name : Bytes) → All IsNamePart name → All IsPlain name
IsNamePart-IsPlain [] p = tt
IsNamePart-IsPlain (c ∷ name) p = (p.0.0, IsNamePart-IsPlain name p.1)

IsPlain-nonzero : (s : Bytes) → All IsPlain s → All (λ c. c ≢ 0) s
IsPlain-nonzero [] p = tt
IsPlain-nonzero (c ∷ s) p = (p.0.0, IsPlain-nonzero s p.1)

module _ (s : Bytes × Bytes) (w : IsWritable s) where
  line_of-IsPlain : All IsPlain (line_of s)
  line_of-IsPlain =
      All-append IsPlain s.0 (b'\t' ∷ s.1) (IsNamePart-IsPlain s.0 w.name_plain)
        ((λ h. omega arith, λ h. omega arith, λ h. omega arith), w.value_plain)

  value_of-line : value_of (line_of s) ≡ s.1
  unfolding skip_blanks
  value_of-line = rw (behind_name-line s.0 s.1 w.name_plain) w.no_blank

  line_of-nonzero : All (λ c. c ≢ 0) (line_of s ++ b'\n' ∷ [])
  line_of-nonzero =
      All-append (λ c. c ≢ 0) (line_of s) (b'\n' ∷ []) (IsPlain-nonzero (line_of s) line_of-IsPlain)
        (λ h. omega arith, tt)

-- A round of the loop on a printed line stores its parameter.
abbrev LineAdded : Conf → Bytes × Bytes → Conf → Type 0
LineAdded conf s after = after ≡ record conf {
  param = conf.param ++ record { name = s.0; value = s.1; allocated = true } ∷ [];
}

read_line-cons :
    (l : Bytes) (c : ℕ) (cs : Bytes) (conf : Conf)
    → c_string l ≡ c ∷ cs
    → read_line l conf ≡ add_line (zap_comments (drop_last (c ∷ cs))) conf
unfolding read_line
read_line-cons l c cs conf h = rw (h, read_line) refl

add_line-line :
    (c : ℕ) (name v : Bytes) (conf : Conf)
    → IsWritable (c ∷ name, v)
    → length conf.param < param_size
    → Ends (λ _. ⊥) (LineAdded conf (c ∷ name, v)) (add_line (line_of (c ∷ name, v)) conf)
unfolding add_line add_param
add_line-line c name v conf w room =
    rw
      (
        name_of-line (c ∷ name) v w.name_plain,
        value_of-line (c ∷ name, v) w,
        lt→ltb (length conf.param) param_size room,
      )
      refl

read_line-line :
    (s : Bytes × Bytes) (conf : Conf)
    → IsWritable s
    → length conf.param < param_size
    → Ends (λ _. ⊥) (LineAdded conf s) (read_line (line_of s ++ b'\n' ∷ []) conf)
read_line-line ([], v) conf w room = absurd (omega (arith, w.named))
read_line-line (c ∷ name, v) conf w room =
    let s : Bytes × Bytes = (c ∷ name, v) in
    let cut = drop_last-append (line_of s) b'\n' in
    let clean = zap_comments-of_plain (line_of s) (line_of-IsPlain s w) in
    subst (λ m. Ends (λ _. ⊥) (LineAdded conf s) m)
      (sym (
        read_line-cons (line_of s ++ b'\n' ∷ []) c ((name ++ b'\t' ∷ v) ++ b'\n' ∷ []) conf
          (c_string-nonzero (line_of s ++ b'\n' ∷ []) (line_of-nonzero s w))
        ∙ ap (λ x. add_line (zap_comments x) conf) cut
        ∙ ap (λ x. add_line x conf) clean))
      (add_line-line c name v conf w room)

-- The table behind the file.
abbrev pub ReadBack : Conf → List (Bytes × Bytes) → Conf → Type 0
ReadBack conf ss after = after ≡ record conf { param = conf.param ++ params_of ss }

read_loop-end : (fuel : ℕ) (conf : Conf) → read_loop [] (suc fuel) [] conf ≡ pure conf
unfolding read_loop fgets
read_loop-end fuel conf = refl

pub read_loop-line :
    (stop : Trace) (fuel : ℕ) (file : Bytes) (l : Line) (conf : Conf)
    → fgets 1023 file ≡ some l
    → read_loop stop (suc fuel) file conf ≡ (read_line l.line conf >>= read_loop stop fuel l.unread)
unfolding read_loop
read_loop-line stop fuel file l conf h = rw (h, read_loop) refl

read_loop-print :
    (ss : List (Bytes × Bytes)) (fuel : ℕ) (conf : Conf)
    → All IsWritable ss
    → length ss < fuel
    → length conf.param + length ss ≤ param_size
    → Ends (λ _. ⊥) (ReadBack conf ss) (read_loop [] fuel (print ss) conf)
read_loop-print ss zero conf w enough room = absurd (omega arith)
read_loop-print [] (suc fuel) conf w enough room =
    subst (λ m. Ends (λ _. ⊥) (ReadBack conf []) m) (sym (read_loop-end fuel conf))
      (ap (λ ps. record conf { param = ps }) (sym (append-nil conf.param)))
read_loop-print (s ∷ ss) (suc fuel) conf w enough room =
    let p : Param = record { name = s.0; value = s.1; allocated = true } in
    let next : Conf = record conf { param = conf.param ++ p ∷ [] } in
    subst (λ m. Ends (λ _. ⊥) (ReadBack conf (s ∷ ss)) m)
      (sym (
        read_loop-line [] fuel (print (s ∷ ss))
          (record { line = line_of s ++ b'\n' ∷ []; unread = print ss; at_end = false }) conf
          (fgets-line 1023 (line_of s) (print ss) (IsPlain-line (line_of s) (line_of-IsPlain s w.0))
            (omega (arith, length-append s.0 (b'\t' ∷ s.1), w.0.fits)))))
      (Ends-bind (λ _. ⊥) (LineAdded conf s) (ReadBack conf (s ∷ ss))
        (read_line (line_of s ++ b'\n' ∷ []) conf) (read_loop [] fuel (print ss))
        (read_line-line s conf w.0 (omega arith))
        (λ c h.
          subst (λ x. Ends (λ _. ⊥) (ReadBack conf (s ∷ ss)) (read_loop [] fuel (print ss) x))
            (sym h)
            (Ends-map (λ _. ⊥) (λ _. ⊥) (ReadBack next ss) (ReadBack conf (s ∷ ss)) _
              (read_loop-print ss fuel next w.1 (omega arith)
                (omega (arith, room, length-append conf.param (p ∷ []))))
              (λ _ e. e)
              (λ x r.
                r
                ∙ ap (λ ps. record conf { param = ps })
                    (append_assoc conf.param (p ∷ []) (params_of ss))))))

print-length : (ss : List (Bytes × Bytes)) → length ss ≤ length (print ss)
print-length [] = omega arith
print-length (s ∷ ss) = omega (arith, print-length ss, length-append (line_of s) (b'\n' ∷ print ss))

-- A file of printed parameters, a tab between each name and value, with names free of blanks and
-- both free of newlines, zero bytes and comments, lines below 1022 bytes, and no more of them than the
-- table has places: reading it neither exits nor faults, and appends exactly these parameters, in
-- their order, to the table.
pub read_file-ReadBack :
    (ss : List (Bytes × Bytes)) (conf : Conf)
    → All IsWritable ss
    → length conf.param + length ss ≤ param_size
    → Ends (λ _. ⊥) (ReadBack conf ss) (read_file conf (some (print ss)))
unfolding read_file
read_file-ReadBack ss conf w room =
    Ends-bind (λ _. ⊥) (ReadBack conf ss) (ReadBack conf ss)
      (read_loop [] (length (print ss) + 1) (print ss) conf) _
      (read_loop-print ss (length (print ss) + 1) conf w (omega (arith, print-length ss)) room)
      (λ c h. h)
