-- ===== src/Exact/Follow.antt =====
-- exact.c: a whole pass, from the log to the table.
use mathlib.Core.Path.{subst}
use exact.Base.{ap, suc, false, ltb, lt→ltb}
use exact.Base.{
  ℕ, ◌+◌, ◌-◌, ◌^◌, ◌≤◌, ◌<◌, Option, none, some, List, [], ◌∷◌, ◌++◌, ◌≡◌, refl, sym, ◌∙◌, Bytes,
  codes, arith, ◌==◌, ◌||◌, if◌then◌else◌, length, take, drop, take_all, length-drop, All,
}
use exact.Os.{Os}
use exact.Outcome.{Outcome, Ends, pure, deref, ◌>>=◌}
use exact.Outcome.Laws.{Ends-bind, Ends-map, after_nil}
use exact.Outcome.Returns.{
  Returns, Returns-bind, Returns-then, Returns-pure, Returns-map, Returns-if, Returns-fault,
  Ends-Returns,
}
use exact.Conffile.Param.{Conf, conffile_param}
use exact.Auth.Table.Sorted.{times}
use exact.Auth.Handlers.{auth_add}
use exact.Match.{match_line}
use exact.Match.Login.{MatchLogin, username, hostname}
use exact.Match.Reads.{NonZero}
use exact.Tail.{Tail, tail_read}
use exact.Tail.Reading.{Follows, HasRead, tail_read-HasRead}
use exact.Exact.{World, add_login, handle_line, scan_lines, scan_buffer, onepass}
use exact.Exact.Lines.{IsInner, unlines, handle_lines, scan_lines-unlines}
use exact.Exact.Pass.{Verdicts, note_all, Runs, Handled, GivesUp, handle_lines-Ends}

-- The lines of a pass leave the log's state alone.
abbrev pub SameTail : World → World → Type 0
SameTail w w' = w'.tail ≡ w.tail

add_login-SameTail :
    (os : Os) (w : World) (found : Option MatchLogin) → Returns (SameTail w) (add_login os w found)
unfolding add_login Returns
add_login-SameTail os w none = refl
add_login-SameTail os w (some l) =
    Returns-then (SameTail w) (auth_add os w.conf (username l) (hostname l) w.auth) _
      (λ a. Returns-pure (SameTail w) (record w { auth = a; login = l }) refl)

handle_line-SameTail :
    (os : Os) (line : Bytes) (w : World) → Returns (SameTail w) (handle_line os line w)
unfolding handle_line
handle_line-SameTail os line w =
    Returns-then (SameTail w) (match_line os w.conf w.patbuf line w.login) _
      (add_login-SameTail os w)

pub scan_lines-SameTail :
    (os : ℕ → Os) (k : ℕ) (line s : Bytes) (w : World)
    → Returns (SameTail w) (scan_lines os k line s w)
unfolding scan_lines
scan_lines-SameTail os k line [] w = Returns-pure (SameTail w) w refl
scan_lines-SameTail os k line (c ∷ cs) w =
    Returns-if (SameTail w) (c == b'\n' || c == 0) _ _
      (Returns-bind (SameTail w) (SameTail w) (handle_line (os k) line w) _
        (handle_line-SameTail (os k) line w)
        (λ a same.
          Returns-map (SameTail a) (SameTail w) (scan_lines os (k + 1) [] cs a)
            (scan_lines-SameTail os (k + 1) [] cs a) (λ b h. h ∙ same)))
      (scan_lines-SameTail os k (line ++ c ∷ []) cs w)

pub scan_buffer-SameTail :
    (os : ℕ → Os) (len : ℕ) (bytes : Bytes) (w : World)
    → Returns (SameTail w) (scan_buffer os len bytes w)
unfolding scan_buffer
scan_buffer-SameTail os len bytes w =
    Returns-if (SameTail w) (ltb len (2 ^ 31)) _ _ (scan_lines-SameTail os 0 [] bytes w) (
      Returns-then (SameTail w) (scan_lines os 0 [] (take (2 ^ 31) bytes) w) _
        (λ _. Returns-fault (SameTail w) []))

-- The index does not overflow on less than 2 GiB.
scan_buffer-short :
    (os : ℕ → Os) (len : ℕ) (bytes : Bytes) (w : World)
    → len < 2 ^ 31
    → scan_buffer os len bytes w ≡ scan_lines os 0 [] bytes w
unfolding scan_buffer
scan_buffer-short os len bytes w few = rw (lt→ltb len (2 ^ 31) few) refl

handle_lines-SameTail :
    (os : ℕ → Os) (k : ℕ) (ls : List Bytes) (w : World)
    → Returns (SameTail w) (handle_lines os k ls w)
handle_lines-SameTail os k [] w = Returns-pure (SameTail w) w refl
handle_lines-SameTail os k (l ∷ ls) w =
    Returns-bind (SameTail w) (SameTail w) (handle_line (os k) l w) (handle_lines os (k + 1) ls)
      (handle_line-SameTail (os k) l w)
      (λ a same.
        Returns-map (SameTail a) (SameTail w) (handle_lines os (k + 1) ls a)
          (handle_lines-SameTail os (k + 1) ls a) (λ b h. h ∙ same))

positive : (n : ℕ) → (suc n == 0) ≡ false
positive n = ground arith

-- The buffer that a pass scans is what the read left.
scanned :
    (o : Option Bytes) (n : ℕ) (s : Bytes) (k : Bytes → Outcome World)
    → o ≡ some s
    → n ≡ length s
    → ((if n == 0 then pure [] else deref o) >>= (λ b. k (take n b))) ≡ k s
scanned o n [] k is len = rw (is, len) (after_nil (k []))
scanned o n (c ∷ cs) k is len =
    rw (is, len, positive (length cs))
      (after_nil (k (take (length (c ∷ cs)) (c ∷ cs)))
        ∙ ap k (take_all (length (c ∷ cs)) (c ∷ cs) (omega arith)))

IsInner-NonZero : (l : Bytes) → All IsInner l → NonZero l
IsInner-NonZero [] h = tt
IsInner-NonZero (c ∷ l) h = (h.0.1, IsInner-NonZero l h.1)

All-NonZero : (ls : List Bytes) → All (All IsInner) ls → All NonZero ls
All-NonZero [] h = tt
All-NonZero (l ∷ ls) h = (IsInner-NonZero l h.0, All-NonZero ls h.1)

module _ (conf : Conf) (temp file order pattern_ : Bytes)
    (has_temp : conffile_param conf (codes "authtemp") ≡ some temp)
    (has_file : conffile_param conf (codes "authfile") ≡ some file)
    (has_order : conffile_param conf (codes "order") ≡ some order) (os : Os)
    (line_os : ℕ → Os) where
  -- The world behind a pass: the map of hosts as stated, and the log read to its end.
  abbrev pub Passed : (Bytes → Option ℕ) → ℕ → ℕ → World → Type 0
  Passed f current paws w =
      Handled conf temp file order pattern_ has_temp has_file has_order f w
      × HasRead os.stream current paws w.tail

  module _ (w : World) (current : ℕ) (ls : List Bytes) (partial : Bytes)
      (vs : Verdicts conf temp file order pattern_ has_temp has_file has_order line_os 0 ls) where
    abbrev pub Gives : ℕ → Type 0
    Gives = GivesUp conf temp file order pattern_ has_temp has_file has_order line_os

    abbrev pub After : World → Type 0
    After =
        Passed
          (note_all conf temp file order pattern_ has_temp has_file has_order line_os 0 ls vs
            (times w.auth.auth))
          current w.tail.paws

    pass_lines :
        (t : Tail)
        → HasRead os.stream current w.tail.paws t
        → Runs conf temp file order pattern_ has_temp has_file has_order w
        → All (All IsInner) ls
        → Ends Gives After (handle_lines line_os 0 ls (record w { tail = t }))
    pass_lines t r run inner =
        let w' : World = record w { tail = t } in
        let f =
          note_all conf temp file order pattern_ has_temp has_file has_order line_os 0 ls vs
            (times w.auth.auth) in
        let H = Handled conf temp file order pattern_ has_temp has_file has_order f in
        Ends-map Gives Gives (λ x. H x × SameTail w' x) After (handle_lines line_os 0 ls w')
          (Ends-Returns Gives H (SameTail w') (handle_lines line_os 0 ls w')
            (handle_lines-Ends conf temp file order pattern_ has_temp has_file has_order line_os 0
              ls vs w' (times w.auth.auth)
              (
                record {
                  conf_is = run.conf_is;
                  pattern_is = run.pattern_is;
                  sound = record { valid = run.sound.valid; memory = run.sound.memory };
                },
                λ k. refl,
              )
              (All-NonZero ls inner))
            (handle_lines-SameTail line_os 0 ls w'))
          (λ _ e. e) (λ x h. (h.0, rw h.1 r))

    -- In a world that is set up, with the log open at a position, lively, grown by less than 2 GiB, and
    -- its new bytes being whole lines and a last part without a newline: a whole pass never faults. It
    -- gives up where the system refuses memory or a file; or it leaves a valid world in which each whole
    -- line's login is noted, in order and nothing else, and the log read to its end.
    pub onepass-Ends :
        Runs conf temp file order pattern_ has_temp has_file has_order w
        → Follows os conf w.tail current
        → current ≤ length os.stream
        → length os.stream - current < 2 ^ 31
        → drop current os.stream ≡ unlines ls ++ partial
        → All (All IsInner) ls
        → All IsInner partial
        → Ends Gives After (onepass os line_os w)
    unfolding onepass
    onepass-Ends run fo grown few cut inner partial_inner =
        Ends-bind Gives (HasRead os.stream current w.tail.paws) After (tail_read os w.conf w.tail) _
          (Ends-map (λ _. ⊥) Gives (HasRead os.stream current w.tail.paws) _ _
            (rw run.conf_is
              (tail_read-HasRead os conf w.tail current fo grown (omega (arith, few))))
            (λ _ e. absurd e) (λ _ r. r))
          (λ t r.
            let w' : World = record w { tail = t } in
            subst (λ m. Ends Gives After m)
              (sym (
                scanned t.tail_buff t.tail_bufflen (drop current os.stream)
                  (λ b. scan_buffer line_os t.tail_bufflen b w') r.buff
                  (r.bufflen ∙ sym (length-drop current os.stream))
                ∙ scan_buffer-short line_os t.tail_bufflen (drop current os.stream) w'
                    (omega (arith, r.bufflen, few))
                ∙ ap (λ b. scan_lines line_os 0 [] b w') cut
                ∙ scan_lines-unlines line_os ls 0 partial w' inner partial_inner))
              (pass_lines t r run inner))
