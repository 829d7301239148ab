-- ===== src/Exact/Run/Published.antt =====
-- exact.c, auth.c: what a pass does to the relay file.
use mathlib.Core.Path.{subst}
use exact.Base.{
  ltb, ◌^◌, ℕ, ◌+◌, Option, none, some, List, [], ◌∷◌, ◌++◌, ◌≡◌, sym, Bytes, codes, ◌==◌, ◌||◌,
  if◌then◌else◌, take,
}
use exact.Os.{Os}
use exact.Outcome.Files.{Printing, Apart}
use exact.Outcome.{Outcome, ◌>>=◌, pure, fault, deref}
use exact.Outcome.Quiet.{IsQuiet, quiet}
use exact.Outcome.Triple.{
  Content, Triple, Triple-bind, Triple-pure, Triple-if, Triple-fact, IsQuiet-Triple,
}
use exact.Conffile.Param.{Conf, conffile_param}
use exact.Auth.Table.{Entry, Auth}
use exact.Auth.Handlers.{auth_add}
use exact.Auth.Relay.{Kept, Shown, Whole}
use exact.Auth.Relay.Add.{auth_text_add-Publishes}
use exact.Match.{match_line}
use exact.Match.Login.{MatchLogin, username, hostname}
use exact.Tail.{tail_read}
use exact.Exact.{World, add_login, handle_line, scan_lines, scan_buffer, onepass}
use exact.Exact.Run.Quiet.{tail_read-IsQuiet, match_line-IsQuiet}

module _ (printing : Printing) (conf : Conf) (temp file : Bytes) (apart : Apart printing temp file)
    (has_temp : conffile_param conf (codes "authtemp") ≡ some temp)
    (has_file : conffile_param conf (codes "authfile") ≡ some file) where
  module _ (T : List Entry → Type 0) where
    -- The configuration is the same, and the relay file lists the table.
    abbrev pub Tells : World → Content
    Tells w c = (w.conf ≡ conf) × Shown T w.auth.auth c

    abbrev pub Keeps : World → Outcome World → Type 0
    Keeps w m = Triple printing file (Whole T) (Tells w) Tells m

    pub pure-Keeps : (w : World) → Keeps w (pure w)
    pure-Keeps w =
        Triple-pure printing file (Whole T) (Tells w) Tells w (λ c t. ((w.auth.auth, t.1), t))

    -- A first call that leaves the files alone.
    pub first :
        {A : Type 0} (w : World) (m : Outcome A) (f : A → Outcome World)
        → IsQuiet m
        → ((a : A) → Keeps w (f a))
        → Keeps w (m >>= f)
    first w m f q k =
        Triple-bind printing file (Whole T) (Tells w) (λ _. Tells w) Tells m f
          (IsQuiet-Triple printing file apart.1 (Whole T) (Tells w) m q (λ c t. (w.auth.auth, t.1)))
          k

    -- An operation on the table.
    pub on_table :
        (w : World) (op : Conf → Outcome Auth) (login : MatchLogin)
        → Triple printing file (Whole T) (Shown T w.auth.auth) (λ b. Shown T b.auth) (op conf)
        → Keeps w (op w.conf >>= λ a. pure (record w { auth = a; login = login }))
    on_table w op login h =
        Triple-fact printing file (Whole T) (Shown T w.auth.auth) (w.conf ≡ conf) Tells _ (λ is.
          Triple-bind printing file (Whole T) (Shown T w.auth.auth) (λ b. Shown T b.auth) Tells
            (op w.conf) _
            (subst
              (λ c.
                Triple printing file (Whole T) (Shown T w.auth.auth) (λ b. Shown T b.auth) (op c))
              (sym is) h)
            (λ a.
              Triple-pure printing file (Whole T) (Shown T a.auth) Tells
                (record w { auth = a; login = login }) (λ c s. ((a.auth, s), (is, s)))))

    module _ (kept : Kept T) where
      add_login-Keeps :
          (os : Os) (w : World) (l : Option MatchLogin)
          → os.fclose temp ≡ none
          → Keeps w (add_login os w l)
      unfolding add_login auth_add
      add_login-Keeps os w none room = pure-Keeps w
      add_login-Keeps os w (some l) room =
          on_table w (λ c. auth_add os c (username l) (hostname l) w.auth) l
            (auth_text_add-Publishes printing conf temp file apart has_temp has_file T kept os room
              (username l) (hostname l) w.auth)

      handle_line-Keeps :
          (os : Os) (line : Bytes) (w : World)
          → os.fclose temp ≡ none
          → Keeps w (handle_line os line w)
      unfolding handle_line
      handle_line-Keeps os line w room =
          first w (match_line os w.conf w.patbuf line w.login) (add_login os w)
            (match_line-IsQuiet os w.conf w.patbuf line w.login) (λ l. add_login-Keeps os w l room)

      scan_lines-Keeps :
          (os : ℕ → Os) (k : ℕ) (line s : Bytes) (w : World)
          → ((n : ℕ) → (os n).fclose temp ≡ none)
          → Keeps w (scan_lines os k line s w)
      unfolding scan_lines
      scan_lines-Keeps os k line [] w room = pure-Keeps w
      scan_lines-Keeps os k line (c ∷ cs) w room =
          Triple-if printing file (Whole T) (Tells w) Tells (c == b'\n' || c == 0) _ _
            (Triple-bind printing file (Whole T) (Tells w) Tells Tells (handle_line (os k) line w)
              (scan_lines os (k + 1) [] cs) (handle_line-Keeps (os k) line w (room k))
              (λ x. scan_lines-Keeps os (k + 1) [] cs x room))
            (scan_lines-Keeps os k (line ++ c ∷ []) cs w room)

      fault-Keeps : (w : World) → Keeps w (fault [])
      unfolding Triple
      fault-Keeps w fs t = ((w.auth.auth, t.1), tt)

      scan_buffer-Keeps :
          (os : ℕ → Os) (len : ℕ) (bytes : Bytes) (w : World)
          → ((n : ℕ) → (os n).fclose temp ≡ none)
          → Keeps w (scan_buffer os len bytes w)
      unfolding scan_buffer
      scan_buffer-Keeps os len bytes w room =
          Triple-if printing file (Whole T) (Tells w) Tells (ltb len (2 ^ 31)) _ _
            (scan_lines-Keeps os 0 [] bytes w room)
            (Triple-bind printing file (Whole T) (Tells w) Tells Tells
              (scan_lines os 0 [] (take (2 ^ 31) bytes) w) _
              (scan_lines-Keeps os 0 [] (take (2 ^ 31) bytes) w room) fault-Keeps)

      pub onepass-Keeps :
          (os : Os) (line_os : ℕ → Os) (w : World)
          → ((n : ℕ) → (line_os n).fclose temp ≡ none)
          → Keeps w (onepass os line_os w)
      unfolding onepass
      onepass-Keeps os line_os w room =
          first w (tail_read os w.conf w.tail) _ (tail_read-IsQuiet os w.conf w.tail) (λ t.
            first w (if t.tail_bufflen == 0 then pure [] else deref t.tail_buff) _
              (search quiet depth 4)
              (λ buff.
                scan_buffer-Keeps line_os t.tail_bufflen (take t.tail_bufflen buff)
                  (record w { tail = t }) room))
