-- ===== src/Exact/Run/Listed.antt =====
-- exact.c, auth.c: the relay file over a whole run.
use mathlib.Core.Path.{subst}
use exact.Base.{
  ℕ, Option, none, some, List, [], ◌∷◌, ◌≡◌, ◌≢◌, refl, sym, Bytes, codes, Bool-cases, arith, inl,
  inr, All,
}
use exact.Os.{Os}
use exact.Outcome.{log_notice, log_err, Arg, Outcome, ◌>>◌, pure, trace_of}
use exact.Outcome.Files.{log_other, Printing, Apart, Files, update, Always-map, Always, apply}
use exact.Outcome.Triple.{
  Content, Leaves, Leaves-map, Triple, Triple-bind, Triple-pure, Triple-fact, Spares, Spares-Triple,
}
use exact.Libc.Order.{str_eq_iff}
use exact.Conffile.Param.{Conf, conffile_param}
use exact.Auth.Table.{Entry, Auth}
use exact.Auth.Text.{print_state, auth_text_dump}
use exact.Auth.Handlers.{auth_dump, auth_clean}
use exact.Auth.Publish.{host_lines}
use exact.Auth.Relay.{Kept, Shown, Whole}
use exact.Auth.Relay.Clean.{auth_clean-Publishes}
use exact.Exact.{World}
use exact.Exact.Run.{Event, pass, dump, clean, turn, turns}
use exact.Exact.Run.Published.{Tells, Keeps, on_table, pure-Keeps, onepass-Keeps}

module _ (printing : Printing) (file path : Bytes) (apart : path ≢ file) where
  pub update_other : (c : Option Bytes) (fs : Files) → update path c fs file ≡ fs file
  update_other c fs = ground (arith, str_eq_iff path file, apart)

  print_state-Spares : (es : List Entry) → All (Spares printing file) (print_state path es)
  unfolding apply
  print_state-Spares [] = tt
  print_state-Spares (e ∷ es) = ((λ fs. update_other _ fs), print_state-Spares es)

  dump-Spares :
      (os : Os) (conf : Conf) (a : Auth)
      → printing.log_file ≢ some file
      → conffile_param conf (codes "dumpfile") ≡ some path
      → All (Spares printing file) (trace_of (auth_dump os conf a))
  unfolding auth_dump auth_text_dump apply
  dump-Spares os conf a log_apart is = elim (Bool-cases (os.writable path)) [
    | inl open_ ↦
        rw (is, open_)
          (
            (λ fs. update_other _ fs),
            (
              (λ fs. refl),
              (
                (λ fs. log_other printing file log_notice "dumping state\n" [] fs log_apart),
                print_state-Spares a.auth,
              ),
            ),
          )
    | inr closed ↦
        rw (is, closed)
          (
            (λ fs.
                log_other printing file log_err "Unable to write to dump file %s\n"
                  (Arg.str path ∷ []) fs log_apart),
            tt,
          )
  ]

-- The disk takes the relay files that the event writes.
abbrev pub HasRoom : Bytes → Event → Type 0
HasRoom temp (pass os line_os) = (k : ℕ) → (line_os k).fclose temp ≡ none
HasRoom temp (dump os) = Unit
HasRoom temp (clean os) = os.fclose temp ≡ none

abbrev AnyTable : List Entry → Type 0
AnyTable es = Unit

any-Kept : Kept AnyTable
any-Kept = record { add = λ es e t. tt; touched = λ es i now t. tt }

-- The content is a table's list, whole.
abbrev pub IsList : Content
IsList c = (es : List Entry) × (c ≡ some (host_lines es))

module _ (printing : Printing) (conf : Conf) (temp file dumpfile : Bytes)
    (apart : Apart printing temp file) (dump_apart : dumpfile ≢ file)
    (has_temp : conffile_param conf (codes "authtemp") ≡ some temp)
    (has_file : conffile_param conf (codes "authfile") ≡ some file)
    (has_dumpfile : conffile_param conf (codes "dumpfile") ≡ some dumpfile) where
  abbrev KeepsAny : World → Outcome World → Type 0
  KeepsAny w m = Keeps printing conf temp file apart has_temp has_file AnyTable w m

  dump-Keeps : (os : Os) (w : World) → KeepsAny w (auth_dump os w.conf w.auth >> pure w)
  dump-Keeps os w =
      let S = Shown AnyTable w.auth.auth in
      let P = Tells printing conf temp file apart has_temp has_file AnyTable in
      Triple-fact printing file (Whole AnyTable) S (w.conf ≡ conf) P _ (λ is.
        Triple-bind printing file (Whole AnyTable) S (λ _. S) P (auth_dump os w.conf w.auth)
          (λ _. pure w)
          (Spares-Triple printing file (Whole AnyTable) S (auth_dump os w.conf w.auth)
            (subst (λ c. All (Spares printing file) (trace_of (auth_dump os c w.auth))) (sym is)
              (dump-Spares printing file dumpfile dump_apart os conf w.auth apart.1 has_dumpfile))
            (λ c s. (w.auth.auth, s)))
          (λ _.
            Triple-pure printing file (Whole AnyTable) S P w (λ c s. ((w.auth.auth, s), (is, s)))))

  turn-Keeps : (e : Event) (w : World) → HasRoom temp e → KeepsAny w (turn e w)
  unfolding turn
  turn-Keeps (pass os line_os) w room =
      onepass-Keeps printing conf temp file apart has_temp has_file AnyTable any-Kept os line_os w
        room
  turn-Keeps (dump os) w room = dump-Keeps os w
  turn-Keeps (clean os) w room =
      on_table printing conf temp file apart has_temp has_file AnyTable w
        (λ c. auth_clean os c w.auth) w.login
        (auth_clean-Publishes printing conf temp file apart has_temp has_file AnyTable (λ es. tt) os
          room w.auth)

  turns-Keeps : (es : List Event) (w : World) → All (HasRoom temp) es → KeepsAny w (turns es w)
  unfolding turns
  turns-Keeps [] w room = pure-Keeps printing conf temp file apart has_temp has_file AnyTable w
  turns-Keeps (e ∷ es) w room =
      let P = Tells printing conf temp file apart has_temp has_file AnyTable in
      Triple-bind printing file (Whole AnyTable) (P w) P P (turn e w) (turns es)
        (turn-Keeps e w room.0) (λ x. turns-Keeps es x room.1)

  pub turns-IsList :
      (es : List Event) (w : World) (fs : Files)
      → All (HasRoom temp) es
      → w.conf ≡ conf
      → fs file ≡ some (host_lines w.auth.auth)
      → Always printing (λ gs. IsList (gs file)) (trace_of (turns es w)) fs
        × Leaves printing file (λ (x : World) c. c ≡ some (host_lines x.auth.auth)) (turns es w) fs
  unfolding Triple
  turns-IsList es w fs room is lists =
      let (always, leaves) = turns-Keeps es w room fs (is, (tt, lists)) in
      (
        Always-map printing (λ gs. Whole AnyTable (gs file)) (λ gs. IsList (gs file))
            (trace_of (turns es w)) fs (λ gs h. (h.0, h.1.1)) always,
        Leaves-map printing file (Tells printing conf temp file apart has_temp has_file AnyTable)
            (λ (x : World) c. c ≡ some (host_lines x.auth.auth)) (turns es w) fs (λ x c t. t.1.1)
            leaves,
      )
