-- ===== src/Exact/Run/Shows.antt =====
-- exact.c: the running daemon does what the abstract machine does.
use mathlib.Core.Path.{subst, fun_ext}
use exact.Base.{
  ℕ, false, Option, some, List, [], ◌∷◌, ◌≡◌, refl, sym, ap, ◌∙◌, Bytes, codes, inl, inr,
  Bool-cases, length, drop, length-drop, append-nil, append_assoc, suc, All, ◌++◌, lt→ltb, arith,
  ◌^◌,
}
use exact.Libc.{atoi}
use exact.Os.{Os}
use exact.Outcome.{Ends, pure}
use exact.Outcome.Laws.{Ends-bind, Ends-map}
use exact.Outcome.Returns.{Ends-Returns}
use exact.Auth.Table.{Auth}
use exact.Auth.Table.Sorted.{times}
use exact.Auth.Add.{Refused}
use exact.Conffile.Param.{Conf, conffile_param}
use exact.Auth.Table.Canonical.{sorted_unique}
use exact.Auth.Clean.{auth_clean-Ends, expire, Cleaned}
use exact.Auth.Text.{auth_text_dump}
use exact.Auth.Handlers.{auth_dump, auth_clean}
use exact.Tail.{Tail, tail_read}
use exact.Tail.Reading.{Follows, HasRead, last_growth, pause_after, newlines, counted}
use exact.Tail.Rotation.{resume, Reopened, tail_read-quiet, tail_read-missing}
use exact.Exact.{World, onepass}
use exact.Exact.Lines.{IsInner, unlines}
use exact.Exact.Pass.{Handled}
use exact.Exact.Follow.{onepass-Ends}
use exact.Exact.Run.{Event, pass, turn, turns}
use exact.Exact.Run.Idle.{onepass-idle, onepass-last}
use exact.Exact.Run.Machine.{
  Settings, View, grown_at, Serving, is_suspicious, VerdictsOn, noted, Growth, Allowed, growing,
  quiet, missing, dumping, cleaning, Through, stop, next, GaveUp, GaveUpIn,
}

auth_dump-Ends :
    (os : Os) (conf : Conf) (dumpfile : Bytes)
    → conffile_param conf (codes "dumpfile") ≡ some dumpfile
    → (a : Auth) → Ends (λ _. ⊥) (λ _. Unit) (auth_dump os conf a)
unfolding auth_dump auth_text_dump
auth_dump-Ends os conf dumpfile has a = elim (Bool-cases (os.writable dumpfile)) [
  | inl open_ ↦ rw (has, open_) tt
  | inr closed ↦ rw (has, closed) tt
]

newlines-inner : (l rest : Bytes) → All IsInner l → newlines (l ++ rest) ≡ newlines rest
newlines-inner [] rest h = refl
newlines-inner (c ∷ l) rest h = ground (arith, h.0.0, newlines-inner l rest h.1)

newlines-unlines :
    (ls : List Bytes) (partial : Bytes)
    → All (All IsInner) ls
    → All IsInner partial
    → length (newlines (unlines ls ++ partial)) ≡ length ls
newlines-unlines [] partial h k =
    ap (λ s. length (newlines s)) (sym (append-nil partial))
    ∙ ap length (newlines-inner partial [] k)
newlines-unlines (l ∷ ls) partial h k =
    ap (λ s. length (newlines s)) (append_assoc l (b'\n' ∷ unlines ls) partial)
    ∙ ap length (newlines-inner l (b'\n' ∷ (unlines ls ++ partial)) h.0)
    ∙ ap suc (newlines-unlines ls partial h.1 k)

module _ (S : Settings) where
  abbrev pub Hosts : (Bytes → Option ℕ) → World → Type 0
  Hosts f w = Handled S.conf S.temp S.file S.order S.pattern_ S.has_temp S.has_file S.has_order f w

  -- The world is set up and in order, and shows the view: its table the map of hosts, its stream the
  -- position.
  pub record Shows (v : View) (w : World) : Type 0 where
    pub hosts : Hosts v.hosts w
    pub position : w.tail.f ≡ v.position
    pub old : Bytes
    pub buffer : w.tail.tail_buff ≡ some old
    pub last : w.tail.last ≡ v.last
    pub paws : w.tail.paws ≡ v.paws

  -- Two worlds that show the same view have the same table, entry for entry.
  same_table : (v : View) (w u : World) → Shows v w → Shows v u → w.auth.auth ≡ u.auth.auth
  same_table v w u s r =
      sorted_unique w.auth.auth u.auth.auth s.hosts.0.sound.valid.sorted
        r.hosts.0.sound.valid.sorted (λ k. s.hosts.1 k ∙ sym (r.hosts.1 k))

  abbrev grown_view :
      (v : View) (os : Os) (line_os : ℕ → Os) (position : ℕ) (ls : List Bytes)
      → VerdictsOn S line_os ls
      → View
  grown_view v os line_os position ls vs = record {
    hosts = noted S line_os ls vs v.hosts;
    position = some (length os.stream);
    last = grown_at os v.last position;
    paws = pause_after (length ls) v.paws;
  }

  -- Every whole line is counted, and the last part is not.
  lines_counted :
      (os : Os) (position : ℕ) (ls : List Bytes)
      → Growth S os position ls
      → counted (drop position os.stream) ≡ length ls
  lines_counted os position ls g =
      rw
        (lt→ltb (length (drop position os.stream)) (2 ^ 31)
          (omega (arith, length-drop position os.stream, g.few)))
        (ap (λ s. length (newlines s)) g.cut
          ∙ newlines-unlines ls g.partial g.inner g.partial_inner)

  growing-Shows :
      (v : View) (w : World) (os : Os) (line_os : ℕ → Os) (position : ℕ) (ls : List Bytes)
      (vs : VerdictsOn S line_os ls)
      → Shows v w
      → v.position ≡ some position
      → Serving os
      → is_suspicious S os v.last position ≡ false
      → Growth S os position ls
      → Ends
          (GaveUp S (pass os line_os))
          (Shows (grown_view v os line_os position ls vs))
          (onepass os line_os w)
  growing-Shows v w os line_os position ls vs s at serving lively g =
      let fo : Follows os S.conf w.tail position = record {
        is_open = s.position ∙ at;
        old = s.old;
        has_buffer = s.buffer;
        suspicious = S.suspicious;
        has_suspicious = S.has_suspicious;
        lively = rw s.last lively;
        seeks = serving.seeks;
        memory = serving.memory;
      } in
      let f = noted S line_os ls vs (times w.auth.auth) in
      let P : World → Type 0 = λ x. Hosts f x × HasRead os.stream position w.tail.paws x.tail in
      let L : World → Type 0 = λ x. x.tail.last ≡ last_growth os w.tail position in
      Ends-map (GaveUp S (pass os line_os)) (GaveUp S (pass os line_os)) (λ x. P x × L x)
        (Shows (grown_view v os line_os position ls vs)) (onepass os line_os w)
        (Ends-Returns (GaveUp S (pass os line_os)) P L (onepass os line_os w)
          (onepass-Ends S.conf S.temp S.file S.order S.pattern_ S.has_temp S.has_file S.has_order os
            line_os w position ls g.partial vs s.hosts.0 fo g.grown g.few g.cut g.inner
            g.partial_inner)
          (onepass-last os line_os w position
            (subst (λ c. Follows os c w.tail position) (sym s.hosts.0.conf_is) fo) g.grown
            (omega (arith, g.few))))
        (λ n e. e)
        (λ x h. record {
          hosts =
              (h.0.0.0, λ k. h.0.0.1 k ∙ ap (λ m. noted S line_os ls vs m k) (fun_ext s.hosts.1));
          position = h.0.1.position;
          old = drop position os.stream;
          buffer = h.0.1.buff;
          last = rw (← s.last) h.1;
          paws =
              rw (← s.paws) (
                h.0.1.pause ∙ ap (λ n. pause_after n w.tail.paws) (lines_counted os position ls g));
        })

  idle-Shows :
      (v : View) (w : World) (os : Os) (line_os : ℕ → Os) (current now : ℕ)
      → Shows v w
      → Ends (λ _. ⊥) (Reopened os S.maillog w.tail current now) (tail_read os w.conf w.tail)
      → Ends
          (GaveUp S (pass os line_os))
          (Shows (record v { position = resume current (os.readable S.maillog); last = now }))
          (onepass os line_os w)
  idle-Shows v w os line_os current now s h =
      let t : Tail = record w.tail {
        f = resume current (os.readable S.maillog);
        last = now;
        tail_bufflen = 0;
      } in
      Ends-map (λ _. ⊥) (GaveUp S (pass os line_os)) (λ x. x ≡ record w { tail = t })
        (Shows (record v { position = resume current (os.readable S.maillog); last = now }))
        (onepass os line_os w) (onepass-idle os line_os w t refl h) (λ n e. absurd e)
        (λ x is. rw is (record {
          hosts = (
            record {
              conf_is = s.hosts.0.conf_is;
              pattern_is = s.hosts.0.pattern_is;
              sound = record { valid = s.hosts.0.sound.valid; memory = s.hosts.0.sound.memory };
            },
            s.hosts.1,
          );
          position = refl;
          old = s.old;
          buffer = s.buffer;
          last = refl;
          paws = s.paws;
        }))

  turn-Shows :
      (v u : View) (e : Event) (w : World)
      → Shows v w
      → Allowed S v e u
      → Ends (GaveUp S e) (Shows u) (turn e w)
  unfolding turn
  turn-Shows v u e w s (growing _ os line_os position ls vs at serving lively g) =
      growing-Shows v w os line_os position ls vs s at serving lively g
  turn-Shows v u e w s (quiet _ os line_os position at serving over) =
      idle-Shows v w os line_os position (os.time 2) s (
        rw s.hosts.0.conf_is (
          tail_read-quiet os S.conf S.maillog S.has_maillog serving.seeks S.suspicious
            S.has_suspicious w.tail position (s.position ∙ at) (rw s.last over)))
  turn-Shows v u e w s (missing _ os line_os at serving) =
      idle-Shows v w os line_os 0 (os.time 0) s (
        rw s.hosts.0.conf_is (
          tail_read-missing os S.conf S.maillog S.has_maillog serving.seeks w.tail
            (s.position ∙ at)))
  turn-Shows v u e w s (dumping _ os) =
      Ends-bind (λ _. ⊥) (λ _. Unit) (Shows v) (auth_dump os w.conf w.auth) (λ _. pure w)
        (rw s.hosts.0.conf_is (auth_dump-Ends os S.conf S.dumpfile S.has_dumpfile w.auth))
        (λ _ _. s)
  turn-Shows v u e w s (cleaning _ os) =
      let R = Refused os S.temp S.file in
      let C = Cleaned (os.time 0) (atoi S.timeout) w.auth in
      Ends-bind R C
        (Shows (record v { hosts = λ k. expire (os.time 0) (atoi S.timeout) (v.hosts k) }))
        (auth_clean os w.conf w.auth) _
        (rw s.hosts.0.conf_is (
          auth_clean-Ends os S.conf S.temp S.file S.timeout S.has_temp S.has_file S.has_timeout
            w.auth s.hosts.0.sound.valid))
        (λ a c. record {
          hosts = (
            record {
              conf_is = s.hosts.0.conf_is;
              pattern_is = s.hosts.0.pattern_is;
              sound = record { valid = c.0; memory = s.hosts.0.sound.memory };
            },
            λ k. c.1 k ∙ ap (expire (os.time 0) (atoi S.timeout)) (s.hosts.1 k),
          );
          position = s.position;
          old = s.old;
          buffer = s.buffer;
          last = s.last;
          paws = s.paws;
        })

  -- Started in a world that shows a view, and met by any sequence of passes, dumps and cleanings that
  -- the abstract machine takes from that view: the daemon never faults. It either gives up where the
  -- system refuses memory or a file at some login or cleaning; or it comes to a world that is set up,
  -- has a valid table, and shows the view to which the machine comes: the map of hosts, the position in
  -- the log, the time of its last growth and the pause.
  pub turns-Shows :
      (v u : View) (es : List Event) (w : World)
      → Shows v w
      → Through S v es u
      → Ends (GaveUpIn S es) (Shows u) (turns es w)
  unfolding turns
  turns-Shows v u [] w s (stop _) = s
  turns-Shows v u (e ∷ es) w s (next _ m _ _ _ a through) =
      Ends-bind (GaveUpIn S (e ∷ es)) (Shows m) (Shows u) (turn e w) (turns es)
        (Ends-map (GaveUp S e) (GaveUpIn S (e ∷ es)) (Shows m) (Shows m) (turn e w)
          (turn-Shows v m e w s a) (λ n g. inl g) (λ x h. h))
        (λ x h.
          Ends-map (GaveUpIn S es) (GaveUpIn S (e ∷ es)) (Shows u) (Shows u) (turns es x)
            (turns-Shows m u es x h through) (λ n g. inr g) (λ y d. d))
