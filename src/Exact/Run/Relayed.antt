-- ===== src/Exact/Run/Relayed.antt =====
-- The whole daemon: who may relay mail after a run, by the relay file.
use exact.Base.{
  ℕ, some, List, [], ◌∷◌, ◌++◌, ◌≡◌, ◌≢◌, sym, ap, ◌∙◌, Bytes, Bool-cases, inl, inr, All,
  append_assoc,
}
use exact.Libc.{str_eq}
use exact.Libc.Order.{str_eq_iff}
use exact.Os.{Os}
use exact.Outcome.{Ends}
use exact.Outcome.Laws.{Ends-map}
use exact.Outcome.Files.{Printing, Apart, Files}
use exact.Outcome.Returns.{Ends-to_Returns}
use exact.Outcome.Triple.{Leaves, Leaves-map, Leaves-Returns}
use exact.Auth.Table.{Entry}
use exact.Auth.Table.Sorted.{times}
use exact.Auth.Publish.{host_lines}
use exact.Exact.{World}
use exact.Exact.Run.{Event, turns}
use exact.Exact.Lines.{unlines}
use exact.Exact.Run.Machine.{Settings, View, Through, GaveUpIn}
use exact.Exact.Run.Shows.{Shows, turns-Shows}
use exact.Exact.Run.Listed.{turns-IsList, HasRoom}
use exact.Exact.Run.Remember.{Since, Recent, through-Since}

-- The host has a line of its own, behind other lines.
abbrev pub HasLine : Bytes → Bytes → Type 0
HasLine h content =
    (before : List Bytes) × (rest : Bytes) × (content ≡ unlines before ++ (h ++ b'\n' ∷ rest))

-- A host with a time has a line.
host_lines-HasLine :
    (es : List Entry) (h : Bytes) (n : ℕ) → times es h ≡ some n → HasLine h (host_lines es)
host_lines-HasLine [] h n is = absurd (cc)
host_lines-HasLine (e ∷ es) h n is = elim (Bool-cases (str_eq e.hostname h)) [
  | inl here ↦
      ([], host_lines es, ap (λ k. k ++ b'\n' ∷ host_lines es) ((str_eq_iff e.hostname h).0 here))
  | inr there ↦
      let (before, rest, lines) = host_lines-HasLine es h n (rw there at is) in
      (
        e.hostname ∷ before,
        rest,
        ap (λ r. e.hostname ++ b'\n' ∷ r) lines
            ∙ sym (append_assoc e.hostname (b'\n' ∷ unlines before) (h ++ b'\n' ∷ rest)),
      )
]

module _ (printing : Printing) (S : Settings) (temp_apart : Apart printing S.temp S.file)
    (dump_apart : S.dumpfile ≢ S.file) (v : View) (w : World) (fs : Files) (shows : Shows S v w)
    (lists : fs S.file ≡ some (host_lines w.auth.auth)) where
  faultless :
      (es : List Event) (u : View)
      → Through S v es u
      → Ends (GaveUpIn S es) (λ _. Unit) (turns es w)
  faultless es u through =
      Ends-map (GaveUpIn S es) (GaveUpIn S es) (Shows S u) (λ _. Unit) (turns es w)
        (turns-Shows S v u es w shows through) (λ n g. g) (λ x _. tt)

  -- The table and the relay file behind a run that returns.
  shown :
      (es : List Event) (u : View)
      → Through S v es u
      → All (HasRoom S.temp) es
      → Leaves printing S.file
          (λ (x : World) c. Shows S u x × (c ≡ some (host_lines x.auth.auth)))
          (turns es w)
          fs
  shown es u through room =
      Leaves-Returns printing S.file (Shows S u)
        (λ (x : World) c. c ≡ some (host_lines x.auth.auth)) (turns es w) fs
        (Ends-to_Returns (GaveUpIn S es) (Shows S u) (turns es w)
          (turns-Shows S v u es w shows through))
        (turns-IsList printing S.conf S.temp S.file S.dumpfile temp_apart dump_apart S.has_temp
          S.has_file S.has_dumpfile es w fs room shows.hosts.0.conf_is lists).1

  listed :
      (u : View) (h : Bytes) (s : ℕ) (x : World)
      → Since s (u.hosts h)
      → Shows S u x
      → HasLine h (host_lines x.auth.auth)
  listed u h s x (n, _, is) sx = host_lines-HasLine x.auth.auth h n (sx.hosts.1 h ∙ is)

  -- With the paths of the temporary file, the dump and the log file apart from the relay file's, a disk
  -- that takes what is written to the temporary file, from a world that
  -- shows a view and whose table the relay file lists, at a host with a time of `s` or later, and over
  -- any turns that the abstract machine takes, in which the clock does not go back behind `s` and each
  -- cleaning comes before the timeout since `s` is over: the turns never fault; they give up where the system
  -- refuses memory or a file, or they return, and then the relay file is there and has a line that is
  -- the host.
  pub turns-HasLine :
      (h : Bytes) (s : ℕ) (es : List Event) (u : View)
      → Through S v es u
      → Since s (v.hosts h)
      → All (Recent S h s) es
      → All (HasRoom S.temp) es
      → Ends (GaveUpIn S es) (λ _. Unit) (turns es w)
        × Leaves printing S.file
            (λ (_ : World) c. (content : Bytes) × (c ≡ some content) × HasLine h content)
            (turns es w)
            fs
  turns-HasLine h s es u through since recent room = (
    faultless es u through,
    Leaves-map printing S.file (λ (x : World) c. Shows S u x × (c ≡ some (host_lines x.auth.auth)))
        (λ (_ : World) c. (content : Bytes) × (c ≡ some content) × HasLine h content) (turns es w)
        fs
        (λ x c both. (
          host_lines x.auth.auth,
          both.1,
          listed u h s x (through-Since S h s v u es through recent since) both.0,
        ))
        (shown es u through room),
  )
