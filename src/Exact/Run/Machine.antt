-- ===== src/Exact/Run/Machine.antt =====
-- What the running daemon is to do, without tables, buffers and files: a map from hosts to times, and
-- how far the log is read.
use exact.Base.{
  ℕ, ◌-◌, ◌^◌, ◌≤◌, ◌<◌, Bool, true, false, Option, none, some, List, [], ◌∷◌, ◌++◌, ◌≡◌, ◌⊎◌,
  Bytes, codes, ltb, if◌then◌else◌, length, drop, All,
}
use exact.Base.Int.{ltb_ℤ, sub_ℕ}
use exact.Libc.{atoi}
use exact.Os.{Os}
use exact.Conffile.Param.{Conf, conffile_param}
use exact.Auth.Add.{Refused}
use exact.Auth.Clean.{expire}
use exact.Tail.Reading.{pause_after}
use exact.Tail.Rotation.{resume}
use exact.Exact.Lines.{IsInner, unlines}
use exact.Exact.Pass.{Verdicts, note_all}
use exact.Exact.Run.{Event, pass, dump, clean}

-- The configuration that the loop needs, with the pattern.
pub record Settings : Type 0 where
  pub conf : Conf
  pub pattern_ : Bytes
  pub temp : Bytes
  pub has_temp : conffile_param conf (codes "authtemp") ≡ some temp
  pub file : Bytes
  pub has_file : conffile_param conf (codes "authfile") ≡ some file
  pub order : Bytes
  pub has_order : conffile_param conf (codes "order") ≡ some order
  pub timeout : Bytes
  pub has_timeout : conffile_param conf (codes "timeout") ≡ some timeout
  pub suspicious : Bytes
  pub has_suspicious : conffile_param conf (codes "suspicious") ≡ some suspicious
  pub maillog : Bytes
  pub has_maillog : conffile_param conf (codes "maillog") ≡ some maillog
  pub dumpfile : Bytes
  pub has_dumpfile : conffile_param conf (codes "dumpfile") ≡ some dumpfile

-- `position` is none while the log is missing.
pub record View : Type 0 where
  pub hosts : Bytes → Option ℕ
  pub position : Option ℕ
  pub last : ℕ
  pub paws : ℕ

-- When the log last grew.
abbrev pub grown_at : Os → ℕ → ℕ → ℕ
grown_at os last position = if ltb position (length os.stream) then os.time 0 else last

pub record Serving (os : Os) : Type 0 where
  pub seeks : (k : ℕ) → os.fseek k ≡ true
  pub memory : (size : ℕ) → os.realloc size ≡ true

module _ (S : Settings) where
  -- The log has been quiet for longer than the suspicious time.
  abbrev pub is_suspicious : Os → ℕ → ℕ → Bool
  is_suspicious os last position =
      ltb_ℤ (atoi S.suspicious) (sub_ℕ (os.time 1) (grown_at os last position))

  abbrev pub VerdictsOn : (ℕ → Os) → List Bytes → Type 0
  VerdictsOn line_os ls =
      Verdicts S.conf S.temp S.file S.order S.pattern_ S.has_temp S.has_file S.has_order line_os 0
        ls

  abbrev pub noted :
      (line_os : ℕ → Os) (ls : List Bytes)
      → VerdictsOn line_os ls
      → (Bytes → Option ℕ)
      → Bytes
      → Option ℕ
  noted line_os ls vs f =
      note_all S.conf S.temp S.file S.order S.pattern_ S.has_temp S.has_file S.has_order line_os 0
        ls vs f

  -- The new bytes of the log: whole lines, and a last part without its newline.
  pub record Growth (os : Os) (position : ℕ) (ls : List Bytes) : Type 0 where
    pub partial : Bytes
    pub grown : position ≤ length os.stream
    pub few : length os.stream - position < 2 ^ 31
    pub cut : drop position os.stream ≡ unlines ls ++ partial
    pub inner : All (All IsInner) ls
    pub partial_inner : All IsInner partial

  -- The turns that the daemon is made for. A pass finds new bytes or none in the log; it finds the log
  -- quiet for too long and opens what has its name; or it looks for a missing log.
  pub data Allowed : View → Event → View → Type 0 where
    growing :
        (v : View) (os : Os) (line_os : ℕ → Os) (position : ℕ) (ls : List Bytes)
        (vs : VerdictsOn line_os ls)
        → v.position ≡ some position
        → Serving os
        → is_suspicious os v.last position ≡ false
        → Growth os position ls
        → Allowed v (pass os line_os) (record {
          hosts = noted line_os ls vs v.hosts;
          position = some (length os.stream);
          last = grown_at os v.last position;
          paws = pause_after (length ls) v.paws;
        })
    quiet :
        (v : View) (os : Os) (line_os : ℕ → Os) (position : ℕ)
        → v.position ≡ some position
        → Serving os
        → is_suspicious os v.last position ≡ true
        → Allowed v
            (pass os line_os)
            (record v { position = resume position (os.readable S.maillog); last = os.time 2 })
    missing :
        (v : View) (os : Os) (line_os : ℕ → Os)
        → v.position ≡ none
        → Serving os
        → Allowed v
            (pass os line_os)
            (record v { position = resume 0 (os.readable S.maillog); last = os.time 0 })
    dumping : (v : View) (os : Os) → Allowed v (dump os) v
    cleaning :
        (v : View) (os : Os)
        → Allowed v
            (clean os)
            (record v { hosts = λ k. expire (os.time 0) (atoi S.timeout) (v.hosts k) })

  pub data Through : View → List Event → View → Type 0 where
    stop : (v : View) → Through v [] v
    next :
        (v u x : View) (e : Event) (es : List Event)
        → Allowed v e u
        → Through u es x
        → Through v (e ∷ es) x

  -- The ways in which the daemon may give up.
  abbrev pub GaveUp : Event → ℕ → Type 0
  GaveUp (pass os line_os) n = (k : ℕ) × Refused (line_os k) S.temp S.file n
  GaveUp (dump os) n = ⊥
  GaveUp (clean os) n = Refused os S.temp S.file n

  abbrev pub GaveUpIn : List Event → ℕ → Type 0
  GaveUpIn [] n = ⊥
  GaveUpIn (e ∷ es) n = GaveUp e n ⊎ GaveUpIn es n
