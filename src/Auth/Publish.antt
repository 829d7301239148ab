-- ===== src/Auth/Publish.antt =====
-- The relay file is replaced as a whole: no reader sees a part of it.
use exact.Base.{
  ℕ, true, none, some, List, [], ◌∷◌, ◌++◌, ◌≡◌, refl, ap, ◌∙◌, Bytes, codes, ◌⊎◌, inl, inr, arith,
  Bool-cases, append_assoc, append-nil, take, Option,
}
use exact.Libc.Order.{str_eq_iff}
use exact.Os.{Os}
use exact.Outcome.{log_err, Arg, Trace, trace_of, Ends}
use exact.Outcome.Files.{log_other, Printing, Apart, Files, update, apply, run, run-append, Always}
use exact.Conffile.Param.{Conf, conffile_param}
use exact.Auth.Table.{Entry}
use exact.Auth.Text.{print_hosts, closing, auth_write_text}

-- One host to a line.
abbrev pub host_lines : List Entry → Bytes
host_lines [] = []
host_lines (e ∷ es) = e.hostname ++ b'\n' ∷ host_lines es

-- What is kept of the bytes of a file, by the answer of `fclose`.
abbrev pub taken : Option ℕ → Bytes → Bytes
taken none s = s
taken (some n) s = take n s

regroup :
    (content host rest : Bytes)
    → (content ++ (host ++ b'\n' ∷ [])) ++ rest ≡ content ++ (host ++ b'\n' ∷ rest)
regroup content host rest = simp append_assoc

module _ (printing : Printing) (temp file : Bytes) (apart : Apart printing temp file)
    (start : Files) (new : Bytes) where
  -- The relay file is as it was, or it has the new content.
  abbrev pub OldOrNew : Files → Type 0
  OldOrNew fs = (fs file ≡ start file) ⊎ (fs file ≡ some new)

  abbrev Building : Bytes → Files → Type 0
  Building content fs = (fs temp ≡ some content) × (fs file ≡ start file)

  print_hosts-Always :
      (todo : List Entry) (content : Bytes) (rest : Trace) (fs : Files)
      → Building content fs
      → ((gs : Files) → Building (content ++ host_lines todo) gs → Always printing OldOrNew rest gs)
      → Always printing OldOrNew (print_hosts temp todo ++ rest) fs
  unfolding apply
  print_hosts-Always [] content rest fs b k = k fs (rw append-nil b)
  print_hosts-Always (e ∷ todo) content rest fs b k = (
    inl b.1,
    print_hosts-Always todo (content ++ (e.hostname ++ b'\n' ∷ [])) rest _
        (
          ground (arith, b.0, str_eq_iff temp temp),
          ground (arith, b.1, str_eq_iff temp file, apart.0),
        )
        λ gs g. k gs (g.0 ∙ ap some (regroup content e.hostname (host_lines todo)), g.1),
  )

  -- The close of the file, and what is behind it.
  closing-Always :
      (c : Option ℕ) (content : Bytes) (rest : Trace) (fs : Files)
      → Building content fs
      → ((gs : Files) → Building (taken c content) gs → Always printing OldOrNew rest gs)
      → Always printing OldOrNew (closing temp c ++ rest) fs
  unfolding apply
  closing-Always none content rest fs b k = k fs b
  closing-Always (some n) content rest fs b k = (
    inl b.1,
    k _ (
      ground (arith, b.0, str_eq_iff temp temp),
      ground (arith, b.1, str_eq_iff temp file, apart.0),
    ),
  )

  closing-run :
      (c : Option ℕ) (content : Bytes) (fs : Files)
      → Building content fs
      → Building (taken c content) (run printing (closing temp c) fs)
  unfolding apply run
  closing-run none content fs b = b
  closing-run (some n) content fs b = (
    ground (arith, b.0, str_eq_iff temp temp),
    ground (arith, b.1, str_eq_iff temp file, apart.0),
  )

  emptied : Building [] (update temp (some []) start)
  emptied = (ground (arith, str_eq_iff temp temp), ground (arith, str_eq_iff temp file, apart.0))

  renamed :
      (gs : Files)
      → (content : Bytes) → Building content gs
      → (update temp none (update file (gs temp) gs) file ≡ some content)
        × (update temp none (update file (gs temp) gs) temp ≡ none)
  renamed gs content g = (
    ground (arith, g.0, str_eq_iff temp file, str_eq_iff file file, apart.0),
    ground (arith, str_eq_iff temp temp),
  )

  print_hosts-run :
      (todo : List Entry) (content : Bytes) (fs : Files)
      → Building content fs
      → Building (content ++ host_lines todo) (run printing (print_hosts temp todo) fs)
  unfolding apply run
  print_hosts-run [] content fs b = rw append-nil b
  print_hosts-run (e ∷ todo) content fs b =
      let next = content ++ (e.hostname ++ b'\n' ∷ []) in
      let later = print_hosts-run todo next _ (
        ground (arith, b.0, str_eq_iff temp temp),
        ground (arith, b.1, str_eq_iff temp file, apart.0),
      ) in
      (later.0 ∙ ap some (regroup content e.hostname (host_lines todo)), later.1)

module _ (printing : Printing) (temp file : Bytes) (apart : Apart printing temp file)
    (start : Files) (es : List Entry) (os : Os) (conf : Conf)
    (has_temp : conffile_param conf (codes "authtemp") ≡ some temp)
    (has_file : conffile_param conf (codes "authfile") ≡ some file) where
  -- The list of the table's hosts, as far as the disk takes it.
  abbrev pub published : Bytes
  published = taken (os.fclose temp) (host_lines es)

  -- With the two file parameters set to different paths, and a log file that is not the relay file:
  -- before, between and after all effects of the write, and however it ends, the relay file is what
  -- it was at the start or has the new content, which is the list of all hosts of the table, one to a
  -- line; or, where the disk is full, as much of its beginning as the disk took.
  pub auth_write_text-Always :
      Always printing
        (OldOrNew printing temp file apart start published)
        (trace_of (auth_write_text os conf es))
        start
  unfolding auth_write_text apply
  auth_write_text-Always =
      let P = print_hosts-Always printing temp file apart start published in
      let C = closing-Always printing temp file apart start published in
      let made = emptied printing temp file apart start published in
      rw (has_temp, has_file)
        (elim (Bool-cases (os.writable temp)) [
          | inr closed ↦ rw closed (
            inl refl,
            inl (
                log_other printing file log_err "Fatal Error: cannot write to %s\n"
                  (Arg.str temp ∷ []) start apart.1),
          )
          | inl open_ ↦ elim (Bool-cases (os.rename temp file)) [
            | inr stuck ↦
                rw (open_, stuck)
                  (
                    inl refl,
                    (
                      inl made.1,
                      P es [] _ _ made λ gs g. C (os.fclose temp) (host_lines es) _ gs g λ hs h. (
                        inl h.1,
                        inl (
                            log_other printing file log_err
                              "Fatal Error: rename( \"%s\".\"%s\" ) failed\n"
                              (Arg.str temp ∷ Arg.str file ∷ []) hs apart.1
                            ∙ h.1),
                      ),
                    ),
                  )
            | inl moved ↦
                rw (open_, moved)
                  (
                    inl refl,
                    (
                      inl made.1,
                      P es [] _ _ made λ gs g. C (os.fclose temp) (host_lines es) _ gs g λ hs h. (
                        inl h.1,
                        inr (renamed printing temp file apart start published hs published h).0,
                      ),
                    ),
                  )
          ]
        ])

  -- With the two file parameters set to different paths, and a log file that is not the relay file,
  -- where the system lets the temporary file be opened and renamed: the temporary file is gone then, and the relay file has the list of the
  -- table's hosts, one to a line in the table's order; but if the disk takes only a number of its
  -- bytes, the relay file has just these, and the write returns all the same.
  pub auth_write_text-truncated :
      os.writable temp ≡ true
      → os.rename temp file ≡ true
      → Ends (λ _. ⊥) (λ _. Unit) (auth_write_text os conf es)
        × (run printing (trace_of (auth_write_text os conf es)) start file ≡ some published)
        × (run printing (trace_of (auth_write_text os conf es)) start temp ≡ none)
  unfolding auth_write_text run apply
  auth_write_text-truncated open_ moved =
      let made = emptied printing temp file apart start published in
      let emptied_files = update temp (some []) start in
      let printed = run printing (print_hosts temp es) emptied_files in
      rw
        (
          has_temp,
          has_file,
          open_,
          moved,
          run-append printing (print_hosts temp es),
          run-append printing (closing temp (os.fclose temp)),
        )
        (let moved_there =
            renamed printing temp file apart start published
              (run printing (closing temp (os.fclose temp)) printed) published
              (closing-run printing temp file apart start published (os.fclose temp) (host_lines es)
                printed
                (print_hosts-run printing temp file apart start published es [] emptied_files
                  made)) in
          (tt, moved_there.0, moved_there.1))

  -- With the two file parameters set to different paths, and a log file that is not the relay file,
  -- where the system lets the temporary file be written, with room on the disk, and renamed: the relay file then holds exactly the
  -- table's hosts, one to a line in the table's order, and the temporary file is gone.
  pub auth_write_text-run :
      os.writable temp ≡ true
      → os.fclose temp ≡ none
      → os.rename temp file ≡ true
      → (run printing (trace_of (auth_write_text os conf es)) start file ≡ some (host_lines es))
        × (run printing (trace_of (auth_write_text os conf es)) start temp ≡ none)
  auth_write_text-run open_ room moved =
      let r = auth_write_text-truncated open_ moved in
      (r.1 ∙ ap (λ c. some (taken c (host_lines es))) room, r.2)
