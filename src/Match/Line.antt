-- ===== src/Match/Line.antt =====
-- `match_line` on a line that the pattern matches.
use exact.Base.{
  ℕ, ◌-◌, ◌≤◌, ◌<◌, Option, none, some, [], ◌++◌, ◌≡◌, refl, Bytes, codes, arith, length, take,
  drop, length-take, length-drop,
}
use exact.Libc.{str_eq, strcmp}
use exact.Os.{Os, matched}
use exact.Outcome.{fault, pure, Ends, IsFault}
use exact.Conffile.Param.{Conf, conffile_param}
use exact.Match.{positions, copy_both, match_line}
use exact.Match.Login.{
  MatchLogin, username, hostname, clip, copy_group, username_max, hostname_max, login_size,
}
use exact.Match.Copy.{copy_group-done, copy_group-fault}
use exact.Match.Reads.{
  NonZero, All-take, All-drop, group_text, with_user, with_both, length-with_both, read_host,
  read_user, read_user_over, length-with_user,
}

-- A group of the match, inside the line.
pub record Group (buff : Bytes) (group : Option (ℕ × ℕ)) : Type 0 where
  pub so : ℕ
  pub eo : ℕ
  pub is : group ≡ some (so, eo)
  pub inside : eo ≤ length buff

abbrev pub text : {buff : Bytes} {group : Option (ℕ × ℕ)} → Group buff group → Bytes
text {buff} g = group_text buff g.so g.eo

abbrev pub Names : Bytes → Bytes → Option MatchLogin → Type 0
Names user host none = ⊥
Names user host (some l) =
    (username l ≡ user) × (hostname l ≡ host) × (length l.memory ≡ login_size)

module _ (u h : ℕ) (buff : Bytes) (r : ℕ → Option (ℕ × ℕ)) (l : MatchLogin)
    (user : Group buff (r u)) (host : Group buff (r h)) (size : length l.memory ≡ login_size) where
  -- The first `n` bytes of the user's text are kept.
  module _ (n : ℕ) (some_of : n ≤ user.eo - user.so)
      (clipped : clip username_max (user.eo - user.so) ≡ n) where
    copy_user :
        copy_group buff (r u) 0 username_max l
        ≡ pure (record { memory = with_user l.memory (take n (drop user.so buff)) })
    unfolding with_user
    copy_user = rw user.is (
        copy_group-done buff user.so user.eo 0 username_max n l user.inside some_of clipped
          (ground arith))

    length-user : length (with_user l.memory (take n (drop user.so buff))) ≡ login_size
    length-user =
        length-with_user l.memory (take n (drop user.so buff)) [] size (omega arith)
          (ground (arith, length-take n (drop user.so buff)))

    copy_both-done :
        host.eo - host.so < hostname_max
        → copy_both u h buff r l
          ≡ pure (
              some
                (record { memory = with_both l.memory (take n (drop user.so buff)) (text host) }))
    unfolding copy_both with_both
    copy_both-done short = rw (
      copy_user,
      host.is,
      copy_group-done buff host.so host.eo 255 hostname_max (host.eo - host.so)
          (record { memory = with_user l.memory (take n (drop user.so buff)) }) host.inside
          (omega arith) (ground arith) (omega (arith, length-user)),
    )

  -- A long host is stored past the end of the structure.
  copy_both-fault : hostname_max ≤ host.eo - host.so → copy_both u h buff r l ≡ fault []
  unfolding copy_both
  copy_both-fault long =
      let n = clip username_max (user.eo - user.so) in
      let le : n ≤ user.eo - user.so = ground arith in
      rw (
        copy_user n le refl,
        host.is,
        copy_group-fault buff host.so host.eo 255 hostname_max
            (record { memory = with_user l.memory (take n (drop user.so buff)) }) host.inside long
            (omega (arith, length-user n le refl)),
      )

clip_full : (max n : ℕ) → max ≤ n → clip max n ≡ max
clip_full max n h = ground arith

-- Which group is the user's and which the host's, as the documentation of the parameter says.
pub data Places (order : Bytes) (user host : ℕ) : Type 0 where
  user_first : order ≡ codes "username,address" → user ≡ 2 → host ≡ 3 → Places order user host
  host_first : order ≡ codes "address,username" → user ≡ 3 → host ≡ 2 → Places order user host

Places-positions :
    (order : Bytes) (user host : ℕ) → Places order user host → positions order ≡ (user, host)
unfolding positions str_eq strcmp
Places-positions order user host (user_first is u h) = rw (is, u, h) refl
Places-positions order user host (host_first is u h) = rw (is, u, h) refl

-- The line is matched by the compiled pattern, and both groups lie inside it.
pub record Matches (os : Os) (conf : Conf) (pattern_ buff : Bytes) : Type 0 where
  pub order : Bytes
  pub groups : ℕ → Option (ℕ × ℕ)
  pub has_order : conffile_param conf (codes "order") ≡ some order
  pub is_match : os.regexec pattern_ buff ≡ matched groups
  pub user_group : ℕ
  pub host_group : ℕ
  pub places : Places order user_group host_group
  pub user : Group buff (groups user_group)
  pub host : Group buff (groups host_group)

module _ (os : Os) (conf : Conf) (pattern_ buff : Bytes) (l : MatchLogin)
    (m : Matches os conf pattern_ buff) (zero_free : NonZero buff)
    (size : length l.memory ≡ login_size) where
  user_NonZero : (n : ℕ) → NonZero (take n (drop m.user.so buff))
  user_NonZero n = All-take _ n _ (All-drop _ m.user.so buff zero_free)

  host_NonZero : NonZero (text m.host)
  host_NonZero = All-take _ (m.host.eo - m.host.so) _ (All-drop _ m.host.so buff zero_free)

  length-host : length (text m.host) ≤ m.host.eo - m.host.so
  length-host = ground (arith, length-take (m.host.eo - m.host.so) (drop m.host.so buff))

  -- On a line without zero bytes that the pattern matches with both groups inside the line, each
  -- shorter than 255 bytes: the call returns a structure whose user and host read exactly as the
  -- two groups stand in the line, by the configured order.
  pub match_line-Names :
      m.user.eo - m.user.so < username_max
      → m.host.eo - m.host.so < hostname_max
      → Ends
          (λ _. ⊥)
          (Names (text m.user) (text m.host))
          (match_line os conf (some pattern_) buff l)
  unfolding match_line username hostname
  match_line-Names user_short host_short =
      let n = m.user.eo - m.user.so in
      let fits : length (take n (drop m.user.so buff)) < username_max =
        omega (arith, length-take n (drop m.user.so buff)) in
      rw
        (
          m.has_order,
          m.is_match,
          Places-positions m.order m.user_group m.host_group m.places,
          copy_both-done _ _ buff m.groups l m.user m.host size n (omega arith) (ground arith)
              host_short,
        )
        (
          read_user l.memory (take n (drop m.user.so buff)) (text m.host) size
              (omega (arith, length-host)) fits (user_NonZero n),
          read_host l.memory (take n (drop m.user.so buff)) (text m.host) size
              (omega (arith, length-host)) (omega arith) host_NonZero,
          length-with_both l.memory (take n (drop m.user.so buff)) (text m.host) size
              (omega (arith, length-host)) (omega arith),
        )

  -- On a line without zero bytes that the pattern matches with both groups inside the line, the
  -- user of 255 bytes or more and the host shorter: the call returns a structure whose host
  -- reads as its group, but whose user reads as the first 255 bytes of its group with the host
  -- behind them, since the host's copy takes the place of the terminator.
  pub match_line-overread :
      username_max ≤ m.user.eo - m.user.so
      → m.host.eo - m.host.so < hostname_max
      → Ends
          (λ _. ⊥)
          (Names (take username_max (drop m.user.so buff) ++ text m.host) (text m.host))
          (match_line os conf (some pattern_) buff l)
  unfolding match_line username hostname
  match_line-overread user_long host_short =
      let full : length (take username_max (drop m.user.so buff)) ≡ username_max = omega (
        arith,
        length-take username_max (drop m.user.so buff),
        length-drop m.user.so buff,
        m.user.inside,
      ) in
      rw
        (
          m.has_order,
          m.is_match,
          Places-positions m.order m.user_group m.host_group m.places,
          copy_both-done _ _ buff m.groups l m.user m.host size username_max user_long
              (clip_full username_max _ user_long) host_short,
        )
        (
          read_user_over l.memory (take username_max (drop m.user.so buff)) (text m.host) size
              (omega (arith, length-host)) full (user_NonZero username_max) host_NonZero,
          read_host l.memory (take username_max (drop m.user.so buff)) (text m.host) size
              (omega (arith, length-host)) (omega arith) host_NonZero,
          length-with_both l.memory (take username_max (drop m.user.so buff)) (text m.host) size
              (omega (arith, length-host)) (omega arith),
        )

  -- On a line without zero bytes that the pattern matches with both groups inside the line and
  -- the host of 255 bytes or more: whatever the user, the terminator is written past the end of
  -- the structure, a fault.
  pub match_line-overflow :
      hostname_max ≤ m.host.eo - m.host.so → IsFault (match_line os conf (some pattern_) buff l)
  unfolding match_line
  match_line-overflow long =
      rw
        (
          m.has_order,
          m.is_match,
          Places-positions m.order m.user_group m.host_group m.places,
          copy_both-fault _ _ buff m.groups l m.user m.host size long,
        )
        tt
