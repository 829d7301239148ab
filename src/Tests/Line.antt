-- ===== src/Tests/Line.antt =====
-- The theorems on a line of the log, at the shared system and at lines with long groups.
use exact.Base.{
  ℕ, Bool, true, not, ◌&&◌, Option, none, some, [], ◌∷◌, ◌++◌, ◌≡◌, refl, Bytes, codes, arith, ◌==◌,
  if◌then◌else◌, take, drop, replicate, All,
}
use exact.Os.{Os, matched}
use exact.Outcome.{Ends, IsFault}
use exact.Match.{match_line}
use exact.Match.Login.{zeroed, username_max}
use exact.Match.Reads.{NonZero}
use exact.Match.Line.{
  user_first, Matches, Names, text, match_line-Names, match_line-overread, match_line-overflow,
}
use exact.Exact.Lines.{IsInner}
use exact.Libc.{str_eq, strcmp}
use exact.Base.{refl}
use exact.Tests.{demo_conf, demo_os, demo_groups, demo-order}

-- A byte that neither ends a line nor a string.
abbrev pub is_inner : ℕ → Bool
is_inner c = not (c == 0) && not (c == b'\n')

abbrev pub all_inner : Bytes → Bool
all_inner [] = true
all_inner (c ∷ cs) = is_inner c && all_inner cs

pub all_inner-IsInner : (s : Bytes) → all_inner s ≡ true → All IsInner s
all_inner-IsInner [] h = tt
all_inner-IsInner (c ∷ cs) h = ground (arith, all_inner-IsInner cs)

pub all_inner-NonZero : (s : Bytes) → all_inner s ≡ true → NonZero s
all_inner-NonZero [] h = tt
all_inner-NonZero (c ∷ cs) h = ground (arith, all_inner-NonZero cs)

abbrev pub login_line : Bytes
login_line = codes "ok bob 1.2"

-- A line with two groups, by their places.
abbrev groups_at : ℕ → ℕ → ℕ → ℕ → ℕ → Option (ℕ × ℕ)
groups_at us ue hs he i = if i == 2 then some (us, ue) else if i == 3 then some (hs, he) else none

abbrev os_at : (ℕ → Option (ℕ × ℕ)) → Os
os_at r = record demo_os { regexec = λ _ _. matched r }

unfoldable pub demo_matches : Matches demo_os demo_conf (codes "p") login_line
unfolding str_eq strcmp
demo_matches = record {
  order = codes "username,address";
  groups = demo_groups;
  has_order = demo-order;
  is_match = refl;
  user_group = 2;
  host_group = 3;
  places = user_first refl refl refl;
  user = record { so = 3; eo = 6; is = refl; inside = omega arith };
  host = record { so = 7; eo = 10; is = refl; inside = omega arith };
}

match_line-Names_example :
    Ends
      (λ _. ⊥)
      (Names (text demo_matches.user) (text demo_matches.host))
      (match_line demo_os demo_conf (some (codes "p")) login_line zeroed)
unfolding demo_matches
match_line-Names_example =
    match_line-Names demo_os demo_conf (codes "p") login_line zeroed demo_matches
      (all_inner-NonZero login_line refl) refl (omega arith) (omega arith)

-- A user of 255 bytes.
abbrev long_user : Bytes
long_user = codes "ok " ++ (replicate 255 b'a' ++ codes " 1.2")

abbrev long_user_matches : Matches (os_at (groups_at 3 258 259 262)) demo_conf (codes "p") long_user
unfolding str_eq strcmp
long_user_matches = record {
  order = codes "username,address";
  groups = groups_at 3 258 259 262;
  has_order = demo-order;
  is_match = refl;
  user_group = 2;
  host_group = 3;
  places = user_first refl refl refl;
  user = record { so = 3; eo = 258; is = refl; inside = omega arith };
  host = record { so = 259; eo = 262; is = refl; inside = omega arith };
}

match_line-overread_example :
    Ends
      (λ _. ⊥)
      (Names
        (take username_max (drop 3 long_user) ++ text long_user_matches.host)
        (text long_user_matches.host))
      (match_line (os_at (groups_at 3 258 259 262)) demo_conf (some (codes "p")) long_user zeroed)
unfolding long_user_matches
match_line-overread_example =
    match_line-overread (os_at (groups_at 3 258 259 262)) demo_conf (codes "p") long_user zeroed
      long_user_matches (all_inner-NonZero long_user refl) refl (omega arith) (omega arith)

-- A host of 255 bytes.
abbrev long_host : Bytes
long_host = codes "ok bob " ++ replicate 255 b'1'

abbrev long_host_matches : Matches (os_at (groups_at 3 6 7 262)) demo_conf (codes "p") long_host
unfolding str_eq strcmp
long_host_matches = record {
  order = codes "username,address";
  groups = groups_at 3 6 7 262;
  has_order = demo-order;
  is_match = refl;
  user_group = 2;
  host_group = 3;
  places = user_first refl refl refl;
  user = record { so = 3; eo = 6; is = refl; inside = omega arith };
  host = record { so = 7; eo = 262; is = refl; inside = omega arith };
}

match_line-overflow_example :
    IsFault (match_line (os_at (groups_at 3 6 7 262)) demo_conf (some (codes "p")) long_host zeroed)
unfolding long_host_matches
match_line-overflow_example =
    match_line-overflow (os_at (groups_at 3 6 7 262)) demo_conf (codes "p") long_host zeroed
      long_host_matches (all_inner-NonZero long_host refl) refl (omega arith)
