-- ===== src/Exact/Run/Idle.antt =====
-- exact.c: a pass that reads no bytes, and the time of the last growth behind one that does.
use exact.Base.{ℕ, ◌+◌, ◌-◌, ◌^◌, ◌≤◌, ◌<◌, ◌≡◌, refl, ap, ◌∙◌, length, take}
use exact.Os.{Os}
use exact.Outcome.{Ends}
use exact.Outcome.Laws.{Ends-bind}
use exact.Outcome.Returns.{Returns, Returns-bind, Returns-then, Returns-map, Ends-to_Returns}
use exact.Tail.{Tail, tail_read}
use exact.Tail.Reading.{Follows, last_growth}
use exact.Tail.Growth.{Grown, tail_read-Grown}
use exact.Exact.{World, scan_lines, scan_buffer, onepass}
use exact.Exact.Follow.{SameTail, scan_buffer-SameTail}

pub onepass-idle :
    (os : Os) (line_os : ℕ → Os) (w : World) (t : Tail)
    → t.tail_bufflen ≡ 0
    → Ends (λ _. ⊥) (λ u. u ≡ t) (tail_read os w.conf w.tail)
    → Ends (λ _. ⊥) (λ x. x ≡ record w { tail = t }) (onepass os line_os w)
unfolding onepass scan_buffer scan_lines
onepass-idle os line_os w t empty h =
    Ends-bind (λ _. ⊥) (λ u. u ≡ t) (λ x. x ≡ record w { tail = t }) (tail_read os w.conf w.tail) _
      h (λ u is. rw (is, empty) refl)

pub onepass-last :
    (os : Os) (line_os : ℕ → Os) (w : World) (current : ℕ)
    → Follows os w.conf w.tail current
    → current ≤ length os.stream
    → length os.stream - current + 1 < 2 ^ 32
    → Returns (λ x. x.tail.last ≡ last_growth os w.tail current) (onepass os line_os w)
unfolding onepass
onepass-last os line_os w current fo grown few =
    let P : World → Type 0 = λ x. x.tail.last ≡ last_growth os w.tail current in
    Returns-bind (Grown os current w.tail) P (tail_read os w.conf w.tail) _
      (Ends-to_Returns (λ _. ⊥) (Grown os current w.tail) _
        (tail_read-Grown os w.conf w.tail current fo grown few))
      (λ t g. Returns-then P _ _ (λ buff.
        let x : World = record w { tail = t } in
        Returns-map (SameTail x) P _
          (scan_buffer-SameTail line_os t.tail_bufflen (take t.tail_bufflen buff) x)
          (λ y same. ap (λ (u : Tail). u.last) same ∙ g.1)))
