-- ===== src/RouteProbe/Hold.antt =====
-- What a device has to see before it returns to the server's first preference.
use meshp.Prelude.{ℕ, suc, ◌+◌, ◌-◌, ◌≤◌, ◌≡◌, ◌≢◌, arith, true, [], ◌∷◌, ◌++◌, if◌then◌else◌}
use meshp.Prelude.Equality.{string_eq}
use meshp.RouteProbe.Assignment.{Assignment, ProbeResult, Decision, limits}
use meshp.RouteProbe.Chooser.{GroupState, escape, recover, stay, judge}
use meshp.RouteProbe.Moves.{Outcome, judge-Outcome}
use meshp.RouteProbe.Escape.{Probes, judge_all}

-- The good results in a row at the end.
abbrev pub good_streak : ℕ → Probes → ℕ
good_streak n [] = n
good_streak n ((r, now) ∷ rest) = good_streak (if r.reachable then suc n else 0) rest

judge-good :
    (a : Assignment) (r : ProbeResult) (s : GroupState) (now : ℕ)
    → (judge a r s now).0.consecutive_ok ≤ (if r.reachable then suc s.consecutive_ok else 0)
unfolding judge escape recover stay
judge-good a r s now = ground arith

good_streak_mono : (m n : ℕ) (ps : Probes) → m ≤ n → good_streak m ps ≤ good_streak n ps
good_streak_mono m n [] h = h
good_streak_mono m n ((r, now) ∷ rest) h =
    good_streak_mono (if r.reachable then suc m else 0) (if r.reachable then suc n else 0) rest
      (ground arith)

run-good :
    (a : Assignment) (s : GroupState) (ps : Probes)
    → (judge_all a s ps).consecutive_ok ≤ good_streak s.consecutive_ok ps
unfolding judge_all
run-good a s [] = omega arith
run-good a s ((r, now) ∷ rest) =
    let bound = good_streak_mono _ _ rest (judge-good a r s now) in
    omega (arith, run-good a (judge a r s now).0 rest, bound)

good_streak-append :
    (n : ℕ) (ps : Probes) (r : ProbeResult) (now : ℕ)
    → r.reachable ≡ true
    → good_streak n (ps ++ (r, now) ∷ []) ≡ suc (good_streak n ps)
good_streak-append n [] r now good = rw good
good_streak-append n ((q, t) ∷ ps) r now good =
    good_streak-append (if q.reachable then suc n else 0) ps r now good

returned :
    (a : Assignment) (r : ProbeResult) (s s' : GroupState) (d : Decision) (now : ℕ)
    → Outcome a r s s' d now
    → r.reachable ≡ true
    → s.current_id ≢ s.preferred_id
    → s'.current_id ≡ s.preferred_id
    → ((limits a.local_failover).recover_threshold ≤ s.consecutive_ok + 1)
      × ((limits a.local_failover).min_hold ≤ now - s.switched_at)
returned a r s s' d now o good elsewhere home = ground arith

-- However a device got to another advertiser and whatever it has seen since, the good probe that
-- takes it back to the server's first preference is the last of at least the recovery threshold of
-- good probes in a row, counted with those that the group had counted when the run began, and
-- comes no sooner than the minimum hold after the move that it undoes.
pub return_needs_streak :
    (a : Assignment) (s : GroupState) (ps : Probes) (r : ProbeResult) (now : ℕ)
    → r.reachable ≡ true
    → (judge_all a s ps).current_id ≢ (judge_all a s ps).preferred_id
    → (judge a r (judge_all a s ps) now).0.current_id ≡ (judge_all a s ps).preferred_id
    → ((limits a.local_failover).recover_threshold
        ≤ good_streak s.consecutive_ok (ps ++ (r, now) ∷ []))
      × ((limits a.local_failover).min_hold ≤ now - (judge_all a s ps).switched_at)
return_needs_streak a s ps r now good elsewhere home =
    let (enough, held) =
      returned a r (judge_all a s ps) _ _ now (judge-Outcome a r (judge_all a s ps) now) good
        elsewhere home in
    (rw (good_streak-append s.consecutive_ok ps r now good) (omega (arith, run-good a s ps)), held)
