-- ===== src/Matchmaker/Invariant.antt =====
-- What the monitor of assignments/hw5/matchmaker.c keeps.
use os_coursework.Prelude.{
  ℕ, ◌+◌, ◌≡◌, refl, some, ltb, Bool-cases, Option-cases, inl, inr, update, subst,
}
use os_coursework.Matchmaker.{
  outside, found, refused, finishing, finished, Monitor, init_monitor, scan, find_match, wake_up,
  next_done, done_playing, done_wake_up, stop_matchmaking, Step, find, wake, finish, finish_wake,
  stop, Reach, here, later,
}
use os_coursework.Matchmaker.Scan.{scan-none, scan-some}
use os_coursework.Matchmaker.Keeps.{Keeps, moved-Keeps, some_injective}
use os_coursework.Matchmaker.Pairing.{matched-Keeps, queued-Keeps}

module _ (skill_gap : ℕ) (skill : ℕ → ℕ) where
  abbrev pub Inv : Monitor → Type 0
  Inv m = Keeps skill_gap skill m.matched m.opponent m.waiting_list m.stage

  init_monitor-Inv : Inv init_monitor
  init_monitor-Inv = record {
    paired = λ i h. cc;
    list = tt;
    free = tt;
    inside = tt;
    listed = λ i h. cc;
    new = λ i h. refl;
    success = λ i h. cc;
  }

  wake_up-Inv : (i : ℕ) (m t : Monitor) → Inv m → wake_up i m ≡ some t → Inv t
  unfolding wake_up
  wake_up-Inv i m t v h = elim (Bool-cases (m.matched i)) [
    | inl e ↦
        let same : record m { stage = update m.stage i found } ≡ t = cc (rw e at h) in
        subst Inv same (
          moved-Keeps skill_gap skill m.matched m.opponent m.waiting_list m.stage i found v
            (λ q. cc (q)) (λ q. cc (q)) (λ _. e))
    | inr e ↦ elim (Bool-cases m.matchmaking_stopped) [
      | inl stopped ↦
          let same : record m { stage = update m.stage i refused } ≡ t =
            cc (rw (e, stopped) at h) in
          subst Inv same (
            moved-Keeps skill_gap skill m.matched m.opponent m.waiting_list m.stage i refused v
              (λ q. cc (q)) (λ q. cc (q)) (λ q. cc (q)))
      | inr running ↦ cc (rw (e, running) at h)
    ]
  ]

  done_wake_up-Inv : (i : ℕ) (m t : Monitor) → Inv m → done_wake_up i m ≡ some t → Inv t
  unfolding done_wake_up
  done_wake_up-Inv i m t v h = elim (Bool-cases (ltb m.done_count 2)) [
    | inl e ↦ cc (rw e at h)
    | inr e ↦
        let same : record m { stage = update m.stage i finished } ≡ t = cc (rw e at h) in
        subst Inv same (
          moved-Keeps skill_gap skill m.matched m.opponent m.waiting_list m.stage i finished v
            (λ q. cc (q)) (λ q. cc (q)) (λ q. cc (q)))
  ]

  done_playing-Inv : (i : ℕ) (m t : Monitor) → Inv m → done_playing i m ≡ some t → Inv t
  unfolding done_playing
  done_playing-Inv i m t v h = elim (Option-cases (next_done m)) [
    | inl e ↦ cc (rw (done_playing, e) at h)
    | inr (self, e) ↦ elim (Bool-cases (ltb (m.done_count + 1) 2)) [
      | inl first ↦ subst Inv (some_injective (rw (done_playing, e, first) at h)) (
          moved-Keeps skill_gap skill m.matched m.opponent m.waiting_list m.stage i finishing v
            (λ q. cc (q)) (λ q. cc (q)) (λ q. cc (q)))
      | inr second ↦ subst Inv (some_injective (rw (done_playing, e, second) at h)) (
          moved-Keeps skill_gap skill m.matched m.opponent m.waiting_list m.stage i finished v
            (λ q. cc (q)) (λ q. cc (q)) (λ q. cc (q)))
    ]
  ]

  find_match-Inv :
      (i : ℕ) (m : Monitor) → Inv m → m.stage i ≡ outside → Inv (find_match skill_gap skill i m)
  unfolding find_match
  find_match-Inv i m v out = elim (Bool-cases m.matchmaking_stopped) [
    | inl e ↦ rw e (
        moved-Keeps skill_gap skill m.matched m.opponent m.waiting_list m.stage i refused v
          (λ q. cc (q)) (λ q. cc (q)) (λ q. cc (q)))
    | inr e ↦ elim (Option-cases (scan skill_gap skill m.matched i m.waiting_list)) [
      | inl gone ↦
          rw (e, gone)
            (queued-Keeps skill_gap skill m.matched m.opponent m.waiting_list m.stage i v out
              (scan-none skill_gap skill m.matched i m.waiting_list gone v.free))
      | inr ((j, rest), there) ↦
          rw (e, there)
            (matched-Keeps skill_gap skill m.matched m.opponent m.waiting_list rest m.stage i j v
              out (scan-some skill_gap skill m.matched i m.waiting_list j rest there v.free))
    ]
  ]

  Step-Inv : {m t : Monitor} → Inv m → Step skill_gap skill m t → Inv t
  unfolding stop_matchmaking
  Step-Inv {m} v (find i out) = find_match-Inv i m v out
  Step-Inv {m} {t} v (wake i e h) = wake_up-Inv i m t v h
  Step-Inv {m} {t} v (finish i e h) = done_playing-Inv i m t v h
  Step-Inv {m} {t} v (finish_wake i e h) = done_wake_up-Inv i m t v h
  Step-Inv v stop = v

  pub Reach-Inv : {m : Monitor} → Reach skill_gap skill m → Inv m
  Reach-Inv here = init_monitor-Inv
  Reach-Inv (later r s) = Step-Inv (Reach-Inv r) s
