-- ===== src/Matchmaker/Laws.antt =====
-- What holds of the monitor of assignments/hw5/matchmaker.c.
use os_coursework.Prelude.{
  ℕ, ◌+◌, ◌≤◌, ◌≡◌, ◌≢◌, refl, sym, ◌∙◌, subst, true, false, some, List, [], ◌∷◌, ltb, ◌==◌,
  Bool-cases, Option-cases, inl, inr, All, All-mem, elem, arith, ==_iff,
}
use os_coursework.Matchmaker.{
  searching, found, finished, Monitor, compatible, scan, find_match, wake_up, next_done,
  done_playing, done_wake_up, stop_matchmaking, free_players, destroy_monitor, Step, find, wake,
  finish, finish_wake, stop, Reach,
}
use os_coursework.Matchmaker.Scan.{Incompatible, All-map, compatible_sym}
use os_coursework.Matchmaker.Invariant.{Reach-Inv}
use os_coursework.Matchmaker.Keeps.{IsPaired, some_injective, ==_refl}

-- Two players on the list are not compatible.
Incompatible-elem :
    (skill_gap : ℕ) (skill : ℕ → ℕ) (list : List ℕ) (i j : ℕ)
    → Incompatible skill_gap skill list
    → elem i list ≡ true
    → elem j list ≡ true
    → i ≢ j
    → compatible skill_gap (skill i) (skill j) ≡ false
Incompatible-elem skill_gap skill [] i j h ei ej ne = cc
Incompatible-elem skill_gap skill (a ∷ list) i j h ei ej ne =
    let Bad : ℕ → ℕ → Type 0 =
      λ x y. (x ≢ y) × (compatible skill_gap (skill x) (skill y) ≡ false) in
    elim (Bool-cases (a == i)) [
      | inl ai ↦ elim (Bool-cases (a == j)) [
        | inl aj ↦ absurd (ne (sym ((==_iff a i).0 ai) ∙ (==_iff a j).0 aj))
        | inr aj ↦
            let bad = All-mem (Bad a) list j h.0 (rw aj at ej) in
            subst (λ z. compatible skill_gap (skill z) (skill j) ≡ false) ((==_iff a i).0 ai) bad.1
      ]
      | inr ai ↦ elim (Bool-cases (a == j)) [
        | inl aj ↦
            let bad = All-mem (Bad a) list i h.0 (rw ai at ei) in
            compatible_sym skill_gap skill (skill i) (skill j)
            ∙ subst (λ z. compatible skill_gap (skill z) (skill i) ≡ false) ((==_iff a j).0 aj)
                bad.1
        | inr aj ↦ Incompatible-elem skill_gap skill list i j h.1 (rw ai at ei) (rw aj at ej) ne
      ]
    ]

-- No match is missed: in no state that the monitor reaches do two compatible players both wait in
-- `findMatch` without being matched.
pub no_match_missed :
    {skill_gap : ℕ} {skill : ℕ → ℕ} {m : Monitor}
    → Reach skill_gap skill m
    → (i j : ℕ) → i ≢ j
    → m.stage i ≡ searching
    → m.matched i ≡ false
    → m.stage j ≡ searching
    → m.matched j ≡ false
    → compatible skill_gap (skill i) (skill j) ≡ false
no_match_missed {skill_gap} {skill} {m} r i j ne si fi sj fj =
    let v = Reach-Inv skill_gap skill r in
    Incompatible-elem skill_gap skill m.waiting_list i j v.list (v.listed i si fi)
      (v.listed j sj fj) ne

-- A player to whom `findMatch` returned true has an opponent, who has that player for an opponent,
-- is matched too, and whose skill is another one within the gap.
pub found-IsPaired :
    {skill_gap : ℕ} {skill : ℕ → ℕ} {m : Monitor}
    → Reach skill_gap skill m
    → (i : ℕ) → m.stage i ≡ found
    → IsPaired skill_gap skill m.matched m.opponent i
found-IsPaired {skill_gap} {skill} r i e =
    let v = Reach-Inv skill_gap skill r in v.paired i (v.success i e)

free_players-All : (P : ℕ → Type 0) (list : List ℕ) → All P list → All P (free_players list)
unfolding free_players
free_players-All P [] h = tt
free_players-All P (a ∷ list) h = (h.0, free_players-All P list h.1)

abbrev Different : List ℕ → Type 0
Different [] = Unit
Different (a ∷ list) = All (λ b. a ≢ b) list × Different list

free_players-Different :
    (skill_gap : ℕ) (skill : ℕ → ℕ) (list : List ℕ)
    → Incompatible skill_gap skill list
    → Different (free_players list)
unfolding free_players
free_players-Different skill_gap skill [] h = tt
free_players-Different skill_gap skill (a ∷ list) h = (
  free_players-All (λ b. a ≢ b) list
      (All-map (λ b. (a ≢ b) × (compatible skill_gap (skill a) (skill b) ≡ false)) (λ b. a ≢ b) list
        (λ b k. k.0) h.0),
  free_players-Different skill_gap skill list h.1,
)

-- `destroyMonitor` frees no player twice, and no player that was matched: the memory of those is not
-- given back.
destroy_monitor-Different :
    {skill_gap : ℕ} {skill : ℕ → ℕ} {m : Monitor}
    → Reach skill_gap skill m
    → Different (destroy_monitor m) × All (λ i. m.matched i ≡ false) (destroy_monitor m)
unfolding destroy_monitor
destroy_monitor-Different {skill_gap} {skill} {m} r =
    let v = Reach-Inv skill_gap skill r in
    (
      free_players-Different skill_gap skill m.waiting_list v.list,
      free_players-All (λ i. m.matched i ≡ false) m.waiting_list v.free,
    )

-- Any number of steps from a state.
pub data Runs (skill_gap : ℕ) (skill : ℕ → ℕ) (m : Monitor) : Monitor → Type 0 where
  here : Runs skill_gap skill m m
  later :
      {s t : Monitor}
      → Runs skill_gap skill m s
      → Step skill_gap skill s t
      → Runs skill_gap skill m t

find_match_done_count :
    (skill_gap : ℕ) (skill : ℕ → ℕ) (i : ℕ) (m : Monitor)
    → (find_match skill_gap skill i m).done_count ≡ m.done_count
unfolding find_match
find_match_done_count skill_gap skill i m = elim (Bool-cases m.matchmaking_stopped) [
  | inl e ↦ rw e refl
  | inr e ↦ elim (Option-cases (scan skill_gap skill m.matched i m.waiting_list)) [
    | inl gone ↦ rw (e, gone) refl
    | inr ((j, rest), there) ↦ rw (e, there) refl
  ]
]

-- What `donePlaying` does to the count and to the thread that calls it.
done_playing_parts :
    (i : ℕ) (m t : Monitor)
    → done_playing i m ≡ some t
    → (t.done_count ≡ m.done_count + 1)
      × (2 ≤ m.done_count → (t.stage i ≡ finished) × (t.game_in_progress ≡ false))
unfolding done_playing
done_playing_parts i m t h = elim (Option-cases (next_done m)) [
  | inl e ↦ cc (rw (done_playing, e) at h)
  | inr (self, e) ↦ elim (Bool-cases (ltb (m.done_count + 1) 2)) [
    | inl first ↦
        subst
          (λ u.
            (u.done_count ≡ m.done_count + 1)
            × (2 ≤ m.done_count → (u.stage i ≡ finished) × (u.game_in_progress ≡ false)))
          (some_injective (rw (done_playing, e, first) at h))
          (refl, λ two. absurd (ground (arith, two, first)))
    | inr second ↦
        subst
          (λ u.
            (u.done_count ≡ m.done_count + 1)
            × (2 ≤ m.done_count → (u.stage i ≡ finished) × (u.game_in_progress ≡ false)))
          (some_injective (rw (done_playing, e, second) at h))
          (refl, λ two. (rw (==_refl i) refl, refl))
  ]
]

Step-done_count :
    (skill_gap : ℕ) (skill : ℕ → ℕ) {m t : Monitor}
    → Step skill_gap skill m t
    → m.done_count ≤ t.done_count
unfolding stop_matchmaking wake_up done_wake_up
Step-done_count skill_gap skill {m} (find i out) =
    omega (arith, find_match_done_count skill_gap skill i m)
Step-done_count skill_gap skill {m} {t} (wake i e h) = elim (Bool-cases (m.matched i)) [
  | inl e ↦
      subst (λ u. m.done_count ≤ u.done_count) (some_injective (rw (wake_up, e) at h)) (omega arith)
  | inr e ↦ elim (Bool-cases m.matchmaking_stopped) [
    | inl stopped ↦
        subst (λ u. m.done_count ≤ u.done_count) (some_injective (rw (wake_up, e, stopped) at h))
          (omega arith)
    | inr running ↦ cc (rw (wake_up, e, running) at h)
  ]
]
Step-done_count skill_gap skill {m} {t} (finish i e h) =
    omega (arith, (done_playing_parts i m t h).0)
Step-done_count skill_gap skill {m} {t} (finish_wake i e h) =
    elim (Bool-cases (ltb m.done_count 2)) [
      | inl e ↦ cc (rw (done_wake_up, e) at h)
      | inr e ↦
          subst (λ u. m.done_count ≤ u.done_count) (some_injective (rw (done_wake_up, e) at h))
            (omega arith)
    ]
Step-done_count skill_gap skill stop = omega arith

Runs-done_count :
    (skill_gap : ℕ) (skill : ℕ → ℕ) {m t : Monitor}
    → 2 ≤ m.done_count
    → Runs skill_gap skill m t
    → 2 ≤ t.done_count
Runs-done_count skill_gap skill two here = two
Runs-done_count skill_gap skill two (later runs s) =
    omega (arith, Runs-done_count skill_gap skill two runs, Step-done_count skill_gap skill s)

-- Once two players are done, `donePlaying` never waits again: whatever happens in between, a call of
-- it returns at once and ends the game in progress, although the opponent still plays.
pub later_games_unfinished :
    {skill_gap : ℕ} {skill : ℕ → ℕ} {m t u : Monitor}
    → 2 ≤ m.done_count
    → Runs skill_gap skill m t
    → (i : ℕ) → done_playing i t ≡ some u
    → (u.stage i ≡ finished) × (u.game_in_progress ≡ false)
later_games_unfinished {skill_gap} {skill} {m} {t} {u} two runs i h =
    (done_playing_parts i t u h).1 (Runs-done_count skill_gap skill two runs)
