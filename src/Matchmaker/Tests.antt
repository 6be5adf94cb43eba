-- ===== src/Matchmaker/Tests.antt =====
-- The monitor of assignments/hw5/matchmaker.c with a few players.
use os_coursework.Prelude.{ℕ, ◌*◌, ◌≡◌, refl, false, Option, none, some, arith}
use os_coursework.Matchmaker.{
  finished, Monitor, init_monitor, compatible, scan, find_match, wake_up, next_done, done_playing,
  find, Reach, here, later,
}
use os_coursework.Matchmaker.Keeps.{IsPaired}
use os_coursework.Matchmaker.Laws
use os_coursework.Matchmaker.Laws.{no_match_missed, found-IsPaired, Runs, later_games_unfinished}

-- Players whose skills lie far apart, and players who are all compatible.
abbrev apart : ℕ → ℕ
apart i = i * 10

abbrev near : ℕ → ℕ
near i = i

abbrev two_waiting : Monitor
two_waiting = find_match 5 apart 1 (find_match 5 apart 0 init_monitor)

two_waiting-Reach : Reach 5 apart two_waiting
unfolding find_match scan
two_waiting-Reach = later (later here (find 0 refl)) (find 1 refl)

no_match_missed_example : compatible 5 (apart 0) (apart 1) ≡ false
unfolding find_match scan compatible
no_match_missed_example = no_match_missed two_waiting-Reach 0 1 (omega arith) refl refl refl refl

-- The second player finds the first, who waits.
abbrev pair : Monitor
pair = find_match 5 near 1 (find_match 5 near 0 init_monitor)

pair-Reach : Reach 5 near pair
unfolding find_match scan
pair-Reach = later (later here (find 0 refl)) (find 1 refl)

found-IsPaired_example : IsPaired 5 near pair.matched pair.opponent 1
unfolding find_match scan compatible
found-IsPaired_example = found-IsPaired pair-Reach 1 refl

abbrev or_else : Option Monitor → Monitor
or_else none = init_monitor
or_else (some m) = m

-- After the first game, and with the second pair playing.
abbrev game_over : Monitor
game_over = or_else (done_playing 1 (or_else (done_playing 0 (or_else (wake_up 0 pair)))))

abbrev second_pair : Monitor
second_pair = find_match 5 near 3 (find_match 5 near 2 game_over)

second_pair-Runs : Runs 5 near game_over second_pair
unfolding find_match scan compatible done_playing next_done wake_up
second_pair-Runs = Laws.later (Laws.later Laws.here (find 2 refl)) (find 3 refl)

game_over_count : game_over.done_count ≡ 2
unfolding find_match scan compatible done_playing next_done wake_up
game_over_count = refl

second_pair_done : done_playing 3 second_pair ≡ some (or_else (done_playing 3 second_pair))
unfolding find_match scan compatible done_playing next_done wake_up
second_pair_done = refl

-- Player 3 need not wait for player 2.
later_games_unfinished_example :
    ((or_else (done_playing 3 second_pair)).stage 3 ≡ finished)
    × ((or_else (done_playing 3 second_pair)).game_in_progress ≡ false)
later_games_unfinished_example =
    later_games_unfinished (omega (arith, game_over_count)) second_pair-Runs 3 second_pair_done
