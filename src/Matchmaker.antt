-- ===== src/Matchmaker.antt =====
-- assignments/hw5/matchmaker.c: the monitor that pairs players. A player is a number, and the waiting
-- list is the list of the players on it. A part of a monitor function between two waits is one step,
-- since `monitor_mutex` is held for it. A wait on a player's own condition ends only by a signal here:
-- `signal` comes with `matched` or `matchmaking_stopped`, which the loops test.
mod Scan
mod Keeps
mod Pairing
mod Invariant
mod Laws
mod Tests
use os_coursework.Prelude.{
  ℕ, suc, ◌+◌, ◌-◌, ◌<◌, ◌≡◌, Bool, true, false, not, ◌&&◌, ◌||◌, Option, none, some, List, [], ◌∷◌,
  if◌then◌else◌, ltb, leb, ◌==◌, update,
}

-- Where a player's thread is.
pub data Stage : Type 0 where
  outside : Stage  -- before `findMatch`
  searching : Stage  -- in the wait of `findMatch`
  found : Stage  -- `findMatch` returned true
  refused : Stage  -- `findMatch` returned false
  finishing : Stage  -- in the wait of `donePlaying`
  finished : Stage

pub record Monitor : Type 0 where
  pub matchmaking_stopped : Bool
  pub game_in_progress : Bool
  pub waiting_list : List ℕ
  pub playing0 : Option ℕ
  pub playing1 : Option ℕ
  pub done_count : ℕ
  pub matched : ℕ → Bool
  pub done : ℕ → Bool
  pub opponent : ℕ → Option ℕ
  pub stage : ℕ → Stage

-- `initMonitor`, with nobody inside.
abbrev pub init_monitor : Monitor
init_monitor = record {
  matchmaking_stopped = false;
  game_in_progress = false;
  waiting_list = [];
  playing0 = none;
  playing1 = none;
  done_count = 0;
  matched = λ _. false;
  done = λ _. false;
  opponent = λ _. none;
  stage = λ _. outside;
}

-- Skills are numbers from 0 to the range.
unfoldable pub compatible : ℕ → ℕ → ℕ → Bool
compatible skill_gap a b =
    let diff = if ltb a b then b - a else a - b in not (a == b) && leb diff skill_gap

-- The loop over the waiting list: the player found, and the list without it.
unfoldable pub scan : ℕ → (ℕ → ℕ) → (ℕ → Bool) → ℕ → List ℕ → Option (ℕ × List ℕ)
scan skill_gap skill matched self [] = none
scan skill_gap skill matched self (curr ∷ next) =
    let later = scan skill_gap skill matched self next in
    if not (matched curr) && compatible skill_gap (skill self) (skill curr)
    then some (curr, next)
    else elim later [ none ↦ none | some (j, rest) ↦ some (j, curr ∷ rest) ]

-- `findMatch` from its call to its wait or its return.
unfoldable pub find_match : ℕ → (ℕ → ℕ) → ℕ → Monitor → Monitor
find_match skill_gap skill self m =
    if m.matchmaking_stopped
    then record m { stage = update m.stage self refused }
    else elim (scan skill_gap skill m.matched self m.waiting_list) [
      | some (curr, rest) ↦ record m {
        matched = update (update m.matched self true) curr true;
        done = update m.done self false;
        opponent = update (update m.opponent self (some curr)) curr (some self);
        waiting_list = rest;
        playing0 = some self;
        playing1 = some curr;
        game_in_progress = true;
        stage = update m.stage self found;
      }
      | none ↦ record m {
        matched = update m.matched self false;
        done = update m.done self false;
        opponent = update m.opponent self none;
        waiting_list = self ∷ m.waiting_list;
        stage = update m.stage self searching;
      }
    ]

-- `findMatch` from the end of its wait; `none` while it goes on.
unfoldable pub wake_up : ℕ → Monitor → Option Monitor
wake_up self m =
    if m.matched self
    then some (record m { stage = update m.stage self found })
    else if m.matchmaking_stopped
    then some (record m { stage = update m.stage self refused })
    else none

-- The player of the pair that `donePlaying` marks; a missing one would be a null pointer.
unfoldable pub next_done : Monitor → Option ℕ
next_done m = elim m.playing0 [
  | none ↦ none
  | some p ↦ if not (m.done p) then some p else m.playing1
]

-- `donePlaying` up to its wait or its return.
unfoldable pub done_playing : ℕ → Monitor → Option Monitor
done_playing caller m = elim (next_done m) [
  | none ↦ none
  | some self ↦ some (
      if ltb (m.done_count + 1) 2
      then record m {
        done = update m.done self true;
        done_count = m.done_count + 1;
        stage = update m.stage caller finishing;
      }
      else record m {
        done = update m.done self true;
        done_count = m.done_count + 1;
        game_in_progress = false;
        stage = update m.stage caller finished;
      })
]

-- `donePlaying` from the end of its wait.
unfoldable pub done_wake_up : ℕ → Monitor → Option Monitor
done_wake_up caller m =
    if ltb m.done_count 2 then none else some (record m { stage = update m.stage caller finished })

unfoldable pub stop_matchmaking : Monitor → Monitor
stop_matchmaking m = record m { matchmaking_stopped = true }

-- The loop of `destroyMonitor`: the players that it frees.
unfoldable pub free_players : List ℕ → List ℕ
free_players [] = []
free_players (current ∷ next) = current ∷ free_players next

unfoldable pub destroy_monitor : Monitor → List ℕ
destroy_monitor m = free_players m.waiting_list

-- One step of the monitor.
pub data Step (skill_gap : ℕ) (skill : ℕ → ℕ) (m : Monitor) : Monitor → Type 0 where
  find : (i : ℕ) → m.stage i ≡ outside → Step skill_gap skill m (find_match skill_gap skill i m)
  wake :
      (i : ℕ) {t : Monitor}
      → m.stage i ≡ searching
      → wake_up i m ≡ some t
      → Step skill_gap skill m t
  finish :
      (i : ℕ) {t : Monitor}
      → m.stage i ≡ found
      → done_playing i m ≡ some t
      → Step skill_gap skill m t
  finish_wake :
      (i : ℕ) {t : Monitor}
      → m.stage i ≡ finishing
      → done_wake_up i m ≡ some t
      → Step skill_gap skill m t
  stop : Step skill_gap skill m (stop_matchmaking m)

pub data Reach (skill_gap : ℕ) (skill : ℕ → ℕ) : Monitor → Type 0 where
  here : Reach skill_gap skill init_monitor
  later :
      {m t : Monitor} → Reach skill_gap skill m → Step skill_gap skill m t → Reach skill_gap skill t
