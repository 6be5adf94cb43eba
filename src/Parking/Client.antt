-- ===== src/Parking/Client.antt =====
-- assignments/hw6/parkingServer.c: the loop of `handleClient`, from a line to its reply. What `fgets`
-- gives is one line here; `accept` and the socket are outside the model.
use os_coursework.Prelude.{
  ℕ, ◌+◌, ◌-◌, ◌*◌, Bool, not, ◌&&◌, ◌||◌, List, [], ◌∷◌, if◌then◌else◌, leb, ◌==◌, take, same,
  isdigit,
}
use os_coursework.Parking.{
  Floats, ParkingRecord, Reply, invalid, silent, closed, is_valid_plate, park, leave, show,
}

-- The line before the first `\r` or `\n`.
unfoldable pub strip_newline : List ℕ → List ℕ
strip_newline [] = []
strip_newline (c ∷ cmd) =
    let rest = strip_newline cmd in if (c == 13) || (c == 10) then [] else c ∷ rest

abbrev pub push_token : List ℕ → List (List ℕ) → List (List ℕ)
push_token [] tokens = tokens
push_token (c ∷ token) tokens = (c ∷ token) ∷ tokens

-- The token at the start of the line, which may be empty, and those behind it.
unfoldable pub strtok : List ℕ → List ℕ × List (List ℕ)
strtok [] = ([], [])
strtok (c ∷ cmd) =
    let (token, tokens) = strtok cmd in
    if c == 32 then ([], push_token token tokens) else (c ∷ token, tokens)

-- `args`, of at most three tokens.
unfoldable pub split_args : List ℕ → List (List ℕ)
split_args cmd = let (token, tokens) = strtok cmd in take 3 (push_token token tokens)

unfoldable pub digits_value : ℕ → List ℕ → ℕ
digits_value value [] = value
digits_value value (c ∷ str) =
    let rest = digits_value (value * 10 + (c - 48)) str in if isdigit c then rest else value

-- `atoi`. A negative value is 0 here: the commands refuse both alike.
unfoldable pub atoi : List ℕ → ℕ
atoi [] = 0
atoi (c ∷ str) =
    let rest = atoi str in
    if leb 9 c && leb c 13
    then rest
    else if c == 43
    then digits_value 0 str
    else digits_value 0 (c ∷ str)

abbrev pub quit_word : List ℕ
quit_word = 113 ∷ 117 ∷ 105 ∷ 116 ∷ []

abbrev pub park_word : List ℕ
park_word = 112 ∷ 97 ∷ 114 ∷ 107 ∷ []

abbrev pub leave_word : List ℕ
leave_word = 108 ∷ 101 ∷ 97 ∷ 118 ∷ 101 ∷ []

abbrev pub show_word : List ℕ
show_word = 115 ∷ 104 ∷ 111 ∷ 119 ∷ []

-- The check of a plate and a time.
unfoldable pub usable : List ℕ → ℕ → Bool
usable plate time = is_valid_plate plate && (not (time == 0) && leb time 86400)

module _ (floats : Floats) (hourly_rate : floats.Float) where
  unfoldable pub park_command :
      List (List ℕ) → List ParkingRecord → Reply floats.Float × List ParkingRecord
  park_command (plate ∷ time ∷ _) table =
      if usable plate (atoi time)
      then park floats hourly_rate plate (atoi time) table
      else (invalid, table)
  park_command _ table = (invalid, table)

  unfoldable pub leave_command :
      List (List ℕ) → List ParkingRecord → Reply floats.Float × List ParkingRecord
  leave_command (plate ∷ time ∷ _) table =
      if usable plate (atoi time)
      then leave floats hourly_rate plate (atoi time) table
      else (invalid, table)
  leave_command _ table = (invalid, table)

  unfoldable pub run_args :
      List (List ℕ) → List ParkingRecord → Reply floats.Float × List ParkingRecord
  run_args [] table = (invalid, table)
  run_args (command ∷ args) table =
      if same command quit_word
      then (closed, table)
      else if same command park_word
      then park_command args table
      else if same command leave_word
      then leave_command args table
      else if same command show_word
      then show floats hourly_rate table
      else (invalid, table)

  -- The empty line only brings the next prompt.
  unfoldable pub run_cmd : List ℕ → List ParkingRecord → Reply floats.Float × List ParkingRecord
  run_cmd [] table = (silent, table)
  run_cmd (c ∷ cmd) table = run_args (split_args (c ∷ cmd)) table

  unfoldable pub handle_line : List ℕ → List ParkingRecord → Reply floats.Float × List ParkingRecord
  handle_line line table = run_cmd (strip_newline line) table

  -- The table after the lines that any clients sent, in the order of their turns at `tableLock`.
  unfoldable pub serve : List (List ℕ) → List ParkingRecord → List ParkingRecord
  serve [] table = table
  serve (line ∷ lines) table = serve lines (handle_line line table).1
