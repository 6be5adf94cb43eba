-- ===== src/Floppy/Entry.antt =====
-- exercises/ex18/floppyDir.c and floppyDirNew.c: one directory entry of 32 bytes.
use os_coursework.Prelude.{
  ℕ, ◌-◌, ◌*◌, Bool, true, not, ◌&&◌, ◌||◌, List, [], ◌∷◌, ◌++◌, if◌then◌else◌, ltb, ◌==◌, get_or,
  take, drop, length, replicate, strncpy, decimal,
}
use Prim.Native.Nat.{bit_and, bit_or}

abbrev pub entry_size : ℕ
entry_size = 32

-- `entry[ i ]`
abbrev pub at : List ℕ → ℕ → ℕ
at entry i = get_or entry i 0

-- Deleted, volume label, long name, `.` or `..`.
unfoldable pub skipped : List ℕ → Bool
skipped entry =
    (at entry 0 == 229)
    || (not (bit_and (at entry 11) 8 == 0) || (at entry 11 == 15))
    || (at entry 0 == 46)

unfoldable pub is_dir : List ℕ → Bool
is_dir entry = bit_and (at entry 11) 16 == 16

unfoldable pub all_spaces : List ℕ → Bool
all_spaces [] = true
all_spaces (c ∷ name) = (c == 32) && all_spaces name

-- The loop that replaces the spaces at the end of a name.
unfoldable pub trim : List ℕ → List ℕ
unfolding all_spaces
trim [] = []
trim (c ∷ name) = let rest = trim name in (if all_spaces (c ∷ name) then 0 else c) ∷ rest

-- What `%s` prints of a buffer that a NUL follows.
unfoldable pub until_nul : List ℕ → List ℕ
until_nul [] = []
until_nul (c ∷ text) = let rest = until_nul text in if c == 0 then [] else c ∷ rest

-- `snprintf( fullName, 13, "%s.%s", name, ext )`, or without the extension.
unfoldable pub join_name : List ℕ → List ℕ → List ℕ
join_name name [] = take 12 name
join_name name (c ∷ ext) = take 12 (name ++ 46 ∷ c ∷ ext)

unfoldable pub full_name : List ℕ → List ℕ
full_name entry =
    join_name (until_nul (trim (strncpy 8 entry))) (until_nul (trim (strncpy 3 (drop 8 entry))))

unfoldable pub start_cluster : List ℕ → ℕ
start_cluster entry = bit_or (at entry 26) (at entry 27 * 256)

-- The 32 bits of the `int size`. A last byte from 128 on is shifted into the sign bit, which C leaves
-- undefined and compilers do as written: the size is then negative, and `print_int` prints it so.
unfoldable pub file_size : List ℕ → ℕ
file_size entry =
    bit_or (bit_or (bit_or (at entry 28) (at entry 29 * 256)) (at entry 30 * 65536))
      (at entry 31 * 16777216)

-- `%d` of an `int`, from its 32 bits.
unfoldable pub print_int : ℕ → List ℕ
print_int bits =
    if ltb bits 2147483648 then decimal 10 bits else 45 ∷ decimal 10 (4294967296 - bits)

-- `%-12s %10s` below the given indentation.
unfoldable pub print_line : ℕ → List ℕ → List ℕ → List ℕ
print_line indent name column =
    replicate indent 32
    ++ (name
        ++ (replicate (12 - length name) 32
            ++ 32 ∷ (replicate (10 - length column) 32 ++ (column ++ 10 ∷ []))))
