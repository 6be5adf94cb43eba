-- ===== src/Editor.antt =====
-- The shared-memory editors of assignments/hw3 and assignments/hw4: common.h, and the C library's
-- string functions that edit.c and reset.c use. A buffer is the list of its bytes; a string of the
-- command line is the list of its bytes before the NUL.
pub mod Plain
pub mod Locked
pub mod Server
pub mod Records
mod Text
mod Holds
mod Safety
mod Refine
mod Undo
mod Agree
mod Stress
mod Tests
use os_coursework.Prelude.{
  ℕ, zero, suc, ◌+◌, ◌-◌, ◌*◌, ◌≡◌, ap, Bool, true, false, List, [], ◌∷◌, if◌then◌else◌, strncpy,
  ltb, leb, ◌==◌, ◌&&◌, length, set, take, drop, replicate,
}

-- What a call comes to: a value, a wait that cannot go on, `exit( 1 )`, or behaviour that C leaves
-- undefined, such as an access out of a buffer's bounds.
pub data Outcome (A : Type 0) : Type 0 where
  done : A → Outcome A
  blocked : Outcome A
  exited : Outcome A
  undefined : Outcome A

infixl 5 ◌>>=◌
abbrev pub ◌>>=◌ : {A B : Type 0} → Outcome A → (A → Outcome B) → Outcome B
done a >>= f = f a
blocked >>= f = blocked
exited >>= f = exited
undefined >>= f = undefined

pub >>=-step :
    {A B C : Type 0} (m : Outcome A) (f : A → Outcome B) (g : B → Outcome C) (b : B)
    → (m >>= f) ≡ done b
    → (m >>= λ a. (f a >>= g)) ≡ g b
>>=-step (done a) f g b e = ap (λ o. o >>= g) e
>>=-step blocked f g b e = cc
>>=-step exited f g b e = cc
>>=-step undefined f g b e = cc

-- `STRING_LIMIT` and `UNDO_LIMIT`.
abbrev pub string_limit : ℕ
string_limit = 76

abbrev pub undo_limit : ℕ
undo_limit = 3

-- What `main` returns. `exit( 1 )` is `exited`.
abbrev pub exit_success : ℕ
exit_success = 0

abbrev pub exit_failure : ℕ
exit_failure = 1

pub record EditState : Type 0 where
  pub string : List ℕ
  pub prev1 : List ℕ
  pub prev2 : List ℕ
  pub prev3 : List ℕ
  pub len : ℕ
  pub num_undos : ℕ

-- Bytes written over a buffer, from an index on.
unfoldable pub overwrite : ℕ → List ℕ → List ℕ → List ℕ
overwrite zero [] buffer = buffer
overwrite zero (c ∷ bytes) [] = []
overwrite zero (c ∷ bytes) (b ∷ buffer) = c ∷ overwrite zero bytes buffer
overwrite (suc i) bytes [] = []
overwrite (suc i) bytes (b ∷ buffer) = b ∷ overwrite i bytes buffer

-- `memmove( &buffer[ dest ], &buffer[ from ], n )`.
unfoldable pub memmove : ℕ → ℕ → ℕ → List ℕ → Outcome (List ℕ)
memmove dest from n buffer =
    if leb (dest + n) (length buffer) && leb (from + n) (length buffer)
    then done (overwrite dest (take n (drop from buffer)) buffer)
    else undefined

-- `buffer[ i ] = c`.
unfoldable pub store : ℕ → ℕ → List ℕ → Outcome (List ℕ)
store i c buffer = if ltb i (length buffer) then done (set buffer i c) else undefined

-- The string that `printf` finds in a buffer.
unfoldable pub c_string : List ℕ → Outcome (List ℕ)
c_string [] = undefined
c_string (c ∷ buffer) =
    let rest = c_string buffer in if c == 0 then done [] else (rest >>= λ s. done (c ∷ s))

-- `atoi` of digits; more than an `int` holds is undefined in C.
unfoldable pub atoi_from : ℕ → List ℕ → ℕ
atoi_from value [] = value
atoi_from value (c ∷ cs) = atoi_from (value * 10 + (c - 48)) cs

unfoldable pub atoi : List ℕ → Outcome ℕ
atoi cs = let value = atoi_from 0 cs in if ltb value 2147483648 then done value else undefined

-- The three copies that put the string on the undo history.
unfoldable pub save_history : EditState → EditState
save_history state = record state {
  prev3 = strncpy string_limit state.prev2;
  prev2 = strncpy string_limit state.prev1;
  prev1 = strncpy string_limit state.string;
}

-- What `edit` prints: `OK` or `Error`, or the string and `num_undos`.
pub data Reply : Type 0 where
  answer : Bool → Reply
  contents : List ℕ → ℕ → Reply

-- The command words.
abbrev pub insert_word : List ℕ
insert_word = 105 ∷ 110 ∷ 115 ∷ 101 ∷ 114 ∷ 116 ∷ []

abbrev pub delete_word : List ℕ
delete_word = 100 ∷ 101 ∷ 108 ∷ 101 ∷ 116 ∷ 101 ∷ []

abbrev pub undo_word : List ℕ
undo_word = 117 ∷ 110 ∷ 100 ∷ 111 ∷ []

abbrev pub report_word : List ℕ
report_word = 114 ∷ 101 ∷ 112 ∷ 111 ∷ 114 ∷ 116 ∷ []

abbrev pub test_word : List ℕ
test_word = 116 ∷ 101 ∷ 115 ∷ 116 ∷ []
