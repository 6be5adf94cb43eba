-- ===== src/Triangles.antt =====
-- The triangle counters: assignments/hw2/triangles.c with processes, assignments/hw3/triangles-thread.c
-- with threads, and, in Sem.antt, assignments/hw4/triangles-sem.c. The integers of the list are
-- positive and small enough for a sum of two to be an `int`; so is the count.
pub mod Sem
mod Sums
mod Count
mod Strided
mod Queue
mod Measure
mod Laws
mod Reading
mod Tests
use os_coursework.Prelude.{
  ℕ, zero, suc, ◌+◌, ◌-◌, ◌*◌, Bool, true, false, ◌&&◌, List, [], ◌∷◌, ◌++◌, if◌then◌else◌, ltb,
  leb, ◌==◌, length, get_or, sum_below,
}

unfoldable pub check_triangle : ℕ → ℕ → ℕ → Bool
check_triangle a b c = ltb c (a + b) && (ltb b (a + c) && ltb a (b + c))

-- What a loop adds up in `n` rounds from an index on.
unfoldable pub for_sum : ℕ → ℕ → (ℕ → ℕ) → ℕ
for_sum zero from f = 0
for_sum (suc n) from f = f from + for_sum n (from + 1) f

-- `if (checkTriangle(vList[i], vList[j], vList[k])) count++`
unfoldable pub found : List ℕ → ℕ → ℕ → ℕ → ℕ
found v i j k = if check_triangle (get_or v i 0) (get_or v j 0) (get_or v k 0) then 1 else 0

-- The two inner loops of `findTriangles`.
unfoldable pub found_third : List ℕ → ℕ → ℕ → ℕ
found_third v i j = for_sum (length v - (j + 1)) (j + 1) (found v i j)

unfoldable pub found_second : List ℕ → ℕ → ℕ
found_second v i = for_sum (length v - 1 - (i + 1)) (i + 1) (found_third v i)

-- The outer loop of `findTriangles` from an index on, with fuel for its rounds.
unfoldable pub strided : ℕ → ℕ → ℕ → ℕ → (ℕ → ℕ) → ℕ
strided zero workers bound i f = 0
strided (suc fuel) workers bound i f =
    let rest = strided fuel workers bound (i + workers) f in if ltb i bound then f i + rest else 0

-- The count of worker `wid`.
unfoldable pub find_triangles : List ℕ → ℕ → ℕ → ℕ
find_triangles v workers wid = strided (length v) workers (length v - 2) wid (found_second v)

-- `main` adds up the counts that it reads from the pipe, or finds in `tArgs`.
unfoldable pub main : List ℕ → ℕ → ℕ
main v workers = sum_below workers (find_triangles v workers)

-- The list with its capacity.
pub record Values : Type 0 where
  pub list : List ℕ
  pub cap : ℕ

-- A round of `readList`: the list grows if needed.
unfoldable pub push : Values → ℕ → Values
push s v = record {
  list = s.list ++ v ∷ [];
  cap = if leb s.cap (length s.list) then s.cap * 2 else s.cap;
}

unfoldable pub read_values : List ℕ → Values → Values
read_values [] s = s
read_values (v ∷ input) s = read_values input (push s v)

unfoldable pub read_list : List ℕ → Values
read_list input = read_values input (record { list = []; cap = 5 })
