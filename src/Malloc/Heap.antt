-- ===== src/Malloc/Heap.antt =====
-- `malloc`, `free`, `calloc` and `realloc` of exercises/ex11/myMalloc.c. A pointer is an address, and
-- `none` is NULL. What `mmap` answers to a hint and a length is an argument, and so is the page size.
pub mod Sizes
pub mod Valid
pub mod Handed
pub mod Use
pub mod Bytes
use os_coursework.Prelude.{
  ℕ, zero, suc, ◌+◌, ◌-◌, ◌*◌, ◌/◌, ◌%◌, ◌^◌, ◌≤◌, ◌<◌, ◌≡◌, Bool, true, false, Option, none, some,
  List, [], ◌∷◌, if◌then◌else◌, ltb, leb, ◌==◌, update,
}
use os_coursework.Malloc.FreeList.{word_size, hole_size, Hole, get_block, return_block}

-- `freeList`, the size fields of the blocks in use, the static `nextBlock` of `malloc`, and the bytes
-- that programs keep in their blocks.
pub record Heap : Type 0 where
  pub free_list : List Hole
  pub header : ℕ → ℕ
  pub next_block : ℕ
  pub bytes : ℕ → ℕ

abbrev pub init : Heap
init = record { free_list = []; header = λ _. 0; next_block = 0x600000000000; bytes = λ _. 0 }

-- `size_t`
abbrev pub size_t : ℕ → ℕ
size_t n = n % 2 ^ 64

-- The size of the block for a request: a pointer at least, and a multiple of 4.
unfoldable pub block_size : ℕ → ℕ
block_size size = size_t ((if ltb size word_size then word_size else size) + 3) / 4 * 4

-- What is asked of the system: with the size field, and in whole pages.
unfoldable pub request_size : ℕ → ℕ → ℕ
request_size psize size = size_t (size_t (size + word_size) + psize - 1) / psize * psize

-- The large enough block that `malloc` starts from, unlinked, or the answer of the system.
unfoldable pub obtain : (ℕ → ℕ → Option ℕ) → ℕ → ℕ → Heap → Option (Hole × Heap)
obtain mmap psize size s = elim (get_block size s.free_list) [
  | some (h, rest) ↦ some (h, record s { free_list = rest })
  | none ↦ elim (mmap s.next_block (request_size psize size)) [
    | none ↦ none
    | some a ↦ some (
      record { addr = a; size = request_size psize size - word_size },
      record s { next_block = s.next_block + request_size psize size },
    )
  ]
]

-- The left-over block.
abbrev pub remainder : ℕ → Hole → Hole
remainder size h = record { addr = h.addr + word_size + size; size = h.size - size - word_size }

-- What is left over goes back to the list, if it is large enough; the block's size field is written.
unfoldable pub split : ℕ → Hole → Heap → Heap
split size h s =
    if leb (size + hole_size) h.size
    then record s {
      free_list = return_block (remainder size h) s.free_list;
      header = update s.header h.addr size;
    }
    else record s { header = update s.header h.addr h.size }

unfoldable pub malloc : (ℕ → ℕ → Option ℕ) → ℕ → ℕ → Heap → Option ℕ × Heap
malloc mmap psize size s = elim (obtain mmap psize (block_size size) s) [
  | none ↦ (none, s)
  | some (h, s') ↦ (some (h.addr + word_size), split (block_size size) h s')
]

-- The block that a pointer of the program is to.
abbrev pub block_at : ℕ → Heap → Hole
block_at p s = record { addr = p - word_size; size = s.header (p - word_size) }

unfoldable pub free : Option ℕ → Heap → Heap
free none s = s
free (some p) s = record s { free_list = return_block (block_at p s) s.free_list }

-- `for (size_t i = 0; i < n; i++) p[i] = 0;`
unfoldable pub clear : ℕ → ℕ → (ℕ → ℕ) → ℕ → ℕ
clear zero p b = b
clear (suc n) p b = clear n (p + 1) (update b p 0)

unfoldable pub calloc : (ℕ → ℕ → Option ℕ) → ℕ → ℕ → ℕ → Heap → Option ℕ × Heap
calloc mmap psize count size s =
    let n = size_t (count * size) in
    let (p, s') = malloc mmap psize n s in
    elim p [ none ↦ (none, s') | some a ↦ (some a, record s' { bytes = clear n a s'.bytes }) ]

-- `for (int i = 0; i < sz; i++) p2[i] = p1[i];`
unfoldable pub copy : ℕ → ℕ → ℕ → (ℕ → ℕ) → ℕ → ℕ
copy zero p2 p1 b = b
copy (suc n) p2 p1 b = copy n (p2 + 1) (p1 + 1) (update b p2 (b p1))

unfoldable pub realloc : (ℕ → ℕ → Option ℕ) → ℕ → Option ℕ → ℕ → Heap → Option ℕ × Heap
realloc mmap psize none size s = malloc mmap psize size s
realloc mmap psize (some p1) zero s = (none, free (some p1) s)
realloc mmap psize (some p1) (suc n) s =
    let (p2, s') = malloc mmap psize (suc n) s in
    elim p2 [
      | none ↦ (none, s')
      | some a ↦
          let old = (block_at p1 s').size in
          let sz = if ltb old (suc n) then old else suc n in
          (some a, free (some p1) (record s' { bytes = copy sz a p1 s'.bytes }))
    ]
