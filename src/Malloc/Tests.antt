-- ===== src/Malloc/Tests.antt =====
-- Runs of the allocator of exercises/ex11, and its theorems at them.
use os_coursework.Prelude.{
  ℕ, ◌+◌, inr, ◌≤◌, ◌<◌, ◌≡◌, refl, true, Option, some, none, List, [], ◌∷◌, arith, if◌then◌else◌,
}
use os_coursework.Malloc.FreeList.{
  word_size, Hole, get_block, absorb_next, absorb_into, return_block,
}
use os_coursework.Malloc.FreeList.Space.{Separated, in_block, is_free}
use os_coursework.Malloc.Heap.{
  Heap, init, block_size, request_size, obtain, split, malloc, block_at, free, calloc, realloc,
}
use os_coursework.Malloc.Heap.Valid.{IsValid, GivesFresh}
use os_coursework.Malloc.Heap.Use.{malloc-IsValid, free-IsValid, free-malloc}
use os_coursework.Malloc.Heap.Bytes.{realloc-IsValid}

abbrev hole : ℕ → ℕ → Hole
hole a n = record { addr = a; size = n }

-- The block between two holes joins them.
joined :
    return_block (hole 116 8) (hole 100 8 ∷ hole 132 20 ∷ hole 200 8 ∷ [])
    ≡ hole 100 52 ∷ hole 200 8 ∷ []
unfolding return_block absorb_into absorb_next
joined = refl

abbrev two_holes : List Hole
two_holes = hole 100 8 ∷ hole 132 20 ∷ []

two_holes-Separated : Separated two_holes
two_holes-Separated = omega arith

second : get_block 16 two_holes ≡ some (hole 132 20, hole 100 8 ∷ [])
unfolding get_block
second = refl

-- A system that always grants the hint, and one that has no memory.
abbrev grants : ℕ → ℕ → Option ℕ
grants hint len = some hint

abbrev refuses : ℕ → ℕ → Option ℕ
refuses hint len = none

-- A program that holds one block.
abbrev used : Heap
used = record init { header = λ _. 16 }

abbrev held : List Hole
held = hole 1000 16 ∷ []

used-IsValid : IsValid held used
used-IsValid = record {
  separated = tt;
  roomy = tt;
  outside = (tt, tt);
  apart = (tt, tt);
  sized = ((refl, omega arith), tt);
}

grants-GivesFresh : (size : ℕ) → GivesFresh grants 4096 size held used
grants-GivesFresh size a e = (tt, (inr (ground arith), tt))

granted : (p : ℕ) × (t : Heap) × (malloc grants 4096 13 used ≡ (some p, t)) × (p ≡ 0x600000000008)
unfolding malloc obtain get_block split request_size block_size
granted = (_, _, refl, refl)

malloc-IsValid_example :
    IsValid (block_at granted.0 granted.1 ∷ held) granted.1
    × (13 ≤ (block_at granted.0 granted.1).size)
malloc-IsValid_example =
    malloc-IsValid grants 4096 13 held used used-IsValid (omega arith) (omega arith)
      (grants-GivesFresh (block_size 13)) granted.2

refused : malloc refuses 4096 13 used ≡ (none, used)
unfolding malloc obtain get_block
refused = refl

free-IsValid_example :
    IsValid [] (free (some (1000 + word_size)) used)
    × ((x : ℕ)
        → is_free x (free (some (1000 + word_size)) used).free_list
          ≡ (if in_block x (hole 1000 16) then true else is_free x []))
free-IsValid_example = free-IsValid [] (hole 1000 16) [] used used-IsValid

-- A heap with one hole, from which a request is served.
abbrev one_hole : Heap
one_hole = record init { free_list = hole 2000 100 ∷ [] }

one_hole-IsValid : IsValid [] one_hole
one_hole-IsValid = record {
  separated = (tt, tt);
  roomy = (omega arith, tt);
  outside = tt;
  apart = tt;
  sized = tt;
}

refuses-GivesFresh : (size : ℕ) → GivesFresh refuses 4096 size [] one_hole
refuses-GivesFresh size a e = cc

served :
    (t : Heap) × (get_block (block_size 13) one_hole.free_list ≡ some (hole 2000 100, []))
    × (malloc refuses 4096 13 one_hole ≡ (some 2008, t))
unfolding malloc obtain get_block split block_size
served = (_, refl, refl)

free-malloc_example : (free (some 2008) served.0).free_list ≡ hole 2000 100 ∷ []
free-malloc_example =
    free-malloc refuses 4096 13 [] one_hole one_hole-IsValid (omega arith) (omega arith)
      (refuses-GivesFresh (block_size 13)) served.1 served.2

cleared : (t : Heap) × (calloc refuses 4096 3 4 one_hole ≡ (some 2008, t))
unfolding calloc malloc obtain get_block split block_size
cleared = (_, refl)

regranted : (a : ℕ) × (t : Heap) × (realloc grants 4096 (some 1008) 20 used ≡ (some a, t))
unfolding realloc malloc obtain get_block split request_size block_size
regranted = (_, _, refl)

realloc-IsValid_example :
    IsValid (block_at regranted.0 regranted.1 ∷ []) regranted.1
    × (20 ≤ (block_at regranted.0 regranted.1).size)
    × ((i : ℕ)
        → i < 16
        → i < 20
        → regranted.1.bytes (regranted.0 + i) ≡ used.bytes (1000 + word_size + i))
realloc-IsValid_example =
    realloc-IsValid grants 4096 19 (hole 1000 16) [] used used-IsValid (omega arith) (omega arith)
      (grants-GivesFresh (block_size 20)) regranted.2
