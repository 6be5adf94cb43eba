-- ===== src/Malloc/Heap/Sizes.antt =====
-- The sizes that `malloc` computes, and the room that every block has for a pointer.
use os_coursework.Prelude.{
  ℕ, ◌+◌, ◌-◌, ◌*◌, ◌/◌, ◌%◌, ◌^◌, ◌≤◌, ◌<◌, ◌≡◌, some, List, [], ◌∷◌, ltb, arith, All, Bool-cases,
  inl, inr, Option-cases,
}
use os_coursework.Malloc.FreeList.{
  word_size, Hole, get_block, absorb_next, absorb_into, return_after, return_block,
}
use os_coursework.Malloc.Heap.{size_t, block_size, request_size}

-- A request that does not wrap gets a block that is large enough, holds a pointer, and is a multiple
-- of 4.
pub block_size_bounds :
    (size : ℕ)
    → size + 3 < 2 ^ 64
    → (size ≤ block_size size)
      × (word_size ≤ block_size size)
      × (block_size size % 4 ≡ 0)
      × (block_size size ≤ size + word_size + 3)
unfolding block_size
block_size_bounds size h = ground arith

-- A request so large that rounding it up wraps gets a block of no bytes.
block_size_wraps : (size : ℕ) → 2 ^ 64 ≤ size + 3 → size < 2 ^ 64 → block_size size ≡ 0
unfolding block_size
block_size_wraps size h small = ground arith

round_up : (n d : ℕ) → 0 < d → n ≤ (n + d - 1) / d * d
round_up n d h = grind arith

pub le-request_size :
    (psize size : ℕ)
    → 0 < psize
    → size + word_size + psize < 2 ^ 64
    → size + word_size ≤ request_size psize size
unfolding request_size
le-request_size psize size h small =
    let inner : size_t (size + word_size) ≡ size + word_size = omega arith in
    let outer : size_t (size + word_size + psize - 1) ≡ size + word_size + psize - 1 =
      omega arith in
    rw (inner, outer) (round_up (size + word_size) psize h)

-- A hole that can hold the `next` pointer.
abbrev pub IsRoomy : Hole → Type 0
IsRoomy h = word_size ≤ h.size

absorb_next-IsRoomy :
    (h : Hole) (r : List Hole) → IsRoomy h → All IsRoomy r → All IsRoomy (absorb_next h r)
unfolding absorb_next
absorb_next-IsRoomy h [] a b = (a, tt)
absorb_next-IsRoomy h (n ∷ r) a b = ground arith

absorb_into-IsRoomy :
    (h : Hole) (r : List Hole) → IsRoomy h → All IsRoomy r → All IsRoomy (absorb_into h r)
unfolding absorb_into
absorb_into-IsRoomy h [] a b = (a, tt)
absorb_into-IsRoomy h (n ∷ r) a b = ground arith

return_after-IsRoomy :
    (p h : Hole) (r : List Hole)
    → IsRoomy p
    → IsRoomy h
    → All IsRoomy r
    → All IsRoomy (return_after p h r)
unfolding return_after
return_after-IsRoomy p h [] a b c =
    absorb_into-IsRoomy p (absorb_next h []) a (absorb_next-IsRoomy h [] b tt)
return_after-IsRoomy p h (n ∷ r) a b c = elim (Bool-cases (ltb n.addr h.addr)) [
  | inl before ↦ rw before (a, return_after-IsRoomy n h r c.0 b c.1)
  | inr behind ↦
      rw behind
        (absorb_into-IsRoomy p (absorb_next h (n ∷ r)) a (absorb_next-IsRoomy h (n ∷ r) b c))
]

pub return_block-IsRoomy :
    (h : Hole) (r : List Hole) → IsRoomy h → All IsRoomy r → All IsRoomy (return_block h r)
unfolding return_block
return_block-IsRoomy h [] a b = absorb_next-IsRoomy h [] a b
return_block-IsRoomy h (n ∷ r) a b = elim (Bool-cases (ltb n.addr h.addr)) [
  | inl before ↦ rw before (return_after-IsRoomy n h r b.0 a b.1)
  | inr behind ↦ rw behind (absorb_next-IsRoomy h (n ∷ r) a b)
]

pub get_block-IsRoomy :
    (size : ℕ) (l : List Hole) {h : Hole} {r : List Hole}
    → All IsRoomy l
    → get_block size l ≡ some (h, r)
    → All IsRoomy (h ∷ r)
unfolding get_block
get_block-IsRoomy size [] a e = cc
get_block-IsRoomy size (c ∷ l) a e = elim (Option-cases (get_block size l)) [
  | inl nothing ↦ ground (arith, nothing)
  | inr ((g, k), found) ↦ ground (arith, found, get_block-IsRoomy size l a.1 found)
]
