-- ===== src/Malloc/FreeList.antt =====
-- The free list of exercises/ex11/myMalloc.c: `getBlock` and `returnBlock`.
pub mod Space
pub mod Canonical
pub mod Outside
use os_coursework.Prelude.{
  ℕ, ◌+◌, ◌-◌, ◌≤◌, ◌<◌, ◌≡◌, Bool, true, false, Option, none, some, List, [], ◌∷◌, if◌then◌else◌,
  ltb, leb, ◌==◌, ◌&&◌, ◌||◌, All, ◌⊎◌,
}

-- `sizeof(size_t)` and `sizeof(Hole *)`, and `sizeof(Hole)`, which has no byte for `mem`.
abbrev pub word_size : ℕ
word_size = 8

abbrev pub hole_size : ℕ
hole_size = 16

-- A free block: where its size field is, and its size without that field.
pub record Hole : Type 0 where
  pub addr : ℕ
  pub size : ℕ

-- The address behind the block, `h->mem + h->size`.
abbrev pub end : Hole → ℕ
end h = h.addr + word_size + h.size

-- `getBlock`: the first block that is large enough, and the list without it.
unfoldable pub get_block : ℕ → List Hole → Option (Hole × List Hole)
get_block size [] = none
get_block size (curr ∷ rest) =
    let found = get_block size rest in
    if leb size curr.size
    then some (curr, rest)
    else elim found [ none ↦ none | some (h, r) ↦ some (h, curr ∷ r) ]

-- `returnBlock` once `h` is linked before `rest`: does it absorb its successor?
unfoldable pub absorb_next : Hole → List Hole → List Hole
absorb_next h [] = h ∷ []
absorb_next h (next ∷ rest) =
    if end h == next.addr
    then record h { size = h.size + (next.size + word_size) } ∷ rest
    else h ∷ next ∷ rest

-- Is `h` absorbed by its predecessor?
unfoldable pub absorb_into : Hole → List Hole → List Hole
absorb_into pred [] = pred ∷ []
absorb_into pred (h ∷ rest) =
    if end pred == h.addr
    then record pred { size = pred.size + (h.size + word_size) } ∷ rest
    else pred ∷ h ∷ rest

-- The loop that finds the predecessor, which has come to `pred`.
unfoldable pub return_after : Hole → Hole → List Hole → List Hole
return_after pred h [] = absorb_into pred (absorb_next h [])
return_after pred h (node ∷ rest) =
    if ltb node.addr h.addr
    then pred ∷ return_after node h rest
    else absorb_into pred (absorb_next h (node ∷ rest))

unfoldable pub return_block : Hole → List Hole → List Hole
unfolding return_after
return_block h [] = absorb_next h []
return_block h (node ∷ rest) =
    if ltb node.addr h.addr then return_after node h rest else absorb_next h (node ∷ rest)
