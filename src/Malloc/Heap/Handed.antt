-- ===== src/Malloc/Heap/Handed.antt =====
-- A block that `malloc` hands out: the left-over is returned and the size field is written.
use os_coursework.Prelude.{
  ℕ, ◌+◌, ◌-◌, ◌≤◌, ◌≡◌, refl, true, false, List, [], ◌∷◌, if◌then◌else◌, leb, arith, All,
  Bool-cases, inl, inr, update, ap, subst, sym,
}
use os_coursework.Malloc.FreeList.{word_size, hole_size, Hole, end, return_block}
use os_coursework.Malloc.FreeList.Space.{
  Separated, Apart, Outside, in_block, is_free, return_block-Separated, is_free-return_block,
}
use os_coursework.Malloc.FreeList.Outside.{return_block-Outside}
use os_coursework.Malloc.Heap.{Heap, remainder, split, block_at}
use os_coursework.Malloc.Heap.Valid.{IsValid, IsObtained}
use os_coursework.Malloc.Heap.Sizes.{IsRoomy, return_block-IsRoomy}

-- Writing the size field of a new block leaves the fields of the others.
others_sized :
    (header : ℕ → ℕ) (b : Hole) (live : List Hole)
    → Outside b live
    → All (λ k. (header k.addr ≡ k.size) × IsRoomy k) live
    → All (λ k. (update header b.addr b.size k.addr ≡ k.size) × IsRoomy k) live
others_sized header b [] out h = tt
others_sized header b (k ∷ live) out h =
    (ground (arith, out.0, h.0), others_sized header b live out.1 h.1)

-- The heap once a block `b` is handed out, with the free list `l`.
abbrev handed : Heap → Hole → List Hole → Heap
handed t b l = record t { free_list = l; header = update t.header b.addr b.size }

block_at-handed :
    (t : Heap) (b : Hole) (l : List Hole) → block_at (b.addr + word_size) (handed t b l) ≡ b
block_at-handed t b l = λ i. record { addr = at i; size = extent i }
  where
    at : b.addr + word_size - word_size ≡ b.addr
    at = omega arith

    extent : update t.header b.addr b.size (b.addr + word_size - word_size) ≡ b.size
    extent = ground (arith, at)

handed-size :
    (t : Heap) (b : Hole) (l : List Hole)
    → (block_at (b.addr + word_size) (handed t b l)).size ≡ b.size
handed-size t b l = ap (λ (h : Hole). h.size) (block_at-handed t b l)

handed-IsValid :
    (live : List Hole) (s t : Heap) (b : Hole) (l : List Hole)
    → IsValid live s
    → t.header ≡ s.header
    → Separated l
    → All IsRoomy l
    → Outside b l
    → All (λ k. Outside k l) live
    → Outside b live
    → IsRoomy b
    → IsValid (block_at (b.addr + word_size) (handed t b l) ∷ live) (handed t b l)
handed-IsValid live s t b l v same sep roomy out others apart room =
    rw (block_at-handed t b l) (record {
      separated = sep;
      roomy = roomy;
      outside = (out, others);
      apart = (apart, v.apart);
      sized = ((ground arith, room), others_sized t.header b live apart (rw same v.sized));
    })

Apart-sym : (a b : Hole) → Apart a b → Apart b a
Apart-sym a b h = ground arith

-- A block of which a part is taken: the part and the left-over are where the whole was.
abbrev front : ℕ → Hole → Hole
front size h = record { addr = h.addr; size = size }

part-Outside :
    (h p : Hole) (l : List Hole) → h.addr ≤ p.addr → end p ≤ end h → Outside h l → Outside p l
part-Outside h p [] a b out = tt
part-Outside h p (k ∷ l) a b out = (ground (arith, out.0), part-Outside h p l a b out.1)

pub others_return :
    (k : Hole) (l live : List Hole)
    → All (λ b. Outside b l) live
    → Outside k live
    → All (λ b. Outside b (return_block k l)) live
others_return k l [] out apart = tt
others_return k l (b ∷ live) out apart =
    (return_block-Outside b k l out.0 (Apart-sym k b apart.0), others_return k l live out.1 apart.1)

split_large :
    (size : ℕ) (h : Hole) (t : Heap)
    → leb (size + hole_size) h.size ≡ true
    → split size h t ≡ handed t (front size h) (return_block (remainder size h) t.free_list)
unfolding split
split_large size h t e = rw e

split_small :
    (size : ℕ) (h : Hole) (t : Heap)
    → leb (size + hole_size) h.size ≡ false
    → split size h t ≡ handed t h t.free_list
unfolding split
split_small size h t e = rw e

-- What `split` makes of an obtained block: the block of the program is large enough, and the heap is
-- valid with it.
pub split-IsValid :
    (size : ℕ) (live : List Hole) (s : Heap) (h : Hole) (t : Heap)
    → IsValid live s
    → IsObtained size live s h t
    → word_size ≤ size
    → IsValid (block_at (h.addr + word_size) (split size h t) ∷ live) (split size h t)
      × (size ≤ (block_at (h.addr + word_size) (split size h t)).size)
split-IsValid size live s h t v o room = elim (Bool-cases (leb (size + hole_size) h.size)) [
  | inl large ↦
      let rest = remainder size h in
      let fits : size + hole_size ≤ h.size = ground arith in
      let goes : split size h t ≡ handed t (front size h) (return_block rest t.free_list) =
        split_large size h t large in
      rw goes (
        handed-IsValid live s t (front size h) (return_block rest t.free_list) v o.header
            (return_block-Separated rest t.free_list o.separated
              (part-Outside h rest t.free_list (omega arith) (omega arith) o.outside))
            (return_block-IsRoomy rest t.free_list (omega arith) o.roomy)
            (return_block-Outside (front size h) rest t.free_list
              (part-Outside h (front size h) t.free_list (omega arith) (omega arith) o.outside)
              (inl (omega arith)))
            (others_return rest t.free_list live o.others
              (part-Outside h rest live (omega arith) (omega arith) o.apart))
            (part-Outside h (front size h) live (omega arith) (omega arith) o.apart) room,
        omega (arith, handed-size t (front size h) (return_block rest t.free_list)),
      )
  | inr exact ↦ rw (split_small size h t exact) (
    handed-IsValid live s t h t.free_list v o.header o.separated o.roomy o.outside o.others o.apart
        (omega (arith, o.enough)),
    omega (arith, handed-size t h t.free_list, o.enough),
  )
]

-- Of an obtained block, what is handed out and what is returned make up the whole.
pub is_free-split :
    (size : ℕ) (h : Hole) (t : Heap) (x : ℕ)
    → size ≤ h.size
    → (if in_block x (block_at (h.addr + word_size) (split size h t))
        then true
        else is_free x (split size h t).free_list)
      ≡ (if in_block x h then true else is_free x t.free_list)
is_free-split size h t x le = elim (Bool-cases (leb (size + hole_size) h.size)) [
  | inl large ↦ rw (split_large size h t large) (
      subst
        (λ (b : Hole).
          (if in_block x b then true else is_free x (return_block (remainder size h) t.free_list))
          ≡ (if in_block x h then true else is_free x t.free_list))
        (sym (block_at-handed t (front size h) (return_block (remainder size h) t.free_list)))
        (ground (arith, large, is_free-return_block x (remainder size h) t.free_list)))
  | inr exact ↦ rw (split_small size h t exact) (
      subst
        (λ (b : Hole).
          (if in_block x b then true else is_free x t.free_list)
          ≡ (if in_block x h then true else is_free x t.free_list))
        (sym (block_at-handed t h t.free_list)) refl)
]
