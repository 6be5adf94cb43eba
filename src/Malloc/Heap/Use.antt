-- ===== src/Malloc/Heap/Use.antt =====
-- `malloc` and `free` keep the heap valid.
use mathlib.Core.Path.{subst₂}
use os_coursework.Prelude.{
  ℕ, ◌+◌, ◌-◌, ◌^◌, ◌≤◌, ◌<◌, ◌≡◌, true, Option, none, some, List, [], ◌∷◌, ◌++◌, if◌then◌else◌,
  arith, All, inl, inr, Option-cases, subst, sym, ◌∙◌,
}
use os_coursework.Malloc.FreeList.{word_size, Hole, get_block, return_block}
use os_coursework.Malloc.FreeList.Space.{
  Apart, Outside, in_block, is_free, return_block-Separated, is_free-return_block,
  get_block-IsFound, IsFound, get_block-eq-none,
}
use os_coursework.Malloc.Heap.{
  Heap, block_size, request_size, obtain, split, malloc, block_at, free,
}
use os_coursework.Malloc.FreeList.Canonical.{free_list_ext}
use os_coursework.Malloc.Heap.Valid.{IsValid, PairwiseApart, Obtained, obtain-Obtained, GivesFresh}
use os_coursework.Malloc.Heap.Handed.{split-IsValid, others_return, is_free-split}
use os_coursework.Malloc.Heap.Sizes.{
  block_size_bounds, le-request_size, IsRoomy, return_block-IsRoomy,
}

module _ (mmap : ℕ → ℕ → Option ℕ) (psize size : ℕ) (live : List Hole) (s : Heap)
    (v : IsValid live s) (pages : 0 < psize)
    (small : size + word_size + 3 + word_size + psize < 2 ^ 64)
    (fresh : GivesFresh mmap psize (block_size size) live s) where
  -- Of a valid heap, with pages to ask for and no wrap in the sizes: where `mmap` gives nothing that is
  -- in use, a successful `malloc` gives a block that is as large as was asked for, and that overlaps
  -- no free hole and no block that the program holds; with it the heap is valid.
  pub malloc-IsValid :
      {p : ℕ} {t : Heap}
      → malloc mmap psize size s ≡ (some p, t)
      → IsValid (block_at p t ∷ live) t × (size ≤ (block_at p t).size)
  unfolding malloc
  malloc-IsValid {p} {t} e = elim (Option-cases (obtain mmap psize (block_size size) s)) [
    | inl failed ↦ ground (arith, failed, e)
    | inr ((h, u), obtained) ↦
        let o = subst (Obtained (block_size size) live s) obtained (
          obtain-Obtained mmap psize (block_size size) live s v fresh (
            le-request_size psize (block_size size) pages
              (omega (arith, block_size_bounds size (omega arith))))) in
        let (valid, enough) =
          split-IsValid (block_size size) live s h u v o (block_size_bounds size (omega arith)).1 in
        let pointer : h.addr + word_size ≡ p = ground (arith, obtained, e) in
        let heap : split (block_size size) h u ≡ t = ground (arith, obtained, e) in
        subst₂
          (λ (q : ℕ) (w : Heap). IsValid (block_at q w ∷ live) w × (size ≤ (block_at q w).size))
          pointer heap (valid, omega (arith, enough, block_size_bounds size (omega arith)))
  ]

malloc_found :
    (mmap : ℕ → ℕ → Option ℕ) (psize size : ℕ) (s : Heap) {g : Hole} {r : List Hole}
    → get_block (block_size size) s.free_list ≡ some (g, r)
    → malloc mmap psize size s
      ≡ (some (g.addr + word_size), split (block_size size) g (record s { free_list = r }))
unfolding malloc obtain
malloc_found mmap psize size s found = ground (arith, found)

-- `malloc` returns NULL only if no hole is large enough and `mmap` fails, and changes nothing then.
malloc-none :
    (mmap : ℕ → ℕ → Option ℕ) (psize size : ℕ) (s : Heap) {t : Heap}
    → malloc mmap psize size s ≡ (none, t)
    → (t ≡ s)
      × All (λ h. h.size < block_size size) s.free_list
      × (mmap s.next_block (request_size psize (block_size size)) ≡ none)
unfolding malloc obtain
malloc-none mmap psize size s e = elim (Option-cases (get_block (block_size size) s.free_list)) [
  | inl nothing ↦ (
    ground (arith, nothing),
    get_block-eq-none (block_size size) s.free_list nothing,
    ground (arith, nothing),
  )
  | inr ((h, r), found) ↦ ground (arith, found)
]

All-drop :
    (P : Hole → Type 0) (xs : List Hole) (h : Hole) (ys : List Hole)
    → All P (xs ++ h ∷ ys)
    → P h × All P (xs ++ ys)
All-drop P [] h ys a = a
All-drop P (x ∷ xs) h ys a = let (p, q) = All-drop P xs h ys a.1 in (p, (a.0, q))

PairwiseApart-drop :
    (xs : List Hole) (h : Hole) (ys : List Hole)
    → PairwiseApart (xs ++ h ∷ ys)
    → All (Apart h) (xs ++ ys) × PairwiseApart (xs ++ ys)
PairwiseApart-drop [] h ys a = a
PairwiseApart-drop (x ∷ xs) h ys a =
    let (p, q) = PairwiseApart-drop xs h ys a.1 in
    let (near, far) = All-drop (Apart x) xs h ys a.0 in ((ground (arith, near), p), (far, q))

-- The pointer to a block that the program holds leads back to it.
pub block_at-live :
    (xs : List Hole) (h : Hole) (ys : List Hole) (s : Heap)
    → IsValid (xs ++ h ∷ ys) s
    → block_at (h.addr + word_size) s ≡ h
block_at-live xs h ys s v = λ i. record { addr = at i; size = extent i }
  where
    at : h.addr + word_size - word_size ≡ h.addr
    at = omega arith

    extent : s.header (h.addr + word_size - word_size) ≡ h.size
    extent = rw at (All-drop (λ k. (s.header k.addr ≡ k.size) × IsRoomy k) xs h ys v.sized).0.0

-- To free any of the blocks that the program holds leaves the heap valid with the others, and makes
-- free the bytes of that block and no other.
pub free-IsValid :
    (xs : List Hole) (h : Hole) (ys : List Hole) (s : Heap)
    → IsValid (xs ++ h ∷ ys) s
    → IsValid (xs ++ ys) (free (some (h.addr + word_size)) s)
      × ((x : ℕ)
          → is_free x (free (some (h.addr + word_size)) s).free_list
            ≡ (if in_block x h then true else is_free x s.free_list))
unfolding free
free-IsValid xs h ys s v = rw (block_at-live xs h ys s v) (
  record {
    separated = return_block-Separated h s.free_list v.separated outs.0;
    roomy = return_block-IsRoomy h s.free_list sized.1 v.roomy;
    outside = others_return h s.free_list (xs ++ ys) outs.1 aparts.0;
    apart = aparts.1;
    sized = (All-drop (λ k. (s.header k.addr ≡ k.size) × IsRoomy k) xs h ys v.sized).1;
  },
  λ x. is_free-return_block x h s.free_list,
)
  where
    sized : (s.header h.addr ≡ h.size) × IsRoomy h
    sized = (All-drop (λ k. (s.header k.addr ≡ k.size) × IsRoomy k) xs h ys v.sized).0

    outs : Outside h s.free_list × All (λ k. Outside k s.free_list) (xs ++ ys)
    outs = All-drop (λ k. Outside k s.free_list) xs h ys v.outside

    aparts : All (Apart h) (xs ++ ys) × PairwiseApart (xs ++ ys)
    aparts = PairwiseApart-drop xs h ys v.apart

module _ (mmap : ℕ → ℕ → Option ℕ) (psize size : ℕ) (live : List Hole) (s : Heap)
    (v : IsValid live s) (pages : 0 < psize)
    (small : size + word_size + 3 + word_size + psize < 2 ^ 64)
    (fresh : GivesFresh mmap psize (block_size size) live s) where
  -- Under the conditions of `malloc-IsValid`, to free at once a block that came from the free list
  -- gives back the free list as it was.
  pub free-malloc :
      {p : ℕ} {t : Heap} {g : Hole} {r : List Hole}
      → get_block (block_size size) s.free_list ≡ some (g, r)
      → malloc mmap psize size s ≡ (some p, t)
      → (free (some p) t).free_list ≡ s.free_list
  unfolding free
  free-malloc {p} {t} {g} {r} found e =
      free_list_ext (return_block (block_at p t) t.free_list) s.free_list
        (return_block-Separated (block_at p t) t.free_list given.separated given.outside.0)
        v.separated (λ x. is_free-return_block x (block_at p t) t.free_list ∙ space x)
    where
      given : IsValid (block_at p t ∷ live) t
      given = (malloc-IsValid mmap psize size live s v pages small fresh e).0

      taken : IsFound (block_size size) s.free_list g r
      taken = get_block-IsFound (block_size size) s.free_list v.separated found

      left : Heap
      left = record s { free_list = r }

      handed_out :
          malloc mmap psize size s ≡ (some (g.addr + word_size), split (block_size size) g left)
      handed_out = malloc_found mmap psize size s found

      pointer : g.addr + word_size ≡ p
      pointer = cc (handed_out)

      heap : split (block_size size) g left ≡ t
      heap = cc (handed_out)

      space : (x : ℕ) → is_free x (block_at p t ∷ t.free_list) ≡ is_free x s.free_list
      space x =
          subst₂
            (λ (q : ℕ) (w : Heap). is_free x (block_at q w ∷ w.free_list) ≡ is_free x s.free_list)
            pointer heap
            (is_free-split (block_size size) g left x taken.enough ∙ sym (taken.space x))
