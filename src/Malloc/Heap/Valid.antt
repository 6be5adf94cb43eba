-- ===== src/Malloc/Heap/Valid.antt =====
-- What holds of the heap while a program uses it: the free list is in order, and the blocks that the
-- program holds overlap neither it nor one another. `malloc` and `free` keep it.
use os_coursework.Prelude.{
  ℕ, ◌+◌, ◌-◌, ◌≤◌, ◌≡◌, refl, true, Option, none, some, List, [], ◌∷◌, arith, All, inl, inr,
  Option-cases,
}
use os_coursework.Malloc.FreeList.{word_size, Hole, get_block}
use os_coursework.Malloc.FreeList.Space.{
  Separated, Apart, Outside, in_block, is_free, get_block-IsFound, IsFound,
}
use os_coursework.Malloc.FreeList.Outside.{Outside-not_free, not_free-Outside}
use os_coursework.Malloc.Heap.{Heap, request_size, obtain}
use os_coursework.Malloc.Heap.Sizes.{IsRoomy, get_block-IsRoomy}

abbrev pub PairwiseApart : List Hole → Type 0
PairwiseApart [] = Unit
PairwiseApart (h ∷ r) = Outside h r × PairwiseApart r

-- `live` are the blocks that the program holds.
pub record IsValid (live : List Hole) (s : Heap) : Type 0 where
  pub separated : Separated s.free_list
  pub roomy : All IsRoomy s.free_list
  pub outside : All (λ h. Outside h s.free_list) live
  pub apart : PairwiseApart live
  pub sized : All (λ h. (s.header h.addr ≡ h.size) × IsRoomy h) live

-- What `mmap` is asked for is in use by nobody: it overlaps no free hole and no block.
abbrev pub GivesFresh : (ℕ → ℕ → Option ℕ) → ℕ → ℕ → List Hole → Heap → Type 0
GivesFresh mmap psize size live s =
    (a : ℕ)
    → mmap s.next_block (request_size psize size) ≡ some a
    → let region : Hole = record { addr = a; size = request_size psize size - word_size } in
      Outside region s.free_list × Outside region live

-- The block that `malloc` starts from, with what is left of the heap.
pub record IsObtained (size : ℕ) (live : List Hole) (s : Heap) (h : Hole) (t : Heap) : Type 0 where
  pub enough : size ≤ h.size
  pub separated : Separated t.free_list
  pub roomy : All IsRoomy t.free_list
  pub outside : Outside h t.free_list
  pub others : All (λ k. Outside k t.free_list) live
  pub apart : Outside h live
  pub header : t.header ≡ s.header

free_block-Apart :
    (h k : Hole) (l : List Hole)
    → ((x : ℕ) → in_block x h ≡ true → is_free x l ≡ true)
    → Outside k l
    → Apart h k
free_block-Apart h k l f out =
    ground
      (arith, f h.addr, f k.addr, Outside-not_free k l out h.addr, Outside-not_free k l out k.addr)

module _ {size : ℕ} {l : List Hole} {h : Hole} {r : List Hole} (found : IsFound size l h r) where
  found_others : (live : List Hole) → All (λ k. Outside k l) live → All (λ k. Outside k r) live
  found_others [] out = tt
  found_others (k ∷ live) out = (
    not_free-Outside k r (λ x i. ground (arith, found.space x, Outside-not_free k l out.0 x i)),
    found_others live out.1,
  )

  found_apart : (live : List Hole) → All (λ k. Outside k l) live → Outside h live
  found_apart [] out = tt
  found_apart (k ∷ live) out = (
    free_block-Apart h k l (λ x i. ground (arith, found.space x, i)) out.0,
    found_apart live out.1,
  )

found-IsObtained :
    (size : ℕ) (live : List Hole) (s : Heap) {h : Hole} {r : List Hole}
    → IsValid live s
    → get_block size s.free_list ≡ some (h, r)
    → IsObtained size live s h (record s { free_list = r })
found-IsObtained size live s v e =
    let found = get_block-IsFound size s.free_list v.separated e in
    record {
      enough = found.enough;
      separated = found.separated;
      roomy = (get_block-IsRoomy size s.free_list v.roomy e).1;
      outside = found.outside;
      others = found_others found live v.outside;
      apart = found_apart found live v.outside;
      header = refl;
    }

-- With the block of `obtain`.
abbrev pub Obtained : ℕ → List Hole → Heap → Option (Hole × Heap) → Type 0
Obtained size live s none = Unit
Obtained size live s (some (h, t)) = IsObtained size live s h t

pub obtain-Obtained :
    (mmap : ℕ → ℕ → Option ℕ) (psize size : ℕ) (live : List Hole) (s : Heap)
    → IsValid live s
    → GivesFresh mmap psize size live s
    → size + word_size ≤ request_size psize size
    → Obtained size live s (obtain mmap psize size s)
unfolding obtain
obtain-Obtained mmap psize size live s v fresh big =
    elim (Option-cases (get_block size s.free_list)) [
      | inr ((h, r), e) ↦
          let listed : obtain mmap psize size s ≡ some (h, record s { free_list = r }) =
            ground (arith, e) in
          rw listed (found-IsObtained size live s v e)
      | inl e ↦ elim (Option-cases (mmap s.next_block (request_size psize size))) [
        | inl refused ↦
            let failed : obtain mmap psize size s ≡ none = ground (arith, e, refused) in
            rw failed tt
        | inr (a, given) ↦
            let mapped : obtain mmap psize size s
                ≡ some (
                  record { addr = a; size = request_size psize size - word_size },
                  record s { next_block = s.next_block + request_size psize size },
                ) =
              ground (arith, e, given) in
            rw mapped (record {
              enough = omega arith;
              separated = v.separated;
              roomy = v.roomy;
              outside = (fresh a given).0;
              others = v.outside;
              apart = (fresh a given).1;
              header = refl;
            })
      ]
    ]
