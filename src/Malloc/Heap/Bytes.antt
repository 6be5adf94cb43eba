-- ===== src/Malloc/Heap/Bytes.antt =====
-- `calloc` and `realloc`: what they do to the bytes of the blocks.
use mathlib.Core.Path.{subst₂}
use os_coursework.Prelude.{
  ℕ, zero, suc, ◌+◌, ◌-◌, ◌*◌, ◌^◌, ◌≤◌, ◌<◌, ◌≡◌, Bool, Option, none, some, List, [], ◌∷◌, ◌⊎◌,
  if◌then◌else◌, ltb, leb, ◌&&◌, arith, inl, inr, Option-cases, update, ◌∙◌, ap,
}
use os_coursework.Malloc.FreeList.{word_size, Hole}
use os_coursework.Malloc.FreeList.Space.{Apart}
use os_coursework.Malloc.Heap.{
  Heap, size_t, block_size, obtain, split, malloc, block_at, free, clear, calloc, copy, realloc,
}
use os_coursework.Malloc.Heap.Valid.{IsValid, GivesFresh}
use os_coursework.Malloc.Heap.Use.{malloc-IsValid, free-IsValid, block_at-live}

-- `x` is one of the `n` bytes from `p` on.
abbrev pub in_range : ℕ → ℕ → ℕ → Bool
in_range p n x = leb p x && ltb x (p + n)

clear-in_range : (n p : ℕ) (b : ℕ → ℕ) (x : ℕ) → clear n p b x ≡ (if in_range p n x then 0 else b x)
unfolding clear
clear-in_range zero p b x = ground arith
clear-in_range (suc n) p b x = ground (arith, clear-in_range n (p + 1) (update b p 0) x)

copy-in_range :
    (n p2 p1 : ℕ) (b : ℕ → ℕ) (x : ℕ)
    → (p1 + n ≤ p2) ⊎ (p2 + n ≤ p1)
    → copy n p2 p1 b x ≡ (if in_range p2 n x then b (p1 + (x - p2)) else b x)
unfolding copy
copy-in_range zero p2 p1 b x apart = ground arith
copy-in_range (suc n) p2 p1 b x apart =
    copy-in_range n (p2 + 1) (p1 + 1) (update b p2 (b p1)) x (omega arith) ∙ ground arith

malloc-bytes :
    (mmap : ℕ → ℕ → Option ℕ) (psize size : ℕ) (s : Heap)
    → (malloc mmap psize size s).1.bytes ≡ s.bytes
unfolding malloc obtain split
malloc-bytes mmap psize size s = ground arith

-- The block of a successful `calloc` is zero as far as was asked for, in `size_t`, and no other byte
-- changes.
calloc-bytes :
    (mmap : ℕ → ℕ → Option ℕ) (psize count size : ℕ) (s : Heap) {a : ℕ} {t : Heap}
    → calloc mmap psize count size s ≡ (some a, t)
    → (x : ℕ) → t.bytes x ≡ (if in_range a (size_t (count * size)) x then 0 else s.bytes x)
unfolding calloc
calloc-bytes mmap psize count size s {a} {t} e x = elim (Option-cases (malloc mmap psize n s).0) [
  | inl failed ↦ ground (arith, failed)
  | inr (q, given) ↦
      let same : q ≡ a = ground (arith, given) in
      let bytes : t.bytes ≡ clear n q (malloc mmap psize n s).1.bytes = ground (arith, given) in
      rw (bytes, ← same, malloc-bytes mmap psize n s) (clear-in_range n q s.bytes x)
]
  where
    n : ℕ
    n = size_t (count * size)

malloc-le :
    (mmap : ℕ → ℕ → Option ℕ) (psize size : ℕ) (s : Heap) {q : ℕ} {t : Heap}
    → malloc mmap psize size s ≡ (some q, t)
    → word_size ≤ q
unfolding malloc
malloc-le mmap psize size s e = ground arith

-- The blocks say nothing of the bytes in them.
IsValid-bytes :
    {live : List Hole} {s : Heap} (b : ℕ → ℕ)
    → IsValid live s
    → IsValid live (record s { bytes = b })
IsValid-bytes b v = record {
  separated = v.separated;
  roomy = v.roomy;
  outside = v.outside;
  apart = v.apart;
  sized = v.sized;
}

realloc_fails :
    (mmap : ℕ → ℕ → Option ℕ) (psize m : ℕ) (h : Hole) (s : Heap) {a : ℕ} {t : Heap}
    → (malloc mmap psize (suc m) s).0 ≡ none
    → realloc mmap psize (some (h.addr + word_size)) (suc m) s ≡ (some a, t)
    → ⊥
unfolding realloc
realloc_fails mmap psize m h s failed e = ground (arith, failed)

abbrev kept : ℕ → ℕ → ℕ
kept old new = if ltb old new then old else new

realloc_copies :
    (mmap : ℕ → ℕ → Option ℕ) (psize m : ℕ) (h : Hole) (s : Heap) {q : ℕ} {u : Heap}
    → malloc mmap psize (suc m) s ≡ (some q, u)
    → block_at (h.addr + word_size) u ≡ h
    → realloc mmap psize (some (h.addr + word_size)) (suc m) s ≡ (
      some q,
      free
          (some (h.addr + word_size))
          (record u { bytes = copy (kept h.size (suc m)) q (h.addr + word_size) u.bytes }),
    )
unfolding realloc
realloc_copies mmap psize m h s got old = ground (arith, got, ap (λ (k : Hole). k.size) old)

kept-copied :
    (h b : Hole) (m q i : ℕ) (bytes : ℕ → ℕ)
    → Apart b h
    → b.addr + word_size ≡ q
    → suc m ≤ b.size
    → i < h.size
    → i < suc m
    → copy (kept h.size (suc m)) q (h.addr + word_size) bytes (q + i)
      ≡ bytes (h.addr + word_size + i)
kept-copied h b m q i bytes apart at enough lt lt' =
    copy-in_range (kept h.size (suc m)) q (h.addr + word_size) bytes (q + i) (ground arith)
    ∙ ground arith

module _ (mmap : ℕ → ℕ → Option ℕ) (psize m : ℕ) (h : Hole) (live : List Hole) (s : Heap)
    (v : IsValid (h ∷ live) s) (pages : 0 < psize)
    (small : suc m + word_size + 3 + word_size + psize < 2 ^ 64)
    (fresh : GivesFresh mmap psize (block_size (suc m)) (h ∷ live) s) where
  -- Under the conditions of `malloc-IsValid`, a successful `realloc` of a block that the program holds
  -- gives a block with the old bytes, as many as both blocks have, frees the old one, and leaves the
  -- heap valid.
  pub realloc-IsValid :
      {a : ℕ} {t : Heap}
      → realloc mmap psize (some (h.addr + word_size)) (suc m) s ≡ (some a, t)
      → IsValid (block_at a t ∷ live) t
        × (suc m ≤ (block_at a t).size)
        × ((i : ℕ) → i < h.size → i < suc m → t.bytes (a + i) ≡ s.bytes (h.addr + word_size + i))
  unfolding free
  realloc-IsValid {a} {t} e = elim (Option-cases (malloc mmap psize (suc m) s).0) [
    | inl failed ↦ absurd (realloc_fails mmap psize m h s failed e)
    | inr (q, given) ↦
        let u : Heap = (malloc mmap psize (suc m) s).1 in
        let got : malloc mmap psize (suc m) s ≡ (some q, u) = λ i. (given i, u) in
        let (valid, enough) =
          malloc-IsValid mmap psize (suc m) (h ∷ live) s v pages small fresh got in
        let old : block_at (h.addr + word_size) u ≡ h =
          block_at-live (block_at q u ∷ []) h live u valid in
        let w : Heap = record u {
          bytes = copy (kept h.size (suc m)) q (h.addr + word_size) u.bytes;
        } in
        let freed = free-IsValid (block_at q u ∷ []) h live w (IsValid-bytes w.bytes valid) in
        let result = realloc_copies mmap psize m h s got old in
        let pointer : q ≡ a = cc (result) in
        let heap : free (some (h.addr + word_size)) w ≡ t = cc (result) in
        subst₂
          (λ (q' : ℕ) (t' : Heap).
            IsValid (block_at q' t' ∷ live) t'
            × (suc m ≤ (block_at q' t').size)
            × ((i : ℕ)
                → i < h.size
                → i < suc m
                → t'.bytes (q' + i) ≡ s.bytes (h.addr + word_size + i)))
          pointer heap
          (
            freed.0,
            enough,
            λ i lt lt'.
                kept-copied h (block_at q u) m q i u.bytes valid.apart.0.0
                  (omega (arith, malloc-le mmap psize (suc m) s got)) enough lt lt'
                ∙ ap (λ (b : ℕ → ℕ). b (h.addr + word_size + i))
                    (malloc-bytes mmap psize (suc m) s),
          )
  ]
