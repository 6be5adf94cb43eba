-- ===== src/Malloc/FreeList/Canonical.antt =====
-- The free space determines the free list, so `returnBlock` undoes `getBlock`.
use mathlib.Core.Path.{ap₂}
use mathlib.Core.Bool.{true≢false}
use native.Mathlib.Decide.{dec_lt}
use os_coursework.Prelude.{
  ℕ, ◌≤◌, ◌<◌, ◌≡◌, refl, true, false, some, List, [], ◌∷◌, if◌then◌else◌, arith, Bool-cases, inl,
  inr, ◌∙◌, sym,
}
use os_coursework.Malloc.FreeList.{Hole, end, get_block, return_block}
use os_coursework.Malloc.FreeList.Space.{
  Above, Separated, in_block, is_free, return_block-Separated, is_free-return_block,
  get_block-IsFound,
}

not_free_below : (e x : ℕ) (r : List Hole) → Above e r → Separated r → x ≤ e → is_free x r ≡ false
not_free_below e x [] a s le = refl
not_free_below e x (h ∷ r) a s le = ground (arith, not_free_below (end h) x r s.0 s.1 (omega arith))

first_free : (h : Hole) (r : List Hole) → is_free h.addr (h ∷ r) ≡ true
first_free h r = ground arith

inside_free : (x : ℕ) (h : Hole) (r : List Hole) → h.addr ≤ x → x < end h → is_free x (h ∷ r) ≡ true
inside_free x h r le lt = ground arith

end_not_free : (h : Hole) (r : List Hole) → Separated (h ∷ r) → is_free (end h) (h ∷ r) ≡ false
end_not_free h r s =
    let behind = not_free_below (end h) (end h) r s.0 s.1 (omega arith) in ground (arith, behind)

abbrev pub SameSpace : List Hole → List Hole → Type 0
SameSpace l l' = (x : ℕ) → is_free x l ≡ is_free x l'

no_earlier_addr :
    (a b : Hole) (r r' : List Hole)
    → Separated (b ∷ r')
    → SameSpace (a ∷ r) (b ∷ r')
    → b.addr ≤ a.addr
no_earlier_addr a b r r' s' same = elim (dec_lt a.addr b.addr) [
  | yes lt ↦ absurd (
      true≢false (
        sym (first_free a r)
        ∙ same a.addr
        ∙ not_free_below a.addr a.addr (b ∷ r') lt s' (omega arith)))
  | no ge ↦ omega arith
]

no_earlier_end :
    (a b : Hole) (r r' : List Hole)
    → Separated (a ∷ r)
    → a.addr ≡ b.addr
    → SameSpace (a ∷ r) (b ∷ r')
    → end b ≤ end a
no_earlier_end a b r r' s e same = elim (dec_lt (end a) (end b)) [
  | yes lt ↦ absurd (
      true≢false
        (sym (inside_free (end a) b r' (omega arith) lt) ∙ sym (same (end a)) ∙ end_not_free a r s))
  | no ge ↦ omega arith
]

first_same :
    (a b : Hole) (r r' : List Hole)
    → Separated (a ∷ r)
    → Separated (b ∷ r')
    → SameSpace (a ∷ r) (b ∷ r')
    → a ≡ b
first_same a b r r' s s' same = λ i. record { addr = at i; size = extent i }
  where
    at : a.addr ≡ b.addr
    at =
        omega
          (arith, no_earlier_addr a b r r' s' same, no_earlier_addr b a r' r s (λ x. sym (same x)))

    extent : a.size ≡ b.size
    extent = omega (
      arith,
      at,
      no_earlier_end a b r r' s at same,
      no_earlier_end b a r' r s' (sym at) (λ x. sym (same x)),
    )

is_free-tail :
    (x : ℕ) (h : Hole) (r : List Hole)
    → Separated (h ∷ r)
    → is_free x r ≡ (if in_block x h then false else is_free x (h ∷ r))
is_free-tail x h r s = elim (Bool-cases (in_block x h)) [
  | inl within ↦ rw within (not_free_below (end h) x r s.0 s.1 (ground arith))
  | inr without ↦ rw without
]

others_same :
    (a b : Hole) (r r' : List Hole)
    → Separated (a ∷ r)
    → Separated (b ∷ r')
    → SameSpace (a ∷ r) (b ∷ r')
    → SameSpace r r'
others_same a b r r' s s' same x =
    is_free-tail x a r s
    ∙ ap₂ (λ h f. if in_block x h then false else f) (first_same a b r r' s s' same) (same x)
    ∙ sym (is_free-tail x b r' s')

-- Two lists in order that leave the same space free are one list.
pub free_list_ext : (l l' : List Hole) → Separated l → Separated l' → SameSpace l l' → l ≡ l'
free_list_ext [] [] s s' same = refl
free_list_ext [] (h ∷ r) s s' same = ground (arith, same h.addr)
free_list_ext (h ∷ r) [] s s' same = ground (arith, same h.addr)
free_list_ext (a ∷ r) (b ∷ r') s s' same =
    ap₂ ◌∷◌ (first_same a b r r' s s' same)
      (free_list_ext r r' s.1 s'.1 (others_same a b r r' s s' same))

-- To return a block that was taken off the list gives the list back.
return_block-get_block :
    (size : ℕ) (l : List Hole) {h : Hole} {r : List Hole}
    → Separated l
    → get_block size l ≡ some (h, r)
    → return_block h r ≡ l
return_block-get_block size l {h} {r} s e =
    let found = get_block-IsFound size l s e in
    free_list_ext (return_block h r) l (return_block-Separated h r found.separated found.outside) s
      (λ x. is_free-return_block x h r ∙ sym (found.space x))
