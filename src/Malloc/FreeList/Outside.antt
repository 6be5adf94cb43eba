-- ===== src/Malloc/FreeList/Outside.antt =====
-- A block lies outside the free list exactly when none of its bytes is free.
use os_coursework.Prelude.{ℕ, ◌≡◌, refl, true, false, List, [], ◌∷◌, arith}
use os_coursework.Malloc.FreeList.{Hole, return_block}
use os_coursework.Malloc.FreeList.Space.{Apart, Outside, in_block, is_free, is_free-return_block}

pub Outside-not_free :
    (h : Hole) (r : List Hole) → Outside h r → (x : ℕ) → in_block x h ≡ true → is_free x r ≡ false
Outside-not_free h [] out x i = refl
Outside-not_free h (n ∷ r) out x i = ground (arith, Outside-not_free h r out.1 x i, out.0)

pub not_free-Outside :
    (h : Hole) (r : List Hole) → ((x : ℕ) → in_block x h ≡ true → is_free x r ≡ false) → Outside h r
not_free-Outside h [] f = tt
not_free-Outside h (n ∷ r) f =
    (ground (arith, f h.addr, f n.addr), not_free-Outside h r (λ x i. ground (arith, f x i)))

-- A block apart from one that is returned stays outside.
pub return_block-Outside :
    (h k : Hole) (r : List Hole) → Outside h r → Apart h k → Outside h (return_block k r)
return_block-Outside h k r out apart =
    not_free-Outside h (return_block k r)
      (λ x i. ground (arith, is_free-return_block x k r, Outside-not_free h r out x i, apart))
