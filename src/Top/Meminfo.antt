-- ===== src/Top/Meminfo.antt =====
-- assignments/hw7/top.c and `top 2.c`: what is printed from a /proc/meminfo that the kernel writes.
use os_coursework.Prelude.{ℕ, ◌^◌, ◌<◌, ◌≡◌, false, List, [], ◌∷◌, ◌++◌, All, decimal}
use os_coursework.Prelude.Scan.{Spaces}
use os_coursework.Top.{starts_with}

abbrev pub amount_body : List ℕ → List ℕ → ℕ → List ℕ
amount_body key spaces n = key ++ (spaces ++ (decimal 10 n ++ 32 ∷ b'k' ∷ b'B' ∷ []))

abbrev line_of : List ℕ → List ℕ
line_of body = body ++ 10 ∷ []

-- A line with neither key.
abbrev pub Neither : List ℕ → List ℕ → List ℕ → Type 0
Neither total_key free_key body =
    (starts_with total_key (body ++ 10 ∷ []) ≡ false)
    × (starts_with free_key (body ++ 10 ∷ []) ≡ false)

-- The two amounts in their order, with other lines before, between and behind them.
pub record HasAmounts (total_key free_key : List ℕ) (total free : ℕ) (bodies : List (List ℕ))
    : Type 0 where
  pub head : List (List ℕ)
  pub middle : List (List ℕ)
  pub foot : List (List ℕ)
  pub spaces : List ℕ
  pub spaces' : List ℕ
  pub lines :
      bodies
      ≡ head
        ++ amount_body total_key spaces total ∷ (middle ++ amount_body free_key spaces' free ∷ foot)
  pub others : All (Neither total_key free_key) head × All (Neither total_key free_key) middle
  pub blanks : Spaces spaces × Spaces spaces'
  pub numbers : (total < 10 ^ 10) × (free < 10 ^ 10)
