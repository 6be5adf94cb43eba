-- ===== src/Editor/Server/Edits.antt =====
-- assignments/hw2/server.c: an insertion and a deletion in a buffer that holds a string.
use os_coursework.Prelude.{
  ℕ, zero, suc, ◌+◌, ◌-◌, ◌≤◌, ◌<◌, ◌≡◌, ◌≢◌, refl, sym, ap, ◌∙◌, inl, inr, Bool-cases, List, [],
  ◌∷◌, ◌++◌, length, length-append, take, drop, replicate, arith, ltb, ltb→lt,
}
use mathlib.Core.List.{append_assoc, append-nil}
use os_coursework.Editor.{done, ◌>>=◌, store}
use os_coursework.Editor.Text.{insert_at, delete_at, padded, length-padded, length-replicate}
use os_coursework.Editor.Holds.{
  Holds, NonZero-insert_at, NonZero-delete_at, length-insert_at, length-delete_at,
}
use os_coursework.Editor.Server.{shift_up, shift_down}
use os_coursework.Editor.Server.Shifts.{store-shift_up, shift_down_lem}

take-append : (i : ℕ) (text rest : List ℕ) → i ≤ length text → take i (text ++ rest) ≡ take i text
take-append zero text rest le = refl
take-append (suc i) [] rest le = absurd (omega arith)
take-append (suc i) (d ∷ text) rest le = ap (λ r. d ∷ r) (take-append i text rest (omega arith))

window-append :
    (i n : ℕ) (text rest : List ℕ)
    → i + n ≡ length text
    → take n (drop i (text ++ rest)) ≡ drop i text
window-append zero zero [] rest e = refl
window-append zero zero (d ∷ text) rest e = absurd (omega (arith, e))
window-append zero (suc n) [] rest e = absurd (omega (arith, e))
window-append zero (suc n) (d ∷ text) rest e =
    ap (λ r. d ∷ r) (window-append zero n text rest (omega (arith, e)))
window-append (suc i) n [] rest e = absurd (omega (arith, e))
window-append (suc i) n (d ∷ text) rest e = window-append i n text rest (omega (arith, e))

drop-append : (n : ℕ) (text rest : List ℕ) → n ≡ length text → drop n (text ++ rest) ≡ rest
drop-append zero [] rest e = refl
drop-append zero (d ∷ text) rest e = absurd (omega (arith, e))
drop-append (suc n) [] rest e = absurd (omega (arith, e))
drop-append (suc n) (d ∷ text) rest e = drop-append n text rest (omega (arith, e))

-- An insertion takes the place of the NUL and of nothing behind it.
pub insert-bytes :
    (i c : ℕ) (text rest : List ℕ)
    → i ≤ length text
    → (shift_up i (length text - i) (text ++ 0 ∷ rest) >>= λ moved. store i c moved)
      ≡ done (insert_at i c text ++ rest)
insert-bytes i c text rest le =
    let n = length text - i in
    let inside : i + n < length (text ++ 0 ∷ rest) = omega (arith, length-append text (0 ∷ rest)) in
    let end : suc (i + n) ≡ length (text ++ 0 ∷ []) = omega (arith, length-append text (0 ∷ [])) in
    let tail = ap (λ s. drop (suc (i + n)) s) (append_assoc text (0 ∷ []) rest) in
    rw
      (
        take-append i text (0 ∷ rest) le,
        window-append i n text (0 ∷ rest) (omega arith),
        sym tail,
        drop-append (suc (i + n)) (text ++ 0 ∷ []) rest end,
      )
      at (store-shift_up i n c (text ++ 0 ∷ rest) inside)
    ∙ ap done (sym (append_assoc (take i text) (c ∷ drop i text) rest))

snoc-padded : (text : List ℕ) (k : ℕ) → padded text k ++ 0 ∷ [] ≡ padded text (suc k)
snoc-padded [] zero = refl
snoc-padded [] (suc k) = ap (λ r. 0 ∷ r) (snoc-padded [] k)
snoc-padded (d ∷ text) k = ap (λ r. d ∷ r) (snoc-padded text k)

pub snoc-zeros : (k : ℕ) → replicate {A = ℕ} k 0 ++ 0 ∷ [] ≡ 0 ∷ replicate k 0
snoc-zeros zero = refl
snoc-zeros (suc k) = ap (λ r. 0 ∷ r) (snoc-zeros k)

pub take_whole : (n : ℕ) (s : List ℕ) → n ≡ length s → take n s ≡ s
take_whole n s e =
    ap (λ r. take n r) (sym (append-nil s)) ∙ window-append 0 n s [] (omega (arith, e))

last_zero : (n : ℕ) (text : List ℕ) (k : ℕ) → n ≡ length text + k → drop n (padded text k) ≡ 0 ∷ []
last_zero zero [] zero e = refl
last_zero zero [] (suc k) e = absurd (omega (arith, e))
last_zero zero (d ∷ text) k e = absurd (omega (arith, e))
last_zero (suc n) [] zero e = absurd (omega (arith, e))
last_zero (suc n) [] (suc k) e = last_zero n [] k (omega (arith, e))
last_zero (suc n) (d ∷ text) k e = last_zero n text k (omega (arith, e))

-- A buffer of zeros behind a string, without its last byte and without its first one.
close_padded :
    (i n : ℕ) (text : List ℕ) (k : ℕ)
    → i ≤ length text
    → i + n ≡ length text + k
    → take i (padded text k) ++ (take n (drop (suc i) (padded text k)) ++ 0 ∷ [])
      ≡ padded (delete_at i text) (length text + k - length (delete_at i text))
close_padded zero n [] k le e =
    let same : 0 + k - 0 ≡ k = omega arith in
    rw (same, take_whole n (replicate k 0) (omega (arith, e, length-replicate k))) (snoc-zeros k)
close_padded zero n (d ∷ text) k le e =
    let same : suc (length text) + k - length text ≡ suc k = omega arith in
    rw (same, take_whole n (padded text k) (omega (arith, e, length-padded text k)))
      (snoc-padded text k)
close_padded (suc i) n [] k le e = absurd (omega arith)
close_padded (suc i) n (d ∷ text) k le e =
    let same : suc (length text) + k - suc (length (delete_at i text))
        ≡ length text + k - length (delete_at i text) =
      omega arith in
    rw same (ap (λ r. d ∷ r) (close_padded i n text k (omega arith) (omega (arith, e))))

pub delete-bytes :
    (i : ℕ) (text : List ℕ) (k : ℕ)
    → i ≤ length text
    → shift_down (length text + k - i) i (padded text k)
      ≡ done (padded (delete_at i text) (length text + k - length (delete_at i text)))
delete-bytes i text k le =
    let n = length text + k - i in
    rw (last_zero (i + n) text k (omega arith)) at
      (shift_down_lem n i (padded text k) (omega (arith, length-padded text k)))
    ∙ ap done (close_padded i n text k le (omega arith))

-- An insertion into a string of fewer than 75 characters.
pub insert-Holds :
    (i c : ℕ) {text buffer : List ℕ}
    → Holds text buffer
    → c ≢ 0
    → i ≤ length text
    → length text < 75
    → (b : List ℕ) × ((shift_up i (length text - i) buffer >>= λ moved. store i c moved) ≡ done b)
      × Holds (insert_at i c text) b
insert-Holds i c {text} h nz le lt =
    let k = 74 - length text in
    let room : 75 - length text ≡ suc k = omega arith in
    let size : 75 - length (insert_at i c text) ≡ k = omega (arith, length-insert_at i c text) in
    (
      padded (insert_at i c text) k,
      rw (h.bytes, room) (insert-bytes i c text (0 ∷ replicate k 0) le),
      record {
        nonzero = NonZero-insert_at i c text nz h.nonzero;
        short = omega (arith, length-insert_at i c text);
        bytes = rw size refl;
      },
    )

delete_at_end : (i : ℕ) (text : List ℕ) → length text ≤ i → delete_at i text ≡ text
delete_at_end zero [] le = refl
delete_at_end zero (d ∷ text) le = absurd (omega arith)
delete_at_end (suc i) [] le = refl
delete_at_end (suc i) (d ∷ text) le = ap (λ r. d ∷ r) (delete_at_end i text (omega arith))

-- A deletion makes a string shorter by one, or not at all.
pub length-delete_at_le :
    (i : ℕ) (text : List ℕ)
    → (length (delete_at i text) ≤ length text) × (length text ≤ suc (length (delete_at i text)))
length-delete_at_le i text = elim (Bool-cases (ltb i (length text))) [
  | inl within ↦
      let size = length-delete_at i text (ltb→lt i (length text) within) in
      (omega (arith, size), omega (arith, size))
  | inr end ↦
      let same = ap length (delete_at_end i text (ground (arith, end))) in
      (omega (arith, same), omega (arith, same))
]

-- A deletion, at the end of the string too.
pub delete-Holds :
    (i : ℕ) {text buffer : List ℕ}
    → Holds text buffer
    → i ≤ length text
    → (b : List ℕ) × (shift_down (75 - i) i buffer ≡ done b) × Holds (delete_at i text) b
delete-Holds i {text} h le =
    let k = 75 - length text in
    let rounds : 75 - i ≡ length text + k - i = omega (arith, h.short) in
    let size : 75 - length (delete_at i text) ≡ length text + k - length (delete_at i text) =
      omega (arith, h.short) in
    (
      padded (delete_at i text) (length text + k - length (delete_at i text)),
      rw (h.bytes, rounds) (delete-bytes i text k le),
      record {
        nonzero = NonZero-delete_at i text h.nonzero;
        short = omega (arith, h.short, (length-delete_at_le i text).0);
        bytes = rw size refl;
      },
    )
