-- ===== src/Editor/Holds.antt =====
-- Buffers of the editors that hold a string, and what the edits make of them.
use os_coursework.Prelude.{
  ℕ, zero, suc, ◌+◌, ◌-◌, ◌≤◌, ◌<◌, ◌≡◌, ◌≢◌, refl, ap, true, List, [], ◌∷◌, ltb, leb, length, set,
  take, drop, replicate, arith,
}
use os_coursework.Editor.{done, ◌>>=◌, string_limit, overwrite, memmove, store, c_string}
use os_coursework.Prelude.{strncpy}
use os_coursework.Editor.Text.{
  insert_at, delete_at, padded, NonZero, length-padded, length-overwrite, strncpy-padded,
  strncpy-string, c_string-padded, open_gap, close_gap,
}

-- A buffer of `string_limit` bytes that holds a string.
pub record Holds (text buffer : List ℕ) : Type 0 where
  pub nonzero : NonZero text
  pub short : length text < string_limit
  pub bytes : buffer ≡ padded text (75 - length text)

pub length-Holds : {text buffer : List ℕ} → Holds text buffer → length buffer ≡ string_limit
length-Holds {text} h =
    omega (arith, ap length h.bytes, length-padded text (75 - length text), h.short)

pub strncpy-Holds :
    {text buffer : List ℕ} → Holds text buffer → strncpy string_limit buffer ≡ buffer
strncpy-Holds {text} h =
    rw (h.bytes)
      (strncpy-padded string_limit text (75 - length text) h.nonzero (omega (arith, h.short)))

pub c_string-Holds : {text buffer : List ℕ} → Holds text buffer → c_string buffer ≡ done text
c_string-Holds {text} h = rw (h.bytes) (c_string-padded text (75 - length text) h.nonzero)

pub NonZero-insert_at :
    (i c : ℕ) (text : List ℕ) → c ≢ 0 → NonZero text → NonZero (insert_at i c text)
NonZero-insert_at zero c text nz h = (nz, h)
NonZero-insert_at (suc i) c [] nz h = (nz, h)
NonZero-insert_at (suc i) c (d ∷ text) nz h = (h.0, NonZero-insert_at i c text nz h.1)

pub NonZero-delete_at : (i : ℕ) (text : List ℕ) → NonZero text → NonZero (delete_at i text)
NonZero-delete_at zero [] h = h
NonZero-delete_at (suc i) [] h = h
NonZero-delete_at zero (d ∷ text) h = h.1
NonZero-delete_at (suc i) (d ∷ text) h = (h.0, NonZero-delete_at i text h.1)

pub length-insert_at : (i c : ℕ) (text : List ℕ) → length (insert_at i c text) ≡ suc (length text)
length-insert_at zero c text = refl
length-insert_at (suc i) c [] = refl
length-insert_at (suc i) c (d ∷ text) = ap suc (length-insert_at i c text)

pub length-delete_at :
    (i : ℕ) (text : List ℕ) → i < length text → length (delete_at i text) ≡ length text - 1
length-delete_at i [] lt = elim lt [ ]
length-delete_at zero (d ∷ text) lt = omega arith
length-delete_at (suc i) (d ∷ text) lt =
    omega (arith, length-delete_at i text (omega (arith, lt)), lt)

-- The bytes that an insertion writes.
pub insert_bytes :
    (i c k : ℕ) (text : List ℕ)
    → i ≤ length text
    → (memmove (i + 1) i (length text - i + 1) (padded text (suc k)) >>= store i c)
      ≡ done (padded (insert_at i c text) k)
unfolding memmove store
insert_bytes i c k text le =
    let n = length text - i + 1 in
    let size : length (padded text (suc k)) ≡ length text + suc (suc k) =
      length-padded text (suc k) in
    let target : leb (i + 1 + n) (length (padded text (suc k))) ≡ true = ground (arith, size) in
    let origin : leb (i + n) (length (padded text (suc k))) ≡ true = ground (arith, size) in
    let next : i + 1 ≡ suc i = omega arith in
    let bytes = take n (drop i (padded text (suc k))) in
    let inside : ltb i (length (overwrite (suc i) bytes (padded text (suc k)))) ≡ true =
      ground (arith, size, length-overwrite (suc i) bytes (padded text (suc k))) in
    rw (target, origin, next, inside)
      (ap done (open_gap i c n text (replicate k 0) le (omega arith)))

pub delete_bytes :
    (i k : ℕ) (text : List ℕ)
    → i < length text
    → memmove i (i + 1) (length text - i) (padded text k) ≡ done (padded (delete_at i text) (suc k))
unfolding memmove
delete_bytes i k text lt =
    let n = length text - i in
    let size : length (padded text k) ≡ length text + suc k = length-padded text k in
    let target : leb (i + n) (length (padded text k)) ≡ true = ground (arith, size) in
    let origin : leb (i + 1 + n) (length (padded text k)) ≡ true = ground (arith, size) in
    let next : i + 1 ≡ suc i = omega arith in
    rw (target, origin, next) (ap done (close_gap i n text (replicate k 0) lt refl))

pub Holds-insert_at :
    (i c : ℕ) {text buffer : List ℕ}
    → Holds text buffer
    → c ≢ 0
    → i ≤ length text
    → length text < 75
    → (b : List ℕ) × ((memmove (i + 1) i (length text - i + 1) buffer >>= store i c) ≡ done b)
      × Holds (insert_at i c text) b
Holds-insert_at i c {text} h nz le lt =
    let k = 74 - length text in
    let room : 75 - length text ≡ suc k = omega (arith, lt) in
    let size : 75 - length (insert_at i c text) ≡ k = omega (arith, length-insert_at i c text) in
    (
      padded (insert_at i c text) k,
      rw (h.bytes, room) (insert_bytes i c k text le),
      record {
        nonzero = NonZero-insert_at i c text nz h.nonzero;
        short = omega (arith, lt, length-insert_at i c text);
        bytes = rw size refl;
      },
    )

pub Holds-delete_at :
    (i : ℕ) {text buffer : List ℕ}
    → Holds text buffer
    → i < length text
    → (b : List ℕ) × (memmove i (i + 1) (length text - i) buffer ≡ done b)
      × Holds (delete_at i text) b
Holds-delete_at i {text} h lt =
    let k = 75 - length text in
    let size : 75 - length (delete_at i text) ≡ suc k =
      omega (arith, length-delete_at i text lt, h.short, lt) in
    (
      padded (delete_at i text) (suc k),
      rw (h.bytes) (delete_bytes i k text lt),
      record {
        nonzero = NonZero-delete_at i text h.nonzero;
        short = omega (arith, h.short, length-delete_at i text lt);
        bytes = rw size refl;
      },
    )

-- A copy by `strncpy` holds the same string.
pub Holds-strncpy :
    {text buffer : List ℕ} → Holds text buffer → Holds text (strncpy string_limit buffer)
Holds-strncpy h = rw (strncpy-Holds h) h

-- A zero written behind the string changes nothing.
pub set-padded :
    (i : ℕ) (text : List ℕ) (k : ℕ) → length text ≤ i → set (padded text k) i 0 ≡ padded text k
set-padded zero [] k le = refl
set-padded (suc i) [] zero le = refl
set-padded (suc i) [] (suc k) le = ap (0 ∷◌) (set-padded i [] k (omega arith))
set-padded zero (d ∷ text) k le = elim le [ ]
set-padded (suc i) (d ∷ text) k le = ap (d ∷◌) (set-padded i text k (omega (arith, le)))

-- What `reset` writes.
pub Holds-set :
    {text : List ℕ}
    → NonZero text
    → length text < string_limit
    → Holds text (set (strncpy string_limit text) 75 0)
Holds-set {text} nz lt =
    let copied = strncpy-string string_limit text (75 - length text) nz (omega (arith, lt)) in
    record {
      nonzero = nz;
      short = lt;
      bytes = rw copied (set-padded 75 text (75 - length text) (omega (arith, lt)));
    }

pub Holds-empty : Holds [] (strncpy string_limit [])
Holds-empty = record {
  nonzero = tt;
  short = omega arith;
  bytes = strncpy-string string_limit [] 75 tt (omega arith);
}
