-- ===== src/Editor/Server/Copies.antt =====
-- assignments/hw2/server.c: what `strcpy` and the loops make of a buffer that holds a string.
use os_coursework.Prelude.{
  ℕ, zero, suc, ◌+◌, ◌-◌, ◌≤◌, ◌<◌, ◌≡◌, refl, ap, ◌∙◌, true, List, [], ◌∷◌, ◌++◌, ltb, ◌==◌,
  length, arith, subst, Bool-cases, inl, inr,
}
use os_coursework.Editor.{
  Outcome, done, blocked, exited, undefined, ◌>>=◌, string_limit, overwrite, c_string,
}
use os_coursework.Editor.Text.{padded, NonZero, length-overwrite}
use os_coursework.Editor.Holds.{Holds, length-Holds, c_string-Holds}
use os_coursework.Editor.Server.{strcpy}

-- A buffer of `string_limit` bytes in which a string ends, whatever follows it.
pub record Stores (text buffer : List ℕ) : Type 0 where
  pub read : c_string buffer ≡ done text
  pub size : length buffer ≡ string_limit

done_inj : {A : Type 0} {a b : A} → done a ≡ done b → a ≡ b
done_inj {A} {a} e = ap (λ o. elim o [ done x ↦ x | _ ↦ a ]) e

>>=-inv :
    {A B : Type 0} (m : Outcome A) (f : A → Outcome B) (b : B)
    → (m >>= f) ≡ done b
    → (a : A) × (m ≡ done a) × (f a ≡ done b)
>>=-inv (done a) f b e = (a, refl, e)
>>=-inv blocked f b e = absurd (cc (e))
>>=-inv exited f b e = absurd (cc (e))
>>=-inv undefined f b e = absurd (cc (e))

-- The string of a buffer is shorter than the buffer, and has no NUL.
c_string-NonZero :
    (buffer text : List ℕ)
    → c_string buffer ≡ done text
    → NonZero text × (length text < length buffer)
unfolding c_string
c_string-NonZero [] text e = absurd (cc (e))
c_string-NonZero (c ∷ buffer) text e = elim (Bool-cases (c == 0)) [
  | inl nul ↦
      subst (λ t. NonZero t × (length t < suc (length buffer))) (done_inj (rw nul at e))
        (tt, omega arith)
  | inr other ↦
      let (rest, read, whole) =
        >>=-inv (c_string buffer) (λ s. done (c ∷ s)) text (rw other at e) in
      let inner = c_string-NonZero buffer rest read in
      subst (λ t. NonZero t × (length t < suc (length buffer))) (done_inj whole)
        ((ground (arith, other), inner.0), omega (arith, inner.1))
]

-- A string copied over a string that is at most one longer, or over zeros.
overwrite-padded :
    (text old : List ℕ) (k : ℕ)
    → length old ≤ suc (length text)
    → length text < length old + suc k
    → overwrite 0 (text ++ 0 ∷ []) (padded old k) ≡ padded text (length old + k - length text)
unfolding overwrite
overwrite-padded [] [] k h r = let same : 0 + k - 0 ≡ k = omega arith in rw same refl
overwrite-padded [] (d ∷ []) k h r = let same : 1 + k - 0 ≡ suc k = omega arith in rw same refl
overwrite-padded [] (d ∷ e ∷ old) k h r = absurd (omega (arith, h))
overwrite-padded (c ∷ text) [] zero h r = absurd (omega (arith, r))
overwrite-padded (c ∷ text) [] (suc k) h r =
    let same : 0 + suc k - suc (length text) ≡ 0 + k - length text = omega arith in
    rw same (ap (λ b. c ∷ b) (overwrite-padded text [] k (omega arith) (omega (arith, r))))
overwrite-padded (c ∷ text) (d ∷ old) k h r =
    let same : suc (length old) + k - suc (length text) ≡ length old + k - length text =
      omega arith in
    rw same (ap (λ b. c ∷ b) (overwrite-padded text old k (omega (arith, h)) (omega (arith, r))))

-- A string copied into any buffer that is large enough.
c_string-overwrite :
    (text buffer : List ℕ)
    → NonZero text
    → length text < length buffer
    → c_string (overwrite 0 (text ++ 0 ∷ []) buffer) ≡ done text
unfolding overwrite c_string
c_string-overwrite [] (b ∷ buffer) nz lt = refl
c_string-overwrite text [] nz lt = absurd (omega (arith, lt))
c_string-overwrite (c ∷ text) (b ∷ buffer) nz lt =
    ground (arith, c_string-overwrite text buffer nz.1 (omega (arith, lt)), nz.0)

pub Stores-Holds : {text buffer : List ℕ} → Holds text buffer → Stores text buffer
Stores-Holds h = record { read = c_string-Holds h; size = length-Holds h }

pub Stores-NonZero :
    {text buffer : List ℕ} → Stores text buffer → NonZero text × (length text < string_limit)
Stores-NonZero {text} {buffer} s =
    let inner = c_string-NonZero buffer text s.read in (inner.0, omega (arith, inner.1, s.size))

-- `strcpy` into a buffer of the history.
pub strcpy-Stores :
    {text old dest source : List ℕ}
    → Stores old dest
    → Stores text source
    → (b : List ℕ) × (strcpy dest source ≡ done b) × Stores text b
unfolding strcpy
strcpy-Stores {text} {old} {dest} {source} d s =
    let short = Stores-NonZero s in
    let room : ltb (length text) (length dest) ≡ true = ground (arith, d.size, short.1) in
    (
      overwrite 0 (text ++ 0 ∷ []) dest,
      rw (s.read, room) refl,
      record {
        read = c_string-overwrite text dest short.0 (omega (arith, d.size, short.1));
        size = length-overwrite 0 (text ++ 0 ∷ []) dest ∙ d.size;
      },
    )

-- `strcpy` into the string, of a text that is not shorter by more than one.
pub strcpy-Holds :
    {text old dest source : List ℕ}
    → Holds old dest
    → Stores text source
    → length old ≤ suc (length text)
    → (b : List ℕ) × (strcpy dest source ≡ done b) × Holds text b
unfolding strcpy
strcpy-Holds {text} {old} {dest} {source} d s le =
    let short = Stores-NonZero s in
    let room : ltb (length text) (length dest) ≡ true = ground (arith, length-Holds d, short.1) in
    let zeros : length old + (75 - length old) - length text ≡ 75 - length text =
      omega (arith, d.short) in
    (
      overwrite 0 (text ++ 0 ∷ []) dest,
      rw (s.read, room) refl,
      record {
        nonzero = short.0;
        short = short.1;
        bytes =
            rw
              (
                d.bytes,
                overwrite-padded text old (75 - length old) le (omega (arith, d.short, short.1)),
                zeros,
              )
              refl;
      },
    )
