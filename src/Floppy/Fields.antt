-- ===== src/Floppy/Fields.antt =====
-- exercises/ex18: a directory entry as the format lays it out, and what floppyDir.c and
-- floppyDirNew.c read of it.
use os_coursework.Prelude.{
  ℕ, zero, suc, ◌+◌, ◌*◌, ◌/◌, ◌%◌, ◌≤◌, ◌<◌, ◌≡◌, refl, sym, ap, ◌∙◌, List, [], ◌∷◌, ◌++◌, All,
  ◌==◌, get_or, length, arith, bit_or-shift_left, shift_left,
}
use os_coursework.Floppy.Entry.{at, is_dir, full_name, start_cluster, file_size}
use os_coursework.Floppy.Names.{Printed, pad, get_or-pad, dotted, full_name-pad}
use Prim.Native.Nat.{bit_and, bit_or}

-- A number in `n` bytes, the lowest first.
unfoldable pub little_endian : ℕ → ℕ → List ℕ
little_endian zero x = []
little_endian (suc n) x = x % 256 ∷ little_endian n (x / 256)

-- An entry of the format: name, extension, attributes, fourteen bytes of dates and the like, the
-- first cluster and the size.
pub record Encoded : Type 0 where
  pub name : List ℕ
  pub extension : List ℕ
  pub attributes : ℕ
  pub dates : ℕ → ℕ
  pub cluster : ℕ
  pub size : ℕ

unfoldable pub encode_entry : Encoded → List ℕ
encode_entry e =
    pad 8 e.name
    ++ (pad 3 e.extension
        ++ (e.attributes
            ∷ e.dates 0
            ∷ e.dates 1
            ∷ e.dates 2
            ∷ e.dates 3
            ∷ e.dates 4
            ∷ e.dates 5
            ∷ e.dates 6
            ∷ e.dates 7
            ∷ e.dates 8
            ∷ e.dates 9
            ∷ e.dates 10
            ∷ e.dates 11
            ∷ e.dates 12
            ∷ e.dates 13
            ∷ (little_endian 2 e.cluster ++ little_endian 4 e.size)))

pub record IsEncodable (e : Encoded) : Type 0 where
  pub name : All Printed e.name
  pub extension : All Printed e.extension
  pub name_length : length e.name ≤ 8
  pub extension_length : length e.extension ≤ 3
  pub cluster : e.cluster < 65536
  pub size : e.size < 4294967296

or_bytes2 : (x : ℕ) → x < 65536 → bit_or (x % 256) (x / 256 % 256 * 256) ≡ x
or_bytes2 x h =
    let shifted : shift_left (x / 256 % 256) 8 ≡ x / 256 % 256 * 256 = omega arith in
    rw (sym shifted, bit_or-shift_left 8 (x % 256) (x / 256 % 256) (omega arith)) (omega arith)

shift_left-mul : (k b : ℕ) → shift_left b k ≡ b * shift_left 1 k
shift_left-mul zero b = omega arith
shift_left-mul (suc k) b = grind (arith, shift_left-mul k b)

or_byte : (k a b : ℕ) → a < shift_left 1 k → bit_or a (b * shift_left 1 k) ≡ a + b * shift_left 1 k
or_byte k a b h = rw (sym (shift_left-mul k b)) (bit_or-shift_left k a b h)

-- The fourth byte goes above the 24 bits of the three others.
or_bytes4 :
    (a b c d : ℕ)
    → a < 256
    → b < 256
    → c < 256
    → bit_or (bit_or (bit_or a (b * 256)) (c * 65536)) (d * 16777216)
      ≡ a + b * 256 + c * 65536 + d * 16777216
or_bytes4 a b c d ha hb hc =
    rw
      (
        or_byte 8 a b (omega arith),
        or_byte 16 (a + b * 256) c (omega arith),
        or_byte 24 (a + b * 256 + c * 65536) d (omega arith),
      )
      refl

bytes4 :
    (x : ℕ)
    → x < 4294967296
    → x % 256
        + x / 256 % 256 * 256
        + x / 256 / 256 % 256 * 65536
        + x / 256 / 256 / 256 % 256 * 16777216
      ≡ x
bytes4 x h = omega arith

at-encode_entry :
    (e : Encoded) (i : ℕ)
    → at (encode_entry e) (11 + i)
      ≡ get_or
          (e.attributes
            ∷ e.dates 0
            ∷ e.dates 1
            ∷ e.dates 2
            ∷ e.dates 3
            ∷ e.dates 4
            ∷ e.dates 5
            ∷ e.dates 6
            ∷ e.dates 7
            ∷ e.dates 8
            ∷ e.dates 9
            ∷ e.dates 10
            ∷ e.dates 11
            ∷ e.dates 12
            ∷ e.dates 13
            ∷ (little_endian 2 e.cluster ++ little_endian 4 e.size))
          i
          0
unfolding encode_entry
at-encode_entry e i =
    ap (λ k. at (encode_entry e) k) {y = 8 + (3 + i)} (omega arith)
    ∙ (get_or-pad 8 e.name _ (3 + i) ∙ get_or-pad 3 e.extension _ i)

start_cluster-encode :
    (e : Encoded) → e.cluster < 65536 → start_cluster (encode_entry e) ≡ e.cluster
unfolding start_cluster little_endian
start_cluster-encode e h = rw (at-encode_entry e 15, at-encode_entry e 16) (or_bytes2 e.cluster h)

file_size-encode : (e : Encoded) → e.size < 4294967296 → file_size (encode_entry e) ≡ e.size
unfolding file_size little_endian
file_size-encode e h =
    rw (at-encode_entry e 17, at-encode_entry e 18, at-encode_entry e 19, at-encode_entry e 20)
      (or_bytes4 (e.size % 256) (e.size / 256 % 256) (e.size / 256 / 256 % 256)
          (e.size / 256 / 256 / 256 % 256) (omega arith) (omega arith) (omega arith)
        ∙ bytes4 e.size h)

-- What the code reads of an entry laid out by the format, with a name and an extension free of NUL
-- and space, is what was encoded: the name with its extension, the first cluster and the size, and a
-- subdirectory by its attribute.
pub decode-encode_entry :
    (e : Encoded)
    → IsEncodable e
    → (full_name (encode_entry e) ≡ dotted e.name e.extension)
      × (start_cluster (encode_entry e) ≡ e.cluster)
      × (file_size (encode_entry e) ≡ e.size)
      × (is_dir (encode_entry e) ≡ (bit_and e.attributes 16 == 16))
unfolding is_dir encode_entry
decode-encode_entry e ok = (
  full_name-pad e.name e.extension _ ok.name ok.extension ok.name_length ok.extension_length,
  start_cluster-encode e ok.cluster,
  file_size-encode e ok.size,
  ap (λ a. bit_and a 16 == 16) (at-encode_entry e 0),
)
