-- ===== src/Floppy/Tests.antt =====
-- Examples for the theorems about exercises/ex18.
use os_coursework.Prelude.{
  ℕ, zero, suc, ◌+◌, ◌*◌, ◌-◌, ◌/◌, ◌%◌, ◌<◌, ◌≡◌, refl, Bool, true, false, List, [], ◌∷◌, ltb,
  Option, some, none, arith, if◌then◌else◌, get_or, strncpy, decimal,
}
use os_coursework.Floppy.{Disk, fat_start, bytes_at, read, done, get_fat12}
use os_coursework.Floppy.Entry.{
  skipped, is_dir, full_name, start_cluster, file_size, print_line, print_int, join_name,
  all_spaces, trim, until_nul,
}
use os_coursework.Floppy.Report.{
  in_chain, cluster_start, dir_column, main, floppy_dir, root_lines, walk, sector_lines, follow,
  entry_lines,
}
use os_coursework.Floppy.Fat.{IsFat, get_fat12-IsFat}
use os_coursework.Floppy.Names.{Printed, pad}
use os_coursework.Floppy.Fields.{
  Encoded, IsEncodable, little_endian, encode_entry, decode-encode_entry,
}

abbrev four_entries : ℕ → ℕ
four_entries zero = 4080
four_entries (suc zero) = 4095
four_entries (suc (suc zero)) = 3
four_entries (suc (suc (suc zero))) = 291
four_entries (suc (suc (suc (suc i)))) = 0

four_entries_small : (i : ℕ) → four_entries i < 4096
four_entries_small zero = omega arith
four_entries_small (suc zero) = omega arith
four_entries_small (suc (suc zero)) = omega arith
four_entries_small (suc (suc (suc zero))) = omega arith
four_entries_small (suc (suc (suc (suc i)))) = omega arith

abbrev table_disk : Disk
table_disk = record {
  size = 518;
  byte = λ i. get_or (240 ∷ 255 ∷ 255 ∷ 3 ∷ 48 ∷ 18 ∷ []) (i - 512) 0;
}

below_two : (P : ℕ → Type 0) → P 0 → P 1 → (k : ℕ) → k < 2 → P k
below_two P p q zero lt = p
below_two P p q (suc zero) lt = q
below_two P p q (suc (suc k)) lt = absurd (omega arith)

table_disk-IsFat : IsFat four_entries 2 table_disk
table_disk-IsFat = record {
  inside = omega arith;
  small = four_entries_small;
  low = below_two (λ k. table_disk.byte (fat_start + k * 3) ≡ four_entries (2 * k) % 256) refl refl;
  middle =
      below_two
        (λ k.
          table_disk.byte (fat_start + k * 3 + 1)
          ≡ four_entries (2 * k) / 256 + four_entries (2 * k + 1) % 16 * 16)
        refl refl;
  high =
      below_two (λ k. table_disk.byte (fat_start + k * 3 + 1 + 1) ≡ four_entries (2 * k + 1) / 16)
        refl refl;
}

get_fat12-IsFat_example : get_fat12 table_disk 3 ≡ done 291
get_fat12-IsFat_example = get_fat12-IsFat table_disk-IsFat 3 (omega arith)

-- `KERNEL.SYS`
abbrev kernel : Encoded
kernel = record {
  name = 75 ∷ 69 ∷ 82 ∷ 78 ∷ 69 ∷ 76 ∷ [];
  extension = 83 ∷ 89 ∷ 83 ∷ [];
  attributes = 32;
  dates = λ i. 0;
  cluster = 515;
  size = 70000;
}

printed : (c : ℕ) → 32 < c → Printed c
printed c h = (omega arith, omega arith)

kernel-IsEncodable : IsEncodable kernel
kernel-IsEncodable = record {
  name = (
    printed 75 (omega arith),
    (
      printed 69 (omega arith),
      (
        printed 82 (omega arith),
        (printed 78 (omega arith), (printed 69 (omega arith), (printed 76 (omega arith), tt))),
      ),
    ),
  );
  extension =
      (printed 83 (omega arith), (printed 89 (omega arith), (printed 83 (omega arith), tt)));
  name_length = omega arith;
  extension_length = omega arith;
  cluster = omega arith;
  size = omega arith;
}

decode-encode_entry_example :
    (full_name (encode_entry kernel) ≡ 75 ∷ 69 ∷ 82 ∷ 78 ∷ 69 ∷ 76 ∷ 46 ∷ 83 ∷ 89 ∷ 83 ∷ [])
    × (start_cluster (encode_entry kernel) ≡ 515)
    × (file_size (encode_entry kernel) ≡ 70000)
    × (is_dir (encode_entry kernel) ≡ false)
decode-encode_entry_example = decode-encode_entry kernel kernel-IsEncodable

-- The root directory has the subdirectory `A` at cluster 2, which has the file `B` of 5 bytes.
abbrev directory_a : Encoded
directory_a = record {
  name = 65 ∷ [];
  extension = [];
  attributes = 16;
  dates = λ i. 0;
  cluster = 2;
  size = 0;
}

abbrev file_b : Encoded
file_b = record {
  name = 66 ∷ [];
  extension = [];
  attributes = 32;
  dates = λ i. 0;
  cluster = 3;
  size = 5;
}

-- Every entry of the table ends a chain.
abbrev small_disk : Disk
small_disk = record {
  size = 16928;
  byte = λ i.
      if ltb i 9728
      then 255
      else if ltb i 16896
      then get_or (encode_entry directory_a) (i - 9728) 0
      else get_or (encode_entry file_b) (i - 16896) 0;
}

-- Entries of the table that reach behind it have a rank of their own.
abbrev small_rank : ℕ → ℕ
small_rank cluster = if ltb cluster 6000 then 0 else 1

dir_of : Option (List ℕ) → Bool
dir_of none = true
dir_of (some entry) = is_dir entry

-- The lines `A DIR` and, indented, `B 5`.
small_report :
    floppy_dir 2 small_disk
    ≡ done (print_line 0 (65 ∷ []) dir_column ∷ print_line 4 (66 ∷ []) (53 ∷ []) ∷ [])
unfolding floppy_dir main root_lines walk sector_lines follow entry_lines in_chain cluster_start
    skipped is_dir full_name join_name all_spaces trim until_nul start_cluster file_size print_int
    decimal read bytes_at get_fat12 encode_entry pad little_endian strncpy
small_report = refl
