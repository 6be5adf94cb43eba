-- ===== src/Floppy/Report.antt =====
-- exercises/ex18/floppyDir.c and floppyDirNew.c: `reportDirectory` and `main`. The two differ in
-- `getFat12` and in how they indent; `unit` is the spaces for each level of a subdirectory.
use os_coursework.Prelude.{
  ℕ, zero, suc, ◌+◌, ◌-◌, ◌*◌, Bool, true, false, not, ◌&&◌, none, some, List, [], ◌∷◌, ◌++◌,
  if◌then◌else◌, ltb, leb, ◌==◌,
}
use os_coursework.Floppy.{
  Disk, read, Result, done, unfinished, ◌>>=◌, sector_size, bad_sector, eoc_marker_start,
  root_start, root_sectors, data_start, get_fat12, get_fat12_new,
}
use os_coursework.Floppy.Entry.{
  entry_size, at, skipped, is_dir, full_name, start_cluster, file_size, print_int, print_line,
}

-- The test of the loop over the clusters.
unfoldable pub in_chain : ℕ → Bool
in_chain cluster = ltb cluster eoc_marker_start && (leb 2 cluster && not (cluster == bad_sector))

unfoldable pub cluster_start : ℕ → ℕ
cluster_start cluster = data_start + (cluster - 2) * sector_size

abbrev pub dir_column : List ℕ
dir_column = 68 ∷ 73 ∷ 82 ∷ []

-- The lines for an entry, and below it those of a subdirectory that starts at a cluster.
unfoldable pub entry_lines : (ℕ → Result (List (List ℕ))) → ℕ → List ℕ → Result (List (List ℕ))
entry_lines report indent entry =
    let first = start_cluster entry in
    if is_dir entry
    then ((if leb 2 first && in_chain first then report first else done []) >>= λ below.
        done (print_line indent (full_name entry) dir_column ∷ below))
    else done (print_line indent (full_name entry) (print_int (file_size entry)) ∷ [])

-- The loop over the `n` entries left in a sector. It tells whether the directory has ended.
unfoldable pub sector_lines :
    (ℕ → Result (List (List ℕ))) → ℕ → Disk → ℕ → ℕ → Result (List (List ℕ) × Bool)
sector_lines report indent d zero pos = done ([], false)
sector_lines report indent d (suc n) pos =
    let rest = sector_lines report indent d n (pos + entry_size) in
    elim (read d pos entry_size) [
      | none ↦ done ([], true)
      | some entry ↦
          if at entry 0 == 0
          then done ([], true)
          else if skipped entry
          then rest
          else (entry_lines report indent entry >>= λ own. (rest >>= λ r. done (own ++ r.0, r.1)))
    ]

-- The rest of a chain: `next` is what `getFat12` gave.
unfoldable pub follow :
    (ℕ → Result (List (List ℕ))) → Result ℕ → List (List ℕ) × Bool → Result (List (List ℕ))
follow report next (lines, true) = done lines
follow report next (lines, false) = next >>= λ cluster.
    if in_chain cluster then (report cluster >>= λ more. done (lines ++ more)) else done lines

module _ (get_fat : Disk → ℕ → Result ℕ) (unit : ℕ) where
  -- The loop over the clusters of a subdirectory from a cluster in the chain on, with fuel.
  unfoldable pub walk : ℕ → Disk → ℕ → ℕ → Result (List (List ℕ))
  walk zero d depth cluster = unfinished
  walk (suc fuel) d depth cluster =
      sector_lines (walk fuel d (depth + 1)) (unit * depth) d 16 (cluster_start cluster)
      >>= follow (walk fuel d depth) (get_fat d cluster)

  -- The loop over the sectors left of the root directory.
  unfoldable pub root_lines : ℕ → Disk → ℕ → ℕ → Result (List (List ℕ))
  root_lines fuel d zero pos = done []
  root_lines fuel d (suc n) pos =
      let rest = root_lines fuel d n (pos + sector_size) in
      sector_lines (walk fuel d 1) 0 d 16 pos >>= λ r.
      if r.1 then done (r.0) else (rest >>= λ more. done (r.0 ++ more))

  unfoldable pub main : ℕ → Disk → Result (List (List ℕ))
  main fuel d = root_lines fuel d root_sectors root_start

-- floppyDir.c and floppyDirNew.c.
unfoldable pub floppy_dir : ℕ → Disk → Result (List (List ℕ))
unfolding main
floppy_dir = main get_fat12 4

unfoldable pub floppy_dir_new : ℕ → Disk → Result (List (List ℕ))
unfolding main
floppy_dir_new = main get_fat12_new 4
