-- ===== src/Floppy/Walk.antt =====
-- exercises/ex18: when `reportDirectory` of floppyDir.c and floppyDirNew.c ends.
use os_coursework.Prelude.{
  ℕ, zero, suc, ◌+◌, ◌*◌, ◌≤◌, ◌<◌, ◌≡◌, ◌≢◌, refl, subst, Bool, true, false, ◌&&◌, List, ◌==◌, leb,
  some, arith, if◌then◌else◌, inl, inr, Bool-cases, Option-cases,
}
use os_coursework.Floppy.{Disk, read, Result, done, failed, unfinished, ◌>>=◌, sector_size}
use os_coursework.Floppy.Entry.{entry_size, at, skipped, is_dir, start_cluster}
use os_coursework.Floppy.Report.{
  in_chain, cluster_start, entry_lines, sector_lines, follow, walk, root_lines,
}

-- A call that comes to an end.
abbrev pub Ends : {A : Type 0} → Result A → Type 0
Ends r = r ≢ unfinished

and_right : (a b : Bool) → (a && b) ≡ true → b ≡ true
and_right true b h = h
and_right false b h = cc

pub done-Ends : {A : Type 0} {a : A} → Ends (done a)
done-Ends e = cc

>>=-Ends :
    {A B : Type 0} (r : Result A) (f : A → Result B)
    → Ends r
    → ((a : A) → Ends (f a))
    → Ends (r >>= f)
>>=-Ends (done a) f h k = k a
>>=-Ends failed f h k = λ e. cc (e)
>>=-Ends unfinished f h k = absurd (h refl)

if-Ends : {A : Type 0} (b : Bool) {x y : Result A} → Ends x → Ends y → Ends (if b then x else y)
if-Ends true h k = h
if-Ends false h k = k

-- The entry at a position names a subdirectory that is read.
pub record IsBelow (d : Disk) (pos : ℕ) (entry : List ℕ) : Type 0 where
  pub stored : read d pos entry_size ≡ some entry
  pub kept : skipped entry ≡ false
  pub dir : is_dir entry ≡ true
  pub start : in_chain (start_cluster entry) ≡ true

entry_lines-Ends :
    (report : ℕ → Result (List (List ℕ))) (indent : ℕ) (entry : List ℕ)
    → (is_dir entry ≡ true
        → in_chain (start_cluster entry) ≡ true
        → Ends (report (start_cluster entry)))
    → Ends (entry_lines report indent entry)
unfolding entry_lines
entry_lines-Ends report indent entry h = elim (Bool-cases (is_dir entry)) [
  | inr file ↦ rw file done-Ends
  | inl dir ↦ elim (Bool-cases (leb 2 (start_cluster entry) && in_chain (start_cluster entry))) [
    | inl go ↦
        rw (dir, go)
          (>>=-Ends (report (start_cluster entry)) _ (h dir (and_right _ _ go))
            (λ below. done-Ends))
    | inr stop ↦ rw (dir, stop) done-Ends
  ]
]

sector_lines-Ends :
    (report : ℕ → Result (List (List ℕ))) (indent : ℕ) (d : Disk) (n pos : ℕ)
    → ((j : ℕ) (entry : List ℕ)
        → j < n
        → IsBelow d (pos + j * entry_size) entry
        → Ends (report (start_cluster entry)))
    → Ends (sector_lines report indent d n pos)
unfolding sector_lines
sector_lines-Ends report indent d zero pos h = done-Ends
sector_lines-Ends report indent d (suc n) pos h =
    let rest = sector_lines-Ends report indent d n (pos + entry_size) (λ j entry lt b.
      h (suc j) entry (omega arith)
        (subst (λ p. IsBelow d p entry) {y = pos + suc j * entry_size} (omega arith) b)) in
    elim (Option-cases (read d pos entry_size)) [
      | inl past ↦ rw (sector_lines, past) done-Ends
      | inr (entry, stored) ↦ elim (Bool-cases (at entry 0 == 0)) [
        | inl last ↦ rw (sector_lines, stored, last) done-Ends
        | inr more ↦ elim (Bool-cases (skipped entry)) [
          | inl skip ↦ rw (sector_lines, stored, more, skip) rest
          | inr kept ↦
              rw (sector_lines, stored, more, kept)
                (>>=-Ends (entry_lines report indent entry) _
                  (entry_lines-Ends report indent entry (λ dir start. h 0 entry (omega arith) (
                    subst (λ p. IsBelow d p entry) {y = pos + 0 * entry_size} (omega arith)
                      (record { stored = stored; kept = kept; dir = dir; start = start }))))
                  (λ own. >>=-Ends _ _ rest (λ r. done-Ends)))
        ]
      ]
    ]

follow-Ends :
    (report : ℕ → Result (List (List ℕ))) (next : Result ℕ) (r : List (List ℕ) × Bool)
    → Ends next
    → ((cluster : ℕ) → next ≡ done cluster → in_chain cluster ≡ true → Ends (report cluster))
    → Ends (follow report next r)
unfolding follow
follow-Ends report next (lines, true) h k = done-Ends
follow-Ends report (done cluster) (lines, false) h k = elim (Bool-cases (in_chain cluster)) [
  | inl chain ↦ rw chain (>>=-Ends (report cluster) _ (k cluster refl chain) (λ more. done-Ends))
  | inr over ↦ rw over done-Ends
]
follow-Ends report failed (lines, false) h k = λ e. cc (e)
follow-Ends report unfinished (lines, false) h k = absurd (h refl)

-- A rank below `bound` that falls along each link of the table and from a directory to the
-- subdirectories that its clusters hold.
pub record IsRanked (get_fat : Disk → ℕ → Result ℕ) (d : Disk) (rank : ℕ → ℕ) (bound : ℕ)
    : Type 0 where
  pub bounded : (cluster : ℕ) → rank cluster < bound
  pub reads : (cluster : ℕ) → get_fat d cluster ≢ unfinished
  pub next :
      (cluster follower : ℕ)
      → get_fat d cluster ≡ done follower
      → in_chain follower ≡ true
      → rank follower < rank cluster
  pub below :
      (cluster j : ℕ) (entry : List ℕ)
      → j < 16
      → IsBelow d (cluster_start cluster + j * entry_size) entry
      → rank (start_cluster entry) < rank cluster

module _ {get_fat : Disk → ℕ → Result ℕ} {d : Disk} {rank : ℕ → ℕ} {bound : ℕ}
    (r : IsRanked get_fat d rank bound) (unit : ℕ) where
  walk-Ends :
      (fuel depth cluster : ℕ) → rank cluster < fuel → Ends (walk get_fat unit fuel d depth cluster)
  unfolding walk
  walk-Ends zero depth cluster lt = absurd (omega arith)
  walk-Ends (suc fuel) depth cluster lt =
      >>=-Ends _ _
        (sector_lines-Ends _ (unit * depth) d 16 (cluster_start cluster) (λ j entry small b.
          let fall = r.below cluster j entry small b in
          walk-Ends fuel (depth + 1) (start_cluster entry) (omega arith)))
        (λ lines. follow-Ends _ (get_fat d cluster) lines (r.reads cluster) (λ follower e chain.
          let fall = r.next cluster follower e chain in
          walk-Ends fuel depth follower (omega arith)))

  pub root_lines-Ends :
      (fuel n pos : ℕ) → bound ≤ fuel → Ends (root_lines get_fat unit fuel d n pos)
  unfolding root_lines
  root_lines-Ends fuel zero pos h = done-Ends
  root_lines-Ends fuel (suc n) pos h =
      let rest = root_lines-Ends fuel n (pos + sector_size) h in
      >>=-Ends _ _
        (sector_lines-Ends _ 0 d 16 pos (λ j entry small b.
          let low = r.bounded (start_cluster entry) in
          walk-Ends fuel 1 (start_cluster entry) (omega arith)))
        (λ lines. if-Ends lines.1 done-Ends (>>=-Ends _ _ rest (λ more. done-Ends)))
