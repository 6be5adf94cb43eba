-- ===== src/Matchmaker/Pairing.antt =====
-- What a call of `findMatch` of assignments/hw5/matchmaker.c makes of the pairs and the list.
use os_coursework.Prelude.{
  ℕ, ◌≡◌, ◌≢◌, refl, sym, ap, ◌∙◌, Bool, true, false, Option, none, some, List, ◌∷◌, ◌==◌,
  Bool-cases, inl, inr, All, update, ==_iff, subst,
}
use os_coursework.Matchmaker.{Stage, outside, searching, found, compatible}
use os_coursework.Matchmaker.Scan.{compatible_sym, All-map, IsFound}
use os_coursework.Matchmaker.Keeps.{IsPaired, Keeps, All-both, ==_refl, ==_false}

module _ (skill_gap : ℕ) (skill : ℕ → ℕ) where
  -- Nobody is matched and not yet matched at once.
  not_matched : (matched : ℕ → Bool) (a b : ℕ) → matched a ≡ true → matched b ≡ false → a ≢ b
  not_matched matched a b ma mb e = cc (ma, mb, ap matched e)

  -- The pairs after `findMatch` has matched two players who were not.
  IsPaired-next :
      (matched : ℕ → Bool) (opponent : ℕ → Option ℕ) (i j : ℕ)
      → ((a : ℕ) → matched a ≡ true → IsPaired skill_gap skill matched opponent a)
      → i ≢ j
      → matched i ≡ false
      → matched j ≡ false
      → compatible skill_gap (skill i) (skill j) ≡ true
      → (a : ℕ) → update (update matched i true) j true a ≡ true
      → IsPaired skill_gap skill
          (update (update matched i true) j true)
          (update (update opponent i (some j)) j (some i))
          a
  IsPaired-next matched opponent i j paired differ free_i free_j good a h =
      let ji = ==_false j i (λ e. differ (sym e)) in
      let ii = ==_refl i in
      let jj = ==_refl j in
      let both =
        IsPaired skill_gap skill (update (update matched i true) j true)
          (update (update opponent i (some j)) j (some i)) in
      elim (Bool-cases (j == a)) [
        | inl e ↦ subst both ((==_iff j a).0 e) (
          i,
          rw jj refl,
          rw (ji, ii) refl,
          rw (ji, ii) refl,
          compatible_sym skill_gap skill (skill j) (skill i) ∙ good,
        )
        | inr e1 ↦ elim (Bool-cases (i == a)) [
          | inl e ↦
              subst both ((==_iff i a).0 e) (j, rw (ji, ii) refl, rw jj refl, rw jj refl, good)
          | inr e2 ↦
              let (b, o1, o2, mb, cb) = paired a (rw (e1, e2) at h) in
              let jb = ==_false j b (λ e. not_matched matched b j mb free_j (sym e)) in
              let ib = ==_false i b (λ e. not_matched matched b i mb free_i (sym e)) in
              (b, rw (e1, e2) o1, rw (jb, ib) o2, rw (jb, ib) mb, cb)
        ]
      ]

  -- The pair that `findMatch` makes.
  pub matched-Keeps :
      (matched : ℕ → Bool) (opponent : ℕ → Option ℕ) (waiting rest : List ℕ) (stage : ℕ → Stage)
      (i j : ℕ)
      → Keeps skill_gap skill matched opponent waiting stage
      → stage i ≡ outside
      → IsFound skill_gap skill matched i waiting j rest
      → Keeps skill_gap skill
          (update (update matched i true) j true)
          (update (update opponent i (some j)) j (some i))
          rest
          (update stage i found)
  matched-Keeps matched opponent waiting rest stage i j v out f =
      let free_i = v.new i out in
      let free_j = f.member (λ a. matched a ≡ false) v.free in
      let inside_j = f.member (λ a. stage a ≢ outside) v.inside in
      let differ : i ≢ j = λ e. inside_j (subst (λ z. stage z ≡ outside) e out) in
      record {
        paired = IsPaired-next matched opponent i j v.paired differ free_i free_j f.good;
        list = f.incompatible v.list;
        free =
            All-map (λ k. (k ≢ j) × ((matched k ≡ false) × (stage k ≢ outside)))
              (λ k. update (update matched i true) j true k ≡ false) rest
              (λ k (other, (free, in_it)).
                let jk = ==_false j k (λ e. other (sym e)) in
                let ik = ==_false i k (λ e. in_it (subst (λ z. stage z ≡ outside) e out)) in
                rw (jk, ik) free)
              (All-both _ _ rest (f.differ v.list)
                (All-both _ _ rest (f.others _ v.free) (f.others _ v.inside)));
        inside =
            All-map (λ k. stage k ≢ outside) (λ k. update stage i found k ≢ outside) rest
              (λ a h. elim (Bool-cases (i == a)) [ inl e ↦ rw e (λ q. cc (q)) | inr e ↦ rw e h ])
              (f.others _ v.inside);
        listed = λ a h free. elim (Bool-cases (i == a)) [
          | inl e ↦ cc (rw e at h)
          | inr e ↦ elim (Bool-cases (j == a)) [
            | inl e2 ↦ cc (rw e2 at free)
            | inr e2 ↦
                f.kept a (λ q. cc (e2, ap (λ z. j == z) q, ==_refl j))
                ∙ v.listed a (rw e at h) (rw (e2, e) at free)
          ]
        ];
        new = λ a h. elim (Bool-cases (i == a)) [
          | inl e ↦ cc (rw e at h)
          | inr e ↦ elim (Bool-cases (j == a)) [
            | inl e2 ↦
                absurd (subst (λ z. stage z ≢ outside) ((==_iff j a).0 e2) inside_j (rw e at h))
            | inr e2 ↦ rw (e2, e) (v.new a (rw e at h))
          ]
        ];
        success = λ a h. elim (Bool-cases (j == a)) [
          | inl e ↦ rw e refl
          | inr e ↦ elim (Bool-cases (i == a)) [
            | inl e2 ↦ rw (e, e2) refl
            | inr e2 ↦ rw (e, e2) (v.success a (rw e2 at h))
          ]
        ];
      }

  -- The player that `findMatch` puts on the list, since nobody there is compatible.
  pub queued-Keeps :
      (matched : ℕ → Bool) (opponent : ℕ → Option ℕ) (waiting : List ℕ) (stage : ℕ → Stage) (i : ℕ)
      → Keeps skill_gap skill matched opponent waiting stage
      → stage i ≡ outside
      → All (λ j. compatible skill_gap (skill i) (skill j) ≡ false) waiting
      → Keeps skill_gap skill
          (update matched i false)
          (update opponent i none)
          (i ∷ waiting)
          (update stage i searching)
  queued-Keeps matched opponent waiting stage i v out bad = record {
    paired = λ a h. elim (Bool-cases (i == a)) [
      | inl e ↦ cc (rw e at h)
      | inr e ↦
          let (b, o1, o2, mb, cb) = v.paired a (rw e at h) in
          let ib = ==_false i b (λ q. not_matched matched b i mb (v.new i out) (sym q)) in
          (b, rw e o1, rw ib o2, rw ib mb, cb)
    ];
    list = (
      All-map (λ j. (stage j ≢ outside) × (compatible skill_gap (skill i) (skill j) ≡ false)) _
          waiting (λ j (in_it, b). ((λ e. in_it (subst (λ z. stage z ≡ outside) e out)), b))
          (All-both _ _ waiting v.inside bad),
      v.list,
    );
    free = (
      rw (==_refl i) refl,
      All-map (λ k. matched k ≡ false) (λ k. update matched i false k ≡ false) waiting
          (λ k h. elim (Bool-cases (i == k)) [ inl e ↦ rw e refl | inr e ↦ rw e h ]) v.free,
    );
    inside = (
      rw (==_refl i) (λ q. cc (q)),
      All-map (λ k. stage k ≢ outside) (λ k. update stage i searching k ≢ outside) waiting
          (λ k h. elim (Bool-cases (i == k)) [ inl e ↦ rw e (λ q. cc (q)) | inr e ↦ rw e h ])
          v.inside,
    );
    listed = λ a h free. elim (Bool-cases (i == a)) [
      | inl e ↦ rw e refl
      | inr e ↦ rw e (v.listed a (rw e at h) (rw e at free))
    ];
    new = λ a h. elim (Bool-cases (i == a)) [
      | inl e ↦ rw e refl
      | inr e ↦ rw e (v.new a (rw e at h))
    ];
    success = λ a h. elim (Bool-cases (i == a)) [
      | inl e ↦ cc (rw e at h)
      | inr e ↦ rw e (v.success a (rw e at h))
    ];
  }
