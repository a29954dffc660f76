-- ===== src/Inode/Map.antt =====
-- `bmap` finds or allocates the block of an inode, and leaves the others.
use exp.Base.{
  ℕ, suc, ◌-◌, ◌≤◌, ◌<◌, ◌≡◌, ◌≢◌, ◌⊎◌, inl, inr, refl, ap, sym, ◌∙◌, subst, true, false, length,
  arith, dec_lt, ℕ_discrete, Bool-cases, Outcome, done, panic, ◌>>=◌,
}
use exp.Fs.{Disk}
use exp.Fs.Bitmap.{used}
use exp.Inode.{Inode, ndirect, max_file, addrs_entry, indirect_entry, bmap}
use exp.Inode.Words.{capacity}
use exp.Inode.Step.{place-table, place-entry, Step}
use exp.Inode.Direct.{Outcomes, addrs_entry-Outcomes}
use exp.Inode.Indirect.{indirect_entry-Outcomes}
use exp.Inode.Owned.{place, Owns}

-- What `bmap` leaves: block `a` is the one of block number `bn`, which is the old one if there was
-- one and else a zeroed block; all other blocks of the contents are where they were, the contents of
-- all that there were are the same, and of the inode only `addrs` has changed.
pub record Mapped (bn : ℕ) (ip : Inode) (d : Disk) (a : ℕ) (ip' : Inode) (d' : Disk) : Type 0 where
  pub some_block : a ≢ 0
  pub there : place ip'.addrs d' bn ≡ a
  pub kept : place ip.addrs d bn ≢ 0 → place ip.addrs d bn ≡ a
  pub others : (r : ℕ) → r < max_file → bn ≢ r → place ip'.addrs d' r ≡ place ip.addrs d r
  pub same_data :
      (r : ℕ)
      → r < max_file
      → place ip.addrs d r ≢ 0
      → d'.blocks (place ip.addrs d r) ≡ d.blocks (place ip.addrs d r)
  pub fresh : place ip.addrs d bn ≡ 0 → (i : ℕ) → d'.blocks a i ≡ 0
  pub owns : Owns (place ip'.addrs d') d'
  pub only_addrs : ip' ≡ record ip { addrs = ip'.addrs }
  pub entries : length ip'.addrs ≡ suc ndirect
  pub same_sb : d'.sb ≡ d.sb
  pub still : (c : ℕ) → c < d.sb.size → used d c ≡ true → used d' c ≡ true
  pub origin :
      (r : ℕ)
      → r ≤ max_file
      → place ip'.addrs d' r ≢ 0
      → (place ip'.addrs d' r ≡ place ip.addrs d r) ⊎ (used d (place ip'.addrs d' r) ≡ false)

Step-origin :
    (q a : ℕ) (ip ip' : Inode) (d d' : Disk)
    → Step q ip d a ip' d'
    → (r : ℕ) → r ≤ max_file
    → place ip'.addrs d' r ≢ 0
    → (place ip'.addrs d' r ≡ place ip.addrs d r) ⊎ (used d (place ip'.addrs d' r) ≡ false)
Step-origin q a ip ip' d d' s r le nz = elim (ℕ_discrete q r) [
  | no ne ↦ inl (s.others r le ne)
  | yes e ↦
      let here : place ip'.addrs d' r ≡ a = ap (place ip'.addrs d') (sym e) ∙ s.there in
      elim (ℕ_discrete (place ip.addrs d q) 0) [
        | yes z ↦ inr (ap (used d) here ∙ s.was_free z)
        | no old ↦ inl (here ∙ sym (s.kept old) ∙ ap (place ip.addrs d) e)
      ]
]

Step-Mapped :
    (bn a : ℕ) (ip ip' : Inode) (d d' : Disk) → Step bn ip d a ip' d' → Mapped bn ip d a ip' d'
Step-Mapped bn a ip ip' d d' s = record {
  some_block = s.some_block;
  there = s.there;
  kept = s.kept;
  others = λ r lt ne. s.others r (omega arith) ne;
  same_data = s.same_data;
  fresh = s.fresh;
  owns = s.owns;
  only_addrs = s.only_addrs;
  entries = s.entries;
  same_sb = s.same_sb;
  still = s.still;
  origin = Step-origin bn a ip ip' d d' s;
}

Steps-Mapped :
    (bn b a : ℕ) (ip ip' ip'' : Inode) (d d' d'' : Disk)
    → bn < max_file
    → Step max_file ip d b ip' d'
    → Step bn ip' d' a ip'' d''
    → Mapped bn ip d a ip'' d''
Steps-Mapped bn b a ip ip' ip'' d d' d'' lt s s' = record {
  some_block = s'.some_block;
  there = s'.there;
  kept = λ h. sym (before bn lt) ∙ s'.kept (λ z. h (sym (before bn lt) ∙ z));
  others = λ r small ne. s'.others r (omega arith) ne ∙ before r small;
  same_data = λ r small h.
      subst (λ x. d''.blocks x ≡ d'.blocks x) (before r small)
        (s'.same_data r small (λ z. h (sym (before r small) ∙ z)))
      ∙ s.same_data r small h;
  fresh = λ z. s'.fresh (before bn lt ∙ z);
  owns = s'.owns;
  only_addrs = s'.only_addrs ∙ ap (λ (i : Inode). record i { addrs = ip''.addrs }) s.only_addrs;
  entries = s'.entries;
  same_sb = s'.same_sb ∙ s.same_sb;
  still = λ c small u.
      s'.still c (omega (arith, ap (λ sb. sb.size) s.same_sb, small)) (s.still c small u);
  origin = λ r le nz. elim (Step-origin bn a ip' ip'' d' d'' s' r le nz) [
    | inl same ↦ elim (Step-origin max_file b ip ip' d d' s r le (λ z. nz (same ∙ z))) [
      | inl same' ↦ inl (same ∙ same')
      | inr free ↦ inr (ap (used d) same ∙ free)
    ]
    | inr free ↦ inr (
        free_before (place ip''.addrs d'' r)
          (omega (
            arith,
            (s'.owns.in_use r le nz).0,
            ap (λ sb. sb.size) s.same_sb,
            ap (λ sb. sb.size) s'.same_sb,
          ))
          free)
  ];
}
  where
    free_before : (c : ℕ) → c < d.sb.size → used d' c ≡ false → used d c ≡ false
    free_before c small free = elim (Bool-cases (used d c)) [
      | inl u ↦ cc (s.still c small u, free)
      | inr f ↦ f
    ]

    before : (r : ℕ) → r < max_file → place ip'.addrs d' r ≡ place ip.addrs d r
    before r small = s.others r (omega arith) (omega arith)

-- At most one block is free.
abbrev pub OutOfBlocks : Disk → Type 0
OutOfBlocks d = (b : ℕ) × ((c : ℕ) → c < d.sb.size → c ≢ b → used d c ≡ true)

abbrev pub MapsOr : ℕ → Inode → Disk → Outcome (ℕ × Inode × Disk) → Type 0
MapsOr bn ip d r =
    ((r ≡ panic) × (place ip.addrs d bn ≡ 0) × OutOfBlocks d)
    ⊎ ((a : ℕ) × (ip' : Inode) × (d' : Disk) × (r ≡ done (a, ip', d')) × Mapped bn ip d a ip' d')

bmap-direct : (ip : Inode) (bn : ℕ) (d : Disk) → bn < ndirect → bmap ip bn d ≡ addrs_entry ip bn d
unfolding bmap
bmap-direct ip bn d lt = ground arith

bmap-indirect :
    (ip : Inode) (bn : ℕ) (d : Disk)
    → ndirect ≤ bn
    → bn < max_file
    → bmap ip bn d
      ≡ (addrs_entry ip ndirect d >>= λ (b, ip', d'). indirect_entry ip' b (bn - ndirect) d')
unfolding bmap
bmap-indirect ip bn d lo hi = ground arith

bmap-second :
    (ip ip' : Inode) (bn b : ℕ) (d d' : Disk) (r : Outcome (ℕ × Inode × Disk))
    → bn < max_file
    → Step max_file ip d b ip' d'
    → Outcomes bn ip' d' r
    → MapsOr bn ip d r
bmap-second ip ip' bn b d d' r lt s (inl (e, none_there, full)) = inl (
  e,
  sym (s.others bn (omega arith) (omega arith)) ∙ none_there,
  (
    b,
    λ c in_size ne.
        s.spent c in_size ne (full c (omega (arith, ap (λ sb. sb.size) s.same_sb, in_size))),
  ),
)
bmap-second ip ip' bn b d d' r lt s (inr (a, ip'', d'', e, s')) =
    inr (a, ip'', d'', e, Steps-Mapped bn b a ip ip' ip'' d d' d'' lt s s')

bind-panic :
    (m : Outcome (ℕ × Inode × Disk)) (f : ℕ × Inode × Disk → Outcome (ℕ × Inode × Disk))
    → m ≡ panic
    → (m >>= f) ≡ panic
bind-panic m f e = rw e refl

bind-done :
    (m : Outcome (ℕ × Inode × Disk)) (f : ℕ × Inode × Disk → Outcome (ℕ × Inode × Disk))
    (s : ℕ × Inode × Disk)
    → m ≡ done s
    → (m >>= f) ≡ f s
bind-done m f s e = rw e refl

-- `bmap` of a block number below MAXFILE finds the block or allocates one. It panics only if there
-- was no block of that number and at most one block of the disk is free.
pub bmap-Mapped :
    (ip : Inode) (bn : ℕ) (d : Disk)
    → Owns (place ip.addrs d) d
    → length ip.addrs ≡ suc ndirect
    → d.sb.size ≤ capacity 4
    → bn < max_file
    → MapsOr bn ip d (bmap ip bn d)
bmap-Mapped ip bn d o len size lt = elim (dec_lt bn ndirect) [
  | yes direct ↦
      subst (MapsOr bn ip d) (sym (bmap-direct ip bn d direct))
        (elim (addrs_entry-Outcomes ip bn bn d o len (inl (direct, refl))) [
          | inl (e, none_there, full) ↦ inl (e, none_there, (0, λ c in_size ne. full c in_size))
          | inr (a, ip', d', e, s) ↦ inr (a, ip', d', e, Step-Mapped bn a ip ip' d d' s)
        ])
  | no far ↦
      subst (MapsOr bn ip d) (sym (bmap-indirect ip bn d (omega arith) lt))
        (elim (addrs_entry-Outcomes ip ndirect max_file d o len (inr (refl, refl))) [
          | inl (e, none_there, full) ↦ inl (
            bind-panic (addrs_entry ip ndirect d) _ e,
            (place-entry ip.addrs d bn (omega arith) lt).0
                (sym (place-table ip.addrs d) ∙ none_there),
            (0, λ c in_size ne. full c in_size),
          )
          | inr (b, ip', d', e, s) ↦
              subst (MapsOr bn ip d)
                (sym (
                  bind-done (addrs_entry ip ndirect d)
                    (λ (b, ip', d'). indirect_entry ip' b (bn - ndirect) d') (b, ip', d') e))
                (bmap-second ip ip' bn b d d' (indirect_entry ip' b (bn - ndirect) d') lt s (
                  subst (λ q. Outcomes q ip' d' (indirect_entry ip' b (bn - ndirect) d'))
                    (omega arith)
                    (indirect_entry-Outcomes ip' b (bn - ndirect) d' s.owns s.entries
                      (omega (arith, ap (λ sb. sb.size) s.same_sb, size))
                      (sym (place-table ip'.addrs d') ∙ s.there) s.some_block (omega arith))))
        ])
]
