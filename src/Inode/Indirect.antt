-- ===== src/Inode/Indirect.antt =====
-- The second step of `bmap`: an entry of the indirect block is found or allocated.
use exp.Base.{
  ℕ, suc, ◌+◌, ◌-◌, ◌*◌, ◌==◌, ◌≤◌, ◌<◌, ◌≡◌, ◌≢◌, ◌⊎◌, inl, inr, refl, ap, sym, ◌∙◌, subst, true,
  false, length, get_or, arith, dec_lt, ℕ_discrete, ==_self, done, panic,
}
use exp.Fs.{Disk, write_block, bitmap_block, balloc}
use exp.Fs.Bitmap.{used, used-write}
use exp.Fs.Alloc.{Allocated, balloc_lem}
use exp.Inode.{Inode, load_le, store_le, ndirect, nindirect, max_file, indirect_entry}
use exp.Inode.Words.{load_le-other, load_le-store_le, store_le-byte, capacity}
use exp.Inode.Step.{place-direct, place-table, place-entry, Step, Step-kept}
use exp.Inode.Direct.{blocks_stay, new_nonzero, table_stays, new_spent, new_still, Outcomes}
use exp.Inode.Owned.{place, Owns, Owns-extend, Owns-write}

eq-false : (a b : ℕ) → a ≢ b → (a == b) ≡ false
eq-false a b h = ground arith

-- The second step, in the table that is block `b`.
indirect_entry-done :
    (ip : Inode) (b k a : ℕ) (d d' : Disk)
    → load_le 4 (d.blocks b) (4 * k) ≡ 0
    → balloc d ≡ done (a, d')
    → indirect_entry ip b k d ≡ done (a, ip, write_block b (store_le 4 a (d'.blocks b) (4 * k)) d')
unfolding indirect_entry
indirect_entry-done ip b k a d d' z e = rw (z, e) refl

indirect_entry-panic :
    (ip : Inode) (b k : ℕ) (d : Disk)
    → load_le 4 (d.blocks b) (4 * k) ≡ 0
    → balloc d ≡ panic
    → indirect_entry ip b k d ≡ panic
unfolding indirect_entry
indirect_entry-panic ip b k d z e = rw (z, e) refl

indirect_entry-kept :
    (ip : Inode) (b k : ℕ) (d : Disk)
    → load_le 4 (d.blocks b) (4 * k) ≢ 0
    → indirect_entry ip b k d ≡ done (load_le 4 (d.blocks b) (4 * k), ip, d)
unfolding indirect_entry
indirect_entry-kept ip b k d nz = ground arith

module _ (ip : Inode) (d : Disk) (a : ℕ) (d' : Disk) (o : Owns (place ip.addrs d) d)
    (new : Allocated d a d') (b : ℕ) (table : get_or ip.addrs ndirect 0 ≡ b) (some_table : b ≢ 0)
    (k : ℕ) (small : k < nindirect) (none_there : load_le 4 (d.blocks b) (4 * k) ≡ 0)
    (len : length ip.addrs ≡ suc ndirect) (size : d.sb.size ≤ capacity 4) where
  after : Disk
  after = write_block b (store_le 4 a (d'.blocks b) (4 * k)) d'

  entry-at :
      (e : Disk) (r : ℕ)
      → ndirect ≤ r
      → r < max_file
      → place ip.addrs e r ≡ load_le 4 (e.blocks b) (4 * (r - ndirect))
  entry-at e r lo hi =
      (place-entry ip.addrs e r lo hi).1 (λ z. some_table (sym table ∙ z))
      ∙ ap (λ x. load_le 4 (e.blocks x) (4 * (r - ndirect))) table

  table_after : after.blocks b ≡ store_le 4 a (d'.blocks b) (4 * k)
  unfolding after
  table_after = rw (==_self b) refl

  other_after : (c : ℕ) → c ≢ b → after.blocks c ≡ d'.blocks c
  unfolding after
  other_after c ne = rw (eq-false b c (λ e. ne (sym e))) refl

  table_before : d'.blocks b ≡ d.blocks b
  table_before =
      subst (λ b. d'.blocks b ≡ d.blocks b) table
        (table_stays ip d a d' o new (λ z. some_table (sym table ∙ z)))

  table_place : place ip.addrs d max_file ≡ b
  table_place = place-table ip.addrs d ∙ table

  table_used : (place ip.addrs d max_file < d.sb.size) × (used d (place ip.addrs d max_file) ≡ true)
  table_used = o.in_use max_file (omega arith) (λ z. some_table (sym table_place ∙ z))

  table_apart : (c : ℕ) → c < d.sb.size → b ≢ bitmap_block c d'.sb
  table_apart c lt e =
      o.apart max_file (omega arith) (λ z. some_table (sym table_place ∙ z)) c lt
        (table_place ∙ e ∙ ap (bitmap_block c) new.same_sb)

  table_ne : (r : ℕ) → r < max_file → place ip.addrs d r ≢ 0 → place ip.addrs d r ≢ b
  table_ne r lt h e =
      absurd
        (omega (arith, o.distinct r max_file (omega arith) (omega arith) h (e ∙ sym table_place)))

  new_ne_table : a ≢ b
  new_ne_table e = cc (new.free, table_used.1, ap (used d) (e ∙ sym table_place))

  entry_before : place ip.addrs d (ndirect + k) ≡ 0
  entry_before =
      entry-at d (ndirect + k) (omega arith) (omega arith)
      ∙ ap (load_le 4 (d.blocks b)) (omega arith)
      ∙ none_there

  entry_after : place ip.addrs after (ndirect + k) ≡ a
  entry_after =
      entry-at after (ndirect + k) (omega arith) (omega arith)
      ∙ ap (λ m. load_le 4 m (4 * (ndirect + k - ndirect))) table_after
      ∙ ap (load_le 4 (store_le 4 a (d'.blocks b) (4 * k))) (omega arith)
      ∙ load_le-store_le 4 a (d'.blocks b) (4 * k) (omega (arith, new.inside))

  entry_others :
      (r : ℕ) → r ≤ max_file → ndirect + k ≢ r → place ip.addrs after r ≡ place ip.addrs d r
  entry_others r le ne = elim (dec_lt r ndirect) [
    | yes direct ↦ place-direct ip.addrs after r direct ∙ sym (place-direct ip.addrs d r direct)
    | no indirect ↦ elim (ℕ_discrete r max_file) [
      | yes e ↦
          ap (place ip.addrs after) e
          ∙ place-table ip.addrs after
          ∙ sym (ap (place ip.addrs d) e ∙ place-table ip.addrs d)
      | no entry ↦
          entry-at after r (omega arith) (omega arith)
          ∙ ap (λ m. load_le 4 m (4 * (r - ndirect))) table_after
          ∙ load_le-other 4 4 a (d'.blocks b) (4 * k) (4 * (r - ndirect))
              (apart_of (r - ndirect) (omega arith))
          ∙ ap (λ m. load_le 4 m (4 * (r - ndirect))) table_before
          ∙ sym (entry-at d r (omega arith) (omega arith))
    ]
  ]
    where
      apart_of : (j : ℕ) → j ≢ k → (4 * j + 4 ≤ 4 * k) ⊎ (4 * k + 4 ≤ 4 * j)
      apart_of j h = elim (dec_lt j k) [ yes l ↦ inl (omega arith) | no g ↦ inr (omega arith) ]

  Step-entry : Step (ndirect + k) ip d a ip after
  unfolding after
  Step-entry = record {
    some_block = new_nonzero ip d a d' o new;
    there = entry_after;
    kept = λ h. absurd (h entry_before);
    others = entry_others;
    same_data = λ r lt h.
        other_after (place ip.addrs d r) (table_ne r lt h)
        ∙ blocks_stay ip d a d' o new r (omega arith) h;
    fresh = λ z i. ap (λ m. m i) (other_after a new_ne_table) ∙ new.zeroed i;
    owns =
        Owns-write (place ip.addrs after) d' b (store_le 4 a (d'.blocks b) (4 * k))
          (Owns-extend (place ip.addrs d) (place ip.addrs after) d d' a (ndirect + k) o new
            (omega arith) entry_before entry_after entry_others)
          (store_le-byte 4 a (d'.blocks b) (4 * k) (new.formatted.bytes b))
          (λ c lt. table_apart c (omega (arith, ap (λ sb. sb.size) new.same_sb, lt)));
    only_addrs = refl;
    entries = len;
    same_sb = new.same_sb;
    was_free = λ z. new.free;
    still = λ c lt u.
        used-write d' b c (store_le 4 a (d'.blocks b) (4 * k)) (table_apart c lt)
        ∙ new_still ip d a d' o new c lt u;
    spent = λ c lt ne u.
        new_spent ip d a d' o new c lt ne
          (sym (used-write d' b c (store_le 4 a (d'.blocks b) (4 * k)) (table_apart c lt)) ∙ u);
  }

pub indirect_entry-Outcomes :
    (ip : Inode) (b k : ℕ) (d : Disk)
    → Owns (place ip.addrs d) d
    → length ip.addrs ≡ suc ndirect
    → d.sb.size ≤ capacity 4
    → get_or ip.addrs ndirect 0 ≡ b
    → b ≢ 0
    → k < nindirect
    → Outcomes (ndirect + k) ip d (indirect_entry ip b k d)
unfolding after
indirect_entry-Outcomes ip b k d o len size table some_table small =
    elim (ℕ_discrete (load_le 4 (d.blocks b) (4 * k)) 0) [
      | no nz ↦ inr (
        load_le 4 (d.blocks b) (4 * k),
        ip,
        d,
        indirect_entry-kept ip b k d nz,
        Step-kept (ndirect + k) (load_le 4 (d.blocks b) (4 * k)) ip d o len at_entry nz,
      )
      | yes z ↦ elim (balloc_lem d o.formatted) [
        | inl (e, full) ↦ inl (indirect_entry-panic ip b k d z e, at_entry ∙ z, full)
        | inr (a, d', e, new) ↦ inr (
          a,
          ip,
          write_block b (store_le 4 a (d'.blocks b) (4 * k)) d',
          indirect_entry-done ip b k a d d' z e,
          Step-entry ip d a d' o new b table some_table k small z len size,
        )
      ]
    ]
  where
    at_entry : place ip.addrs d (ndirect + k) ≡ load_le 4 (d.blocks b) (4 * k)
    at_entry =
        (place-entry ip.addrs d (ndirect + k) (omega arith) (omega arith)).1
          (λ z. some_table (sym table ∙ z))
        ∙ ap (λ x. load_le 4 (d.blocks x) (4 * (ndirect + k - ndirect))) table
        ∙ ap (load_le 4 (d.blocks b)) (omega arith)
