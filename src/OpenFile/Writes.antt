-- ===== src/OpenFile/Writes.antt =====
-- `filewrite` splits a write into transactions that fit into the log.
use exp.Base.{
  ℕ, zero, suc, ◌+◌, ◌-◌, ◌/◌, ◌%◌, ◌≤◌, ◌<◌, ◌≡◌, refl, ap, ◌∙◌, ◌⊎◌, inl, inr, ◌^◌, if◌then◌else◌,
  false, Bool, true, List, [], ◌∷◌, ◌++◌, length, take, drop, append_assoc, arith, subst, Outcome,
  done, ==_self,
}
use exp.Base.Int.{ℤ, pos_part, pos, negsuc}
use exp.OpenFile.{
  File, fd_inode, Inodes, max_chunk, min, write_chunk, next_chunk, write_chunks, filewrite, move_on,
}

length-take : (n : ℕ) (xs : List ℕ) → n ≤ length xs → length (take n xs) ≡ n
length-take zero xs h = refl
length-take (suc n) [] h = absurd (omega arith)
length-take (suc n) (x ∷ xs) h = ap suc (length-take n xs (omega arith))

length-drop : (n : ℕ) (xs : List ℕ) → length (drop n xs) ≡ length xs - n
length-drop zero xs = omega arith
length-drop (suc n) [] = omega arith
length-drop (suc n) (x ∷ xs) = length-drop n xs ∙ omega arith

take-drop : (n : ℕ) (xs : List ℕ) → take n xs ++ drop n xs ≡ xs
take-drop zero xs = refl
take-drop (suc n) [] = refl
take-drop (suc n) (x ∷ xs) = ap (λ r. x ∷ r) (take-drop n xs)

pub join : List (List ℕ) → List ℕ
join [] = []
join (c ∷ cs) = c ++ join cs

-- The blocks that a write of `n` bytes at `off` touches.
abbrev pub blocks_touched : ℕ → ℕ → ℕ
blocks_touched off n = (off % 512 + n + 511) / 512

-- A chunk: at most 1536 bytes, which wherever they start lie in four blocks.
abbrev pub IsChunk : List ℕ → Type 0
IsChunk c = (0 < length c) × (length c ≤ 1536) × ((off : ℕ) → blocks_touched off (length c) ≤ 4)

module _ {E : Type 0} (k : Inodes E) where
  -- Every call of `writei` writes all its bytes or returns a negative number: the results that
  -- `writei` of fs.c has for a file that is no device.
  abbrev pub WritesOrFails : Type 0
  WritesOrFails =
      (ip off n : ℕ) (bs : List ℕ) (e : E)
      → ((k.writei ip bs off n e).0 ≡ pos n) ⊎ ((m : ℕ) × ((k.writei ip bs off n e).0 ≡ negsuc m))

  -- What `writei` answers to the chunk `c` at the file's offset, and the state after its transaction.
  abbrev pub answer : File → List ℕ → E → ℤ
  answer f c e = (k.writei f.ip c f.off (length c) (k.ilock f.ip (k.begin_op e))).0

  abbrev pub ran : File → List ℕ → E → E
  ran f c e =
      k.end_op (k.iunlock f.ip (k.writei f.ip c f.off (length c) (k.ilock f.ip (k.begin_op e))).1)

  abbrev pub moved : File → List ℕ → File
  moved f c = record f { off = (f.off + length c) % 2 ^ 32 }

  -- Chunks, each written whole in a transaction of its own at the offset where the one before ended.
  unfoldable pub Written : File → List (List ℕ) → E → File → E → Type 0
  Written f [] e f' e' = (f' ≡ f) × (e' ≡ e)
  Written f (c ∷ cs) e f' e' =
      IsChunk c × (answer f c e ≡ pos (length c)) × Written (moved f c) cs (ran f c e) f' e'

  next_chunk-all :
      (n : ℕ) (s : ℤ × File × E) (rest : File → E → Outcome (Bool × File × E))
      → s.0 ≡ pos n
      → next_chunk k n s rest ≡ rest s.1 s.2
  next_chunk-all n (pos r, f, e) rest h = rw (ap pos_part h, ==_self n) refl
  next_chunk-all n (negsuc r, f, e) rest h = absurd cc

  next_chunk-fails :
      (n m : ℕ) (s : ℤ × File × E) (rest : File → E → Outcome (Bool × File × E))
      → s.0 ≡ negsuc m
      → next_chunk k n s rest ≡ done (false, s.1, s.2)
  next_chunk-fails n m (pos r, f, e) rest h = absurd cc
  next_chunk-fails n m (negsuc r, f, e) rest h = refl

  write_chunk-answer : (f : File) (c : List ℕ) (e : E) → (write_chunk k f c e).0 ≡ answer f c e
  unfolding write_chunk
  write_chunk-answer f c e = refl

  write_chunk-ran : (f : File) (c : List ℕ) (e : E) → (write_chunk k f c e).2 ≡ ran f c e
  unfolding write_chunk
  write_chunk-ran f c e = refl

  write_chunk-moved :
      (f : File) (c : List ℕ) (e : E)
      → answer f c e ≡ pos (length c)
      → (write_chunk k f c e).1 ≡ moved f c
  unfolding write_chunk
  write_chunk-moved f c e h = ap (λ r. move_on r f) h

  write_chunk-stays :
      (f : File) (c : List ℕ) (e : E) (m : ℕ)
      → answer f c e ≡ negsuc m
      → (write_chunk k f c e).1 ≡ f
  unfolding write_chunk
  write_chunk-stays f c e m h = ap (λ r. move_on r f) h

  module _ (fuel : ℕ) (f : File) (b : ℕ) (bs : List ℕ) (e : E) (n : ℕ)
      (size : n ≡ min (suc (length bs)) max_chunk) where
    abbrev first : List ℕ
    first = take n (b ∷ bs)

    write_chunks-open :
        write_chunks k (suc fuel) f (b ∷ bs) e
        ≡ next_chunk k n
            (write_chunk k f first e)
            (λ f' e'. write_chunks k fuel f' (drop n (b ∷ bs)) e')
    unfolding write_chunks
    write_chunks-open =
        subst
          (λ m.
            next_chunk k m (write_chunk k f (take m (b ∷ bs)) e)
              (λ f' e'. write_chunks k fuel f' (drop m (b ∷ bs)) e')
            ≡ next_chunk k n (write_chunk k f first e)
                (λ f' e'. write_chunks k fuel f' (drop n (b ∷ bs)) e'))
          size refl

    write_chunks-next :
        length first ≡ n
        → answer f first e ≡ pos (length first)
        → write_chunks k (suc fuel) f (b ∷ bs) e
          ≡ write_chunks k fuel (moved f first) (drop n (b ∷ bs)) (ran f first e)
    write_chunks-next long all =
        write_chunks-open
        ∙ next_chunk-all n (write_chunk k f first e)
            (λ f' e'. write_chunks k fuel f' (drop n (b ∷ bs)) e')
            (write_chunk-answer f first e ∙ all ∙ ap pos long)
        ∙ ap (λ g. write_chunks k fuel g (drop n (b ∷ bs)) (write_chunk k f first e).2)
            (write_chunk-moved f first e all)
        ∙ ap (write_chunks k fuel (moved f first) (drop n (b ∷ bs))) (write_chunk-ran f first e)

    write_chunks-stop :
        (m : ℕ)
        → answer f first e ≡ negsuc m
        → write_chunks k (suc fuel) f (b ∷ bs) e ≡ done (false, f, ran f first e)
    write_chunks-stop m fails =
        write_chunks-open
        ∙ next_chunk-fails n m (write_chunk k f first e)
            (λ f' e'. write_chunks k fuel f' (drop n (b ∷ bs)) e')
            (write_chunk-answer f first e ∙ fails)
        ∙ ap (λ g. done (false, g, (write_chunk k f first e).2))
            (write_chunk-stays f first e m fails)
        ∙ ap (λ d. done (false, f, d)) (write_chunk-ran f first e)

  -- What the loop has done: all chunks of `bs`, or those before one that failed.
  abbrev Split : List ℕ → File → E → Outcome (Bool × File × E) → Type 0
  Split bs f e r =
      (cs : List (List ℕ)) × (f' : File) × (e' : E) × Written f cs e f' e'
      × (((join cs ≡ bs) × (r ≡ done (true, f', e')))
          ⊎ ((c : List ℕ) × (rest : List ℕ) × (m : ℕ) × IsChunk c
              × (join cs ++ (c ++ rest) ≡ bs)
              × (answer f' c e' ≡ negsuc m)
              × (r ≡ done (false, f', ran f' c e'))))

  Split-cons :
      (f : File) (c bs : List ℕ) (e : E) (r r' : Outcome (Bool × File × E))
      → IsChunk c
      → answer f c e ≡ pos (length c)
      → r' ≡ r
      → Split bs (moved f c) (ran f c e) r
      → Split (c ++ bs) f e r'
  unfolding Written join
  Split-cons f c bs e r r' chunk all same (cs, f', e', w, inl (joined, run)) =
      (c ∷ cs, f', e', (chunk, all, w), inl (ap (λ x. c ++ x) joined, same ∙ run))
  Split-cons f c bs e r r' chunk all same
        (cs, f', e', w, inr (d, rest, m, small, joined, fails, run)) =
      (
        c ∷ cs,
        f',
        e',
        (chunk, all, w),
        inr (
          d,
          rest,
          m,
          small,
          append_assoc c (join cs) (d ++ rest) ∙ ap (λ x. c ++ x) joined,
          fails,
          same ∙ run,
        ),
      )

  write_chunks-end : (fuel : ℕ) (f : File) (e : E) → write_chunks k fuel f [] e ≡ done (true, f, e)
  unfolding write_chunks
  write_chunks-end fuel f e = refl

  write_chunks-Split :
      (fuel : ℕ) (f : File) (bs : List ℕ) (e : E)
      → WritesOrFails
      → length bs ≤ fuel
      → Split bs f e (write_chunks k fuel f bs e)
  unfolding Written join
  write_chunks-Split fuel f [] e h enough =
      ([], f, e, (refl, refl), inl (refl, write_chunks-end fuel f e))
  write_chunks-Split zero f (b ∷ bs) e h enough = absurd (omega arith)
  write_chunks-Split (suc fuel) f (b ∷ bs) e h enough =
      let n = min (suc (length bs)) max_chunk in
      let small : n ≤ max_chunk = ground arith in
      let some : 0 < n = ground arith in
      let fits : n ≤ suc (length bs) = ground arith in
      let size : length (take n (b ∷ bs)) ≡ n = length-take n (b ∷ bs) fits in
      let c = take n (b ∷ bs) in
      let chunk : IsChunk c =
        (omega (arith, size), omega (arith, size), λ off. omega (arith, size)) in
      elim (h f.ip f.off (length c) c (k.ilock f.ip (k.begin_op e))) [
        | inr (m, fails) ↦ (
          [],
          f,
          e,
          (refl, refl),
          inr (
            c,
            drop n (b ∷ bs),
            m,
            chunk,
            take-drop n (b ∷ bs),
            fails,
            write_chunks-stop fuel f b bs e n refl m fails,
          ),
        )
        | inl all ↦
            subst (λ x. Split x f e (write_chunks k (suc fuel) f (b ∷ bs) e)) (take-drop n (b ∷ bs))
              (Split-cons f c (drop n (b ∷ bs)) e
                (write_chunks k fuel (moved f c) (drop n (b ∷ bs)) (ran f c e))
                (write_chunks k (suc fuel) f (b ∷ bs) e) chunk all
                (write_chunks-next fuel f b bs e n refl size all)
                (write_chunks-Split fuel (moved f c) (drop n (b ∷ bs)) (ran f c e) h
                  (omega (arith, length-drop n (b ∷ bs)))))
      ]

  filewrite-inode :
      (all : Bool) (f f' : File) (bs : List ℕ) (e e' : E)
      → f.writable ≡ true
      → f.type ≡ fd_inode
      → write_chunks k (length bs) f bs e ≡ done (all, f', e')
      → filewrite k f bs e ≡ done ((if all then pos (length bs) else negsuc 0), f', e')
  unfolding filewrite
  filewrite-inode all f f' bs e e' open_end inode run = ground arith

  -- If every call of `writei` writes all its bytes or returns a negative number, `filewrite` on a
  -- writable inode returns. It has written consecutive nonempty chunks, each in a transaction of
  -- its own at the offset where the one before ended; a chunk has at most 1536 bytes and lies in four
  -- blocks, whatever its offset. Either these are all the bytes and their number is returned, or the
  -- transaction of the next chunk failed; then -1 is returned, the offset is after the chunks
  -- written, and no transaction follows.
  pub filewrite-Written :
      (f : File) (bs : List ℕ) (e : E)
      → f.writable ≡ true
      → f.type ≡ fd_inode
      → WritesOrFails
      → (cs : List (List ℕ)) × (f' : File) × (e' : E) × Written f cs e f' e'
        × (((join cs ≡ bs) × (filewrite k f bs e ≡ done (pos (length bs), f', e')))
            ⊎ ((c : List ℕ) × (rest : List ℕ) × (m : ℕ) × IsChunk c
                × (join cs ++ (c ++ rest) ≡ bs)
                × (answer f' c e' ≡ negsuc m)
                × (filewrite k f bs e ≡ done (negsuc 0, f', ran f' c e'))))
  filewrite-Written f bs e open_end inode h =
      outcome (write_chunks-Split (length bs) f bs e h (omega arith))
    where
      outcome :
          Split bs f e (write_chunks k (length bs) f bs e)
          → (cs : List (List ℕ)) × (f' : File) × (e' : E) × Written f cs e f' e'
            × (((join cs ≡ bs) × (filewrite k f bs e ≡ done (pos (length bs), f', e')))
                ⊎ ((c : List ℕ) × (rest : List ℕ) × (m : ℕ) × IsChunk c
                    × (join cs ++ (c ++ rest) ≡ bs)
                    × (answer f' c e' ≡ negsuc m)
                    × (filewrite k f bs e ≡ done (negsuc 0, f', ran f' c e'))))
      outcome (cs, f', e', w, inl (joined, run)) =
          (cs, f', e', w, inl (joined, filewrite-inode true f f' bs e e' open_end inode run))
      outcome (cs, f', e', w, inr (c, rest, m, small, joined, fails, run)) = (
        cs,
        f',
        e',
        w,
        inr (
          c,
          rest,
          m,
          small,
          joined,
          fails,
          filewrite-inode false f f' bs e (ran f' c e') open_end inode run,
        ),
      )
