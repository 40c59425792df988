-- ===== src/Fs/Content/Read.antt =====
-- What `inode_read` copies: the bytes of the file.
use advanced_synchronization.Base.{
  ℕ, zero, suc, ◌+◌, ◌-◌, ◌/◌, ◌%◌, ◌<◌, ◌≤◌, ◌≡◌, ◌≢◌, ◌⊎◌, ◌^◌, inl, inr, refl, sym, ap, ◌∙◌,
  ==→ne, ltb→lt, subst, false, ◌&&◌, ◌==◌, some, ltb, leb, lt→ltb, u32, if◌then◌else◌, arith,
  Returns, Returns-mono, Returns-bind, pure, Bool-cases, ◌>>=◌, pos, le→ltb, ne→==,
}
use advanced_synchronization.Fs.Disk.{Volume, get32, bufcache_read}
use advanced_synchronization.Fs.Inode.{ninode, ndirect, nindirect, Inode, Files, on_vol}
use advanced_synchronization.Fs.Content.{
  bsize, t_dev, maxfile, direct_block, indirect_block, bmap, chunk, read_from, Devsw, inode_read,
}

-- The block that has the block `bn` of the file.
abbrev pub block_of : Volume → Inode → ℕ → ℕ
block_of v ip bn =
    if ltb bn ndirect then ip.addrs bn else get32 (v.view (ip.addrs ndirect)) (bn - ndirect)

-- The file has a block `bn`, so that `bmap` allocates none.
abbrev pub HasBlock : Volume → Inode → ℕ → Type 0
HasBlock v ip bn =
    ((bn < ndirect) × (ip.addrs bn ≢ 0))
    ⊎ ((ndirect ≤ bn)
        × (bn < maxfile)
        × (ip.addrs ndirect ≢ 0)
        × (get32 (v.view (ip.addrs ndirect)) (bn - ndirect) ≢ 0))

-- The byte `a` of the file.
abbrev pub byte_of : Volume → Inode → ℕ → ℕ
byte_of v ip a = v.view (block_of v ip (a / bsize)) (a % bsize)

direct-eq :
    (k : Files) (i a : ℕ)
    → i < ninode
    → (k.inodes i).addrs a ≢ 0
    → direct_block i a k ≡ some ((k.inodes i).addrs a, k)
unfolding direct_block
direct-eq k i a l h = rw (◌>>=◌, lt→ltb i ninode l, ne→== ((k.inodes i).addrs a) 0 h) refl

indirect-eq :
    (v : Volume) (addr bn : ℕ)
    → get32 (v.view addr) bn ≢ 0
    → indirect_block addr bn v ≡ some (get32 (v.view addr) bn, v)
unfolding indirect_block bufcache_read
indirect-eq v addr bn h = rw (ne→== (get32 (v.view addr) bn) 0 h) refl

bmap-eq :
    (k : Files) (i bn : ℕ)
    → i < ninode
    → HasBlock k.vol (k.inodes i) bn
    → bmap i bn k ≡ some (block_of k.vol (k.inodes i) bn, k)
unfolding bmap
bmap-eq k i bn l (inl (a, b)) = rw (lt→ltb bn ndirect a) (direct-eq k i bn l b)
bmap-eq k i bn l (inr (a, b, c, d)) =
    rw
      (
        le→ltb bn ndirect a,
        lt→ltb (bn - ndirect) nindirect (omega (arith, a, b)),
        ◌>>=◌,
        direct-eq k i ndirect l c,
        on_vol,
        indirect-eq k.vol ((k.inodes i).addrs ndirect) (bn - ndirect) d,
      )
      refl

-- The bytes of the file from `off` on stand in memory from `dst` on, and nothing else changed.
pub record ReadInto (k k' : Files) (i left off dst : ℕ) : Type 0 where
  pub copied : (a : ℕ) → a < left → k'.mem (dst + a) ≡ byte_of k.vol (k.inodes i) (off + a)
  pub kept : (a : ℕ) → (a < dst) ⊎ (dst + left ≤ a) → k'.mem a ≡ k.mem a
  pub same_volume : k'.vol ≡ k.vol
  pub same_inodes : k'.inodes ≡ k.inodes

-- The memory after a round.
abbrev round : Files → ℕ → ℕ → ℕ → ℕ → Files
round k i left off dst = record k {
  mem = λ a.
      if leb dst a && ltb a (dst + chunk left off)
      then k.vol.view (block_of k.vol (k.inodes i) (off / bsize)) (off % bsize + (a - dst))
      else k.mem a;
}

ltb→ge : (a b : ℕ) → ltb a b ≡ false → b ≤ a
ltb→ge a b h = ground (arith, h)

chunk_pos : (left off : ℕ) → left ≢ 0 → 0 < chunk left off
chunk_pos left off h = ground (arith, h)

chunk_le : (left off : ℕ) → chunk left off ≤ left
chunk_le left off = ground arith

-- A round stays in one block.
chunk_in : (left off : ℕ) → chunk left off + off % bsize ≤ bsize
chunk_in left off = ground arith

module _ (k : Files) (i left off dst : ℕ) where
  abbrev m : ℕ
  m = chunk left off

  round_copied :
      (a : ℕ)
      → a < m
      → (round k i left off dst).mem (dst + a) ≡ byte_of k.vol (k.inodes i) (off + a)
  round_copied a h =
      mem_in
      ∙ ap (λ b. k.vol.view (block_of k.vol (k.inodes i) b) (off % bsize + a)) (sym same_block)
      ∙ ap (k.vol.view (block_of k.vol (k.inodes i) ((off + a) / bsize))) (sym same_place)
    where
      same_block : (off + a) / bsize ≡ off / bsize
      same_block = omega (arith, chunk_in left off)

      same_place : (off + a) % bsize ≡ off % bsize + a
      same_place = omega (arith, chunk_in left off)

      mem_in :
          (round k i left off dst).mem (dst + a)
          ≡ k.vol.view (block_of k.vol (k.inodes i) (off / bsize)) (off % bsize + a)
      mem_in = ground (arith, h)

  round_kept : (a : ℕ) → (a < dst) ⊎ (dst + m ≤ a) → (round k i left off dst).mem a ≡ k.mem a
  round_kept a (inl h) = ground (arith, h)
  round_kept a (inr h) = ground (arith, h)

  rejoin : (a b : ℕ) → m ≤ a → b + a ≡ b + m + (a - m)
  rejoin a b h = omega (arith, h)

  round-ReadInto :
      (k' : Files)
      → ReadInto (round k i left off dst) k' i (left - m) (off + m) (dst + m)
      → ReadInto k k' i left off dst
  round-ReadInto k' r = record {
    copied = λ a h. elim (Bool-cases (ltb a m)) [
      | inl e ↦ r.kept (dst + a) (inl (ground (arith, e))) ∙ round_copied a (ltb→lt a m e)
      | inr e ↦
          ap k'.mem (rejoin a dst (ltb→ge a m e))
          ∙ r.copied (a - m) (omega (arith, ltb→ge a m e, h))
          ∙ ap (byte_of k.vol (k.inodes i)) (sym (rejoin a off (ltb→ge a m e)))
    ];
    kept = λ a h. elim h [
      | inl u ↦ r.kept a (inl (omega (arith, u))) ∙ round_kept a (inl u)
      | inr u ↦
          r.kept a (inr (omega (arith, u, chunk_le left off)))
          ∙ round_kept a (inr (omega (arith, u, chunk_le left off)))
    ];
    same_volume = r.same_volume;
    same_inodes = r.same_inodes;
  }

read_from-ReadInto :
    (fuel : ℕ) (k : Files) (i left off dst : ℕ)
    → i < ninode
    → left ≤ fuel
    → ((a : ℕ) → a < left → HasBlock k.vol (k.inodes i) ((off + a) / bsize))
    → Returns (λ _ k'. ReadInto k k' i left off dst) (read_from fuel i left off dst k)
unfolding read_from bufcache_read
read_from-ReadInto zero k i left off dst l le has = record {
  copied = λ a h. absurd (omega arith);
  kept = λ a h. refl;
  same_volume = refl;
  same_inodes = refl;
}
read_from-ReadInto (suc fuel) k i left off dst l le has = elim (Bool-cases (left == 0)) [
  | inl e ↦ rw e (record {
    copied = λ a h. absurd (ground (arith, e, h));
    kept = λ a h. refl;
    same_volume = refl;
    same_inodes = refl;
  })
  | inr e ↦
      rw (e, ◌>>=◌, bmap-eq k i (off / bsize) l (here (==→ne left 0 e)))
        (Returns-mono
          (λ _ k'.
            ReadInto (round k i left off dst) k' i (left - chunk left off) (off + chunk left off)
              (dst + chunk left off))
          (λ _ k'. ReadInto k k' i left off dst)
          (read_from fuel i (left - chunk left off) (off + chunk left off) (dst + chunk left off)
            (round k i left off dst))
          (read_from-ReadInto fuel (round k i left off dst) i (left - chunk left off)
            (off + chunk left off) (dst + chunk left off) l
            (omega (arith, chunk_pos left off (==→ne left 0 e)))
            (λ a h.
              subst (HasBlock k.vol (k.inodes i)) (omega arith)
                (has (chunk left off + a) (omega (arith, chunk_le left off)))))
          (λ _ k' r. round-ReadInto k i left off dst k' r))
]
  where
    here : left ≢ 0 → HasBlock k.vol (k.inodes i) (off / bsize)
    here h = subst (HasBlock k.vol (k.inodes i)) (omega arith) (has 0 (omega arith))

-- The bytes that a read of `n` bytes at `off` gives.
abbrev pub read_count : Inode → ℕ → ℕ → ℕ
read_count ip off n = if ltb ip.size (off + n) then ip.size - off else n

-- A read of `n` bytes at `off`, no more than the size of a file that is no device and all of whose
-- blocks are there, with `off + n` below 2 ^ 32, gives as many of them as the file has: they stand in memory from `dst` on, and neither the rest of the memory
-- nor the volume nor the inodes changed.
pub inode_read-ReadInto :
    (devsw : Devsw) (k : Files) (i dst off n : ℕ)
    → i < ninode
    → (k.inodes i).type ≢ t_dev
    → off ≤ (k.inodes i).size
    → off + n < 2 ^ 32
    → ((a : ℕ) → a < (k.inodes i).size → HasBlock k.vol (k.inodes i) (a / bsize))
    → Returns
        (λ r k'.
          (r ≡ pos (read_count (k.inodes i) off n))
          × ReadInto k k' i (read_count (k.inodes i) off n) off dst)
        (inode_read devsw i dst off n k)
unfolding inode_read
inode_read-ReadInto devsw k i dst off n l file le room has =
    rw
      (
        ◌>>=◌,
        lt→ltb i ninode l,
        ne→== (k.inodes i).type t_dev file,
        le→ltb (k.inodes i).size off le,
        whole,
        le→ltb (off + n) off (omega arith),
      )
      (Returns-bind (λ _ k'. ReadInto k k' i count off dst)
        (λ r k'. (r ≡ pos count) × ReadInto k k' i count off dst) (read_from count i count off dst)
        (λ _.
          pure (pos (if ltb (k.inodes i).size (u32 (off + n)) then (k.inodes i).size - off else n)))
        k
        (read_from-ReadInto count k i count off dst l (omega arith)
          (λ a h. has (off + a) (omega (arith, h, in_file))))
        (λ _ k' r. (
          ap (λ z. pos (if ltb (k.inodes i).size z then (k.inodes i).size - off else n)) whole,
          r,
        )))
  where
    whole : u32 (off + n) ≡ off + n
    whole = omega arith

    count : ℕ
    count = read_count (k.inodes i) off n

    in_file : off + count ≤ (k.inodes i).size
    in_file = ground (arith, le)
