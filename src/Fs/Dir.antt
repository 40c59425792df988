-- ===== src/Fs/Dir.antt =====
-- kern/fs/dir.c: directories. `de` is the address of the `struct dirent` on the caller's stack.
use advanced_synchronization.Base.{
  ℕ, zero, suc, ◌+◌, ◌*◌, ◌/◌, ◌%◌, ◌==◌, if◌then◌else◌, Bool, true, false, Option, none, some,
  update, ℤ, pos, negsuc, M, pure, check, ◌>>=◌, ◌>>◌,
}
use advanced_synchronization.Strings.{Bytes, strncmp, strncpy}
use advanced_synchronization.Fs.Inode.{Files, inode_at, inode_get}
use advanced_synchronization.Fs.Content.{Devsw, inode_read, inode_write, inode_put}

abbrev pub dirsiz : ℕ
dirsiz = 14

abbrev pub t_dir : ℕ
t_dir = 1

-- `sizeof(struct dirent)`, and the fields of the one at `de`.
abbrev pub dirent_size : ℕ
dirent_size = 16

abbrev pub de_inum : Bytes → ℕ → ℕ
de_inum m de = m de + 256 * m (de + 1)

abbrev pub set_de_inum : ℕ → ℕ → Bytes → Bytes
set_de_inum de inum m = update (update m de (inum % 256)) (de + 1) (inum / 256 % 256)

abbrev pub de_name : ℕ → ℕ
de_name de = de + 2

unfoldable pub dir_namecmp : Bytes → ℕ → ℕ → ℤ
unfolding strncmp
dir_namecmp m s t = strncmp m s t dirsiz

-- A result that is the number `n`.
abbrev pub is_count : ℤ → ℕ → Bool
is_count (pos m) n = m == n
is_count (negsuc _) n = false

abbrev pub get_mem : M Files Bytes
get_mem k = some (k.mem, k)

abbrev pub set_mem : (Bytes → Bytes) → M Files (Unit {0})
set_mem f k = some (tt, record k { mem = f k.mem })

-- What the loop of `dir_lookup` does with an entry read.
pub data Seen : Type 0 where
  free other match : Seen

unfoldable pub seen : Bytes → ℕ → ℕ → Seen
unfolding dir_namecmp
seen m de name =
    if de_inum m de == 0
    then free
    else if is_count (dir_namecmp m (de_name de) name) 0
    then match
    else other

module _ (devsw : Devsw) where
  -- An entry is read to `de`, or the kernel panics.
  unfoldable pub read_entry : ℕ → ℕ → ℕ → M Files (Unit {0})
  unfolding inode_read
  read_entry de dp off = do
    r ← inode_read devsw dp de off dirent_size
    check (is_count r dirent_size)

  -- The loop of `dir_lookup` from the offset `off` on, with the rounds left.
  unfoldable pub lookup_from : ℕ → ℕ → ℕ → ℕ → ℕ → M Files (Option (ℕ × ℕ))
  unfolding inode_get
  lookup_from zero de dp name off = pure none
  lookup_from (suc n) de dp name off = read_entry de dp off >> get_mem >>= λ m.
      elim (seen m de name) [
        | match ↦ (do d ← inode_at dp; i ← inode_get d.dev (de_inum m de); pure (some (i, off)))
        | _ ↦ lookup_from n de dp name (off + dirent_size)
      ]

  abbrev pub entries : ℕ → ℕ
  entries size = (size + 15) / dirent_size

  -- The inode of the name, and the offset of its entry.
  unfoldable pub dir_lookup : ℕ → ℕ → ℕ → M Files (Option (ℕ × ℕ))
  dir_lookup de dp name = do
    d ← inode_at dp
    check (d.type == t_dir)
    lookup_from (entries d.size) de dp name 0

  -- The second loop of `dir_link`: the offset of the first free entry, or of the end.
  unfoldable pub free_entry_from : ℕ → ℕ → ℕ → ℕ → M Files ℕ
  free_entry_from zero de dp off = pure off
  free_entry_from (suc n) de dp off = read_entry de dp off >> get_mem >>= λ m.
      elim (de_inum m de == 0) [
        | true ↦ pure off
        | false ↦ free_entry_from n de dp (off + dirent_size)
      ]

  unfoldable pub dir_link : ℕ → ℕ → ℕ → ℕ → M Files ℤ
  unfolding inode_put inode_write strncpy
  dir_link de dp name inum = dir_lookup de dp name >>= λ found. elim found [
    | some (i, _) ↦ (do inode_put i; pure (negsuc 0))
    | none ↦ (do
      d ← inode_at dp
      off ← free_entry_from (entries d.size) de dp 0
      set_mem (set_de_inum de inum)
      set_mem (strncpy dirsiz (de_name de) name)
      r ← inode_write devsw dp de off dirent_size
      check (is_count r dirent_size)
      pure (pos 0))
  ]
