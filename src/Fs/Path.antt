-- ===== src/Fs/Path.antt =====
-- kern/fs/path.c: path names. The loops over the bytes of a path run on fuel; a call that runs out of it
-- gives `none`. A call that finds an inode locked ends at the switch of contexts.
pub mod Element
use advanced_synchronization.Base.{
  ℕ, zero, suc, ◌+◌, ◌-◌, leb, ◌==◌, ◌&&◌, ◌||◌, not, if◌then◌else◌, Bool, true, false, Option,
  none, some, update, M, pure, stop, ◌>>=◌, ◌>>◌,
}
use advanced_synchronization.Strings.{Bytes, strncpy}
use advanced_synchronization.Fs.Inode.{
  Files, Outcome, done, asleep, inode_at, inode_get, inode_dup, inode_lock, inode_unlock,
}
use advanced_synchronization.Fs.Content.{Devsw, inode_put, inode_unlockput}
use advanced_synchronization.Fs.Dir.{dirsiz, t_dir, get_mem, set_mem, dir_lookup}

-- The slash, and the number of the root inode on the device ROOTDEV.
abbrev pub slash : ℕ
slash = 47

abbrev pub rootdev : ℕ
rootdev = 1

abbrev pub rootino : ℕ
rootino = 1

-- The first address from `p` on that has no slash.
unfoldable pub skip_slashes : ℕ → Bytes → ℕ → Option ℕ
skip_slashes zero m p = none
skip_slashes (suc n) m p =
    let rest = skip_slashes n m (p + 1) in if m p == slash then rest else some p

-- The first address from `p` on that has a slash or the end of the string.
unfoldable pub skip_name : ℕ → Bytes → ℕ → Option ℕ
skip_name zero m p = none
skip_name (suc n) m p =
    let rest = skip_name n m (p + 1) in if m p == slash || m p == 0 then some p else rest

-- A loop over the bytes in memory.
abbrev pub on_bytes : (Bytes → ℕ → Option ℕ) → ℕ → M Files ℕ
on_bytes f p k = elim (f k.mem p) [ none ↦ none | some q ↦ some (q, k) ]

-- The bytes of a name that are kept.
abbrev pub name_len : ℕ → ℕ
name_len n = if leb dirsiz n then dirsiz - 1 else n

-- The name of the element that starts at `start`, and the path behind it.
unfoldable pub copy_elem : ℕ → ℕ → ℕ → M Files (Option ℕ)
unfolding strncpy
copy_elem fuel start name = do
  end ← on_bytes (skip_name fuel) start
  let len = name_len (end - start)
  set_mem (strncpy len name start)
  set_mem (λ m. update m (name + len) 0)
  rest ← on_bytes (skip_slashes fuel) end
  pure (some rest)

-- `path` is not NULL here: its callers dereference it, or got it from this function.
unfoldable pub skipelem : ℕ → ℕ → ℕ → M Files (Option ℕ)
skipelem fuel path name = do
  m ← get_mem
  if m path == 0 then pure none else (do
    start ← on_bytes (skip_slashes fuel) path
    if m start == 0 then pure none else copy_elem fuel start name)

-- What a round of `namex` comes to: the result, or the next inode.
pub data Step : Type 0 where
  found : Option ℕ → Step
  descend : ℕ → Step

module _ (devsw : Devsw) (de : ℕ) where
  -- A round with the inode locked, `last` when the path is at its end.
  unfoldable pub walk : ℕ → Bool → Bool → ℕ → M Files Step
  unfolding inode_unlock inode_unlockput
  walk ip nameiparent last name = do
    i ← inode_at ip
    if not (i.type == t_dir)
        then (do inode_unlockput ip; pure (found none))
        else if nameiparent && last
        then (do inode_unlock ip; pure (found (some ip)))
        else dir_lookup devsw de ip name >>= λ subdir. elim subdir [
          | none ↦ (do inode_unlockput ip; pure (found none))
          | some (s, _) ↦ (do inode_unlockput ip; pure (descend s))
        ]

  -- The loop of `namex`, one round for each element of the path.
  unfoldable pub namex_from : ℕ → ℕ → ℕ → Bool → ℕ → M Files (Outcome (Option ℕ))
  unfolding inode_lock inode_put
  namex_from zero ip path nameiparent name = stop
  namex_from (suc fuel) ip path nameiparent name = skipelem (suc fuel) path name >>= λ r. elim r [
    | none ↦ if nameiparent then (do inode_put ip; pure (done none)) else pure (done (some ip))
    | some path' ↦ inode_lock ip >>= λ l. elim l [
      | asleep ↦ pure asleep
      | done _ ↦ get_mem >>= λ m. walk ip nameiparent (m path' == 0) name >>= λ s. elim s [
        | found res ↦ pure (done res)
        | descend subdir ↦ namex_from fuel subdir path' nameiparent name
      ]
    ]
  ]

  -- `cwd` is the working directory of the current thread.
  unfoldable pub namex : ℕ → ℕ → ℕ → Bool → ℕ → M Files (Outcome (Option ℕ))
  unfolding inode_get inode_dup
  namex fuel cwd path nameiparent name = do
    m ← get_mem
    ip ← (if m path == slash then inode_get rootdev rootino else inode_dup cwd)
    namex_from fuel ip path nameiparent name

  unfoldable pub namei : ℕ → ℕ → ℕ → ℕ → M Files (Outcome (Option ℕ))
  namei fuel cwd path name = namex fuel cwd path false name

  unfoldable pub nameiparent : ℕ → ℕ → ℕ → ℕ → M Files (Outcome (Option ℕ))
  nameiparent fuel cwd path name = namex fuel cwd path true name
