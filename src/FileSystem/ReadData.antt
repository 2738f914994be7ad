-- ===== src/FileSystem/ReadData.antt =====
-- What `read_data` of student-distrib/file_system.c leaves in the caller's buffer.
use ece391os.Prelude.{
  ℕ, zero, suc, ◌+◌, ◌-◌, ◌*◌, ◌/◌, ◌%◌, ◌^◌, ◌≤◌, ◌<◌, ◌≡◌, ◌⊎◌, inl, inr, refl, ap, ◌∙◌, arith,
  some, if◌then◌else◌, ◌==◌, ==_iff, le→ltb, lt→leb, Bool-cases, u32, sub32,
}
use Prim.Native.Nat.{min}
use ece391os.Memory.{Mem, load32, memcpy, in_block}
use ece391os.Memory.Words.{load32-lt}
use ece391os.Memory.Copy.{memcpy-copied}
use ece391os.Text.Compare.{IsBytes}
use ece391os.FileSystem.{
  FileSystem, num_inodes, four_kb, dblock_address, copy_length, read_data_loop, inode_address,
  end_point, read_data,
}
use ece391os.FileSystem.Blocks.{
  table_address, dblock_address_lem, block_base, file_size, file_byte, IsWithin, Same,
  block_base-Same, file_byte_in_block,
}

-- The memory after `n` bytes of the file, from position `from` on, went to `dest`.
abbrev pub loaded : Mem → Mem → FileSystem → ℕ → ℕ → ℕ → ℕ → Mem
loaded m0 m fs inode dest from n a =
    if in_block dest n a then file_byte m0 fs inode (from + (a - dest)) else m a

module _ (m0 : Mem) (fs : FileSystem) (inode lo hi buf end : ℕ) (w : IsWithin m0 fs inode lo hi)
    (he : end ≤ file_size m0 fs inode) (small : end < 2 ^ 32) where
  -- The loop at `cur` with `copied` bytes copied: the image is intact, and the two pointers are
  -- those of the block of `cur`.
  record IsAt (m : Mem) (num_addr dblock_addr cur copied : ℕ) : Type 0 where
    intact : Same m0 m lo hi
    inside : cur ≤ end
    entry : cur < end → num_addr ≡ table_address fs inode (cur / four_kb)
    block : cur < end → dblock_addr ≡ block_base m0 fs inode (cur / four_kb)
    room : (buf + copied + (end - cur) ≤ lo) ⊎ (hi ≤ buf)
    no_wrap : copied + (end - cur) < 2 ^ 32

  round :
      (m : Mem) (num_addr dblock_addr cur copied n a : ℕ)
      → IsAt m num_addr dblock_addr cur copied
      → cur < end
      → n ≤ end - cur
      → n ≤ four_kb - cur % four_kb
      → memcpy m (buf + copied) (dblock_addr + cur % four_kb) n a
        ≡ loaded m0 m fs inode (buf + copied) cur n a
  round m num_addr dblock_addr cur copied n a st lt le le' =
      let k = cur / four_kb in
      let in_file : k * four_kb < file_size m0 fs inode = omega arith in
      let bounds = w.blocks k in_file in
      let off = a - (buf + copied) in
      ground (
        arith,
        st.block,
        st.room,
        bounds,
        memcpy-copied n m (buf + copied) (dblock_addr + cur % four_kb) a,
        st.intact (dblock_addr + cur % four_kb + off),
        file_byte_in_block m0 fs inode cur off,
      )

  -- The next round starts in the next block, with the image intact.
  IsAt-next :
      (m : Mem) (num_addr dblock_addr cur copied : ℕ)
      → IsAt m num_addr dblock_addr cur copied
      → cur < end
      → let n = copy_length cur end in
        let m1 = memcpy m (buf + copied) (dblock_addr + cur % four_kb) n in
        IsAt m1
          (num_addr + 4)
          (dblock_address m1 fs (load32 m1 (num_addr + 4)))
          (cur + n)
          (copied + n)
  IsAt-next m num_addr dblock_addr cur copied st lt = record {
    intact = intact;
    inside = omega (arith, bounds);
    entry = λ lt'. ground (arith, st.entry lt, crossed lt');
    block = λ lt'. rw (entry_next lt') (
        dblock_address_lem m1 fs (load32 m1 (table_address fs inode k'))
        ∙ block_base-Same m0 m1 fs inode lo hi k' w intact (omega (arith, crossed lt'))
        ∙ ap (block_base m0 fs inode) (crossed lt'));
    room = ground (arith, st.room, bounds);
    no_wrap = omega (arith, st.no_wrap, bounds);
  }
    where
      n : ℕ
      n = copy_length cur end

      k' : ℕ
      k' = cur / four_kb + 1

      m1 : Mem
      m1 = memcpy m (buf + copied) (dblock_addr + cur % four_kb) n

      bounds : (n ≤ end - cur) × (n ≤ four_kb - cur % four_kb)
      bounds = ground (arith, st.inside)

      crossed : cur + n < end → k' ≡ (cur + n) / four_kb
      crossed lt' = ground arith

      entry_next : cur + n < end → num_addr + 4 ≡ table_address fs inode k'
      entry_next lt' = omega (arith, st.entry lt)

      intact : Same m0 m1 lo hi
      intact a l h = ground (
        arith,
        round m num_addr dblock_addr cur copied n a st lt bounds.0 bounds.1,
        st.intact a l h,
        st.room,
        bounds,
      )

  loaded-loaded :
      (m m1 : Mem) (dest from n rest a : ℕ)
      → m1 a ≡ loaded m0 m fs inode dest from n a
      → loaded m0 m1 fs inode (dest + n) (from + n) rest a
        ≡ loaded m0 m fs inode dest from (n + rest) a
  loaded-loaded m m1 dest from n rest a h = ground arith

  read_data_loop-loaded :
      (fuel : ℕ) (m : Mem) (num_addr dblock_addr cur copied : ℕ)
      → IsAt m num_addr dblock_addr cur copied
      → end - cur < fuel
      → (m' : Mem) × (read_data_loop fuel m fs buf num_addr dblock_addr cur end copied
          ≡ some (copied + (end - cur), m'))
        × ((a : ℕ) → m' a ≡ loaded m0 m fs inode (buf + copied) cur (end - cur) a)
  unfolding read_data_loop
  read_data_loop-loaded zero m num_addr dblock_addr cur copied st lt = absurd (omega arith)
  read_data_loop-loaded (suc fuel) m num_addr dblock_addr cur copied st lt =
      elim (Bool-cases (cur == end)) [
        | inl done ↦
            let e : cur ≡ end = (==_iff cur end).0 done in
            (m, rw done (ap (λ k. some (k, m)) (omega arith)), λ a. ground arith)
        | inr more ↦
            let n : ℕ = copy_length cur end in
            let m1 : Mem = memcpy m (buf + copied) (dblock_addr + cur % four_kb) n in
            let before : cur < end = ground (arith, st.inside) in
            let bounds : (0 < n) × (n ≤ end - cur) × (n ≤ four_kb - cur % four_kb) = ground arith in
            let (m', run, at) =
              read_data_loop-loaded fuel m1 (num_addr + 4)
                (dblock_address m1 fs (load32 m1 (num_addr + 4))) (cur + n) (copied + n)
                (IsAt-next m num_addr dblock_addr cur copied st before) (omega (arith, bounds)) in
            let cur_fits : u32 (cur + n) ≡ cur + n = omega (arith, bounds) in
            let copied_fits : u32 (copied + n) ≡ copied + n = omega (arith, bounds, st.no_wrap) in
            (
              m',
              rw (more, cur_fits, copied_fits)
                  (run ∙ ap (λ k. some (k, m')) (omega (arith, bounds))),
              λ a.
                  at a
                  ∙ ap (λ d. loaded m0 m1 fs inode d (cur + n) (end - (cur + n)) a) (omega arith)
                  ∙ loaded-loaded m m1 (buf + copied) cur n (end - (cur + n)) a
                      (round m num_addr dblock_addr cur copied n a st before bounds.1 bounds.2)
                  ∙ ap (λ k. loaded m0 m fs inode (buf + copied) cur k a) (omega (arith, bounds)),
            )
      ]

-- For an inode and an offset inside the file, `read_data` returns the number of bytes that are
-- asked for, or of those left in the file if that is less; the buffer then holds the file's bytes
-- from the offset on, across block boundaries, and no other byte of memory has changed. The file
-- must lie in memory apart from the buffer, and offset and length must not wrap around.
pub read_data-loaded :
    (m : Mem) (fs : FileSystem) (inode offset buf length lo hi : ℕ)
    → IsBytes m
    → IsWithin m fs inode lo hi
    → inode < num_inodes m fs
    → offset ≤ file_size m fs inode
    → offset + length < 2 ^ 32
    → (buf + length ≤ lo) ⊎ (hi ≤ buf)
    → let n = min length (file_size m fs inode - offset) in
      (m' : Mem) × (read_data m fs inode offset buf length ≡ some (n, m'))
      × ((a : ℕ) → m' a ≡ loaded m m fs inode buf offset n a)
unfolding read_data
read_data-loaded m fs inode offset buf length lo hi b w valid below fits apart =
    let (m', run, at) =
      read_data_loop-loaded m fs inode lo hi buf end w inside small (suc (sub32 end offset)) m
        num_addr (dblock_address m fs (load32 m num_addr)) offset 0 start
        (omega (arith, inside, small)) in
    (
      m',
      rw (lt→leb _ _ valid, le→ltb _ _ below) (run ∙ ap (λ k. some (k, m')) (ground arith)),
      λ a.
          at a
          ∙ ap (λ d. loaded m m fs inode d offset (end - offset) a) (omega arith)
          ∙ ap (λ k. loaded m m fs inode buf offset k a) (ground arith),
    )
  where
    end : ℕ
    end = end_point offset length (file_size m fs inode)

    num_addr : ℕ
    num_addr = inode_address fs inode + 4 + 4 * (offset / four_kb)

    size_fits : file_size m fs inode < 2 ^ 32
    size_fits = load32-lt m (inode_address fs inode) b

    inside : end ≤ file_size m fs inode
    inside = ground arith

    small : end < 2 ^ 32
    small = omega (arith, inside, size_fits)

    starts_before : offset ≤ end
    starts_before = ground arith

    short : end - offset ≤ length
    short = ground arith

    start :
        IsAt m fs inode lo hi buf end w inside small m num_addr
          (dblock_address m fs (load32 m num_addr))
          offset
          0
    start = record {
      intact = λ a l h. refl;
      inside = starts_before;
      entry = λ lt. refl;
      block = λ lt. dblock_address_lem m fs (load32 m num_addr);
      room = omega (arith, short);
      no_wrap = omega (arith, small);
    }
