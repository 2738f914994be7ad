-- ===== src/FileSystem/ReadTotal.antt =====
-- Termination of `read_data` of student-distrib/file_system.c, and the number that it returns.
use ece391os.Prelude.{
  ℕ, zero, suc, ◌+◌, ◌-◌, ◌*◌, ◌/◌, ◌%◌, ◌^◌, ◌≤◌, ◌<◌, ◌≡◌, ◌≢◌, ◌⊎◌, inl, inr, refl, ap, ◌∙◌,
  arith, some, if◌then◌else◌, ltb, leb, ◌==◌, ==_iff, Bool-cases, u32, minus_one, sub32, length,
}
use ece391os.Memory.{Mem, load32, memcpy}
use ece391os.Memory.Words.{load32-lt}
use ece391os.Text.Compare.{IsBytes}
use ece391os.FileSystem.{
  FileSystem, num_inodes, four_kb, dblock_address, copy_length, read_data_loop, inode_address,
  end_point, read_data,
}

-- A round makes progress, and does not go past the end point.
pub copy_length_bounds :
    (cur end : ℕ)
    → cur < 2 ^ 32
    → end < 2 ^ 32
    → cur ≢ end
    → (0 < copy_length cur end) × (copy_length cur end ≤ sub32 end cur)
copy_length_bounds cur end hc he ne = ground arith

distance_left :
    (cur end n : ℕ)
    → cur < 2 ^ 32
    → end < 2 ^ 32
    → n ≤ sub32 end cur
    → sub32 end (u32 (cur + n)) ≡ sub32 end cur - n
distance_left cur end n hc he le = omega arith

sum_left : (c n d : ℕ) → c < 2 ^ 32 → n ≤ d → u32 (u32 (c + n) + (d - n)) ≡ u32 (c + d)
sum_left c n d hc le = omega arith

module _ (fs : FileSystem) (buf end : ℕ) (he : end < 2 ^ 32) where
  pub read_data_loop_total :
      (fuel : ℕ) (m : Mem) (num_addr dblock_addr cur copied : ℕ)
      → cur < 2 ^ 32
      → copied < 2 ^ 32
      → sub32 end cur < fuel
      → (m' : Mem) × (read_data_loop fuel m fs buf num_addr dblock_addr cur end copied
          ≡ some (u32 (copied + sub32 end cur), m'))
  unfolding read_data_loop
  read_data_loop_total zero m num_addr dblock_addr cur copied hc hk lt = absurd (omega arith)
  read_data_loop_total (suc fuel) m num_addr dblock_addr cur copied hc hk lt =
      elim (Bool-cases (cur == end)) [
        | inl done ↦
            (m, rw done (ap (λ n. some (n, m)) (let e = (==_iff cur end).0 done in omega arith)))
        | inr more ↦
            let n : ℕ = copy_length cur end in
            let m1 : Mem = memcpy m (buf + copied) (dblock_addr + cur % four_kb) n in
            let bounds = copy_length_bounds cur end hc he (ground arith) in
            let left = distance_left cur end n hc he bounds.1 in
            let (m', run) =
              read_data_loop_total fuel m1 (num_addr + 4)
                (dblock_address m1 fs (load32 m1 (num_addr + 4))) (u32 (cur + n)) (u32 (copied + n))
                (omega arith) (omega arith) (rw left (omega arith)) in
            (
              m',
              rw more (
                  run
                  ∙ ap (λ k. some (k, m'))
                      (rw left (sum_left copied n (sub32 end cur) hk bounds.1))),
            )
      ]

end_point-lt : (offset length size : ℕ) → size < 2 ^ 32 → end_point offset length size < 2 ^ 32
end_point-lt offset length size h = ground arith

-- What `read_data` returns, on every branch: -1 for a bad inode number, 0 past the end of the file,
-- and else the 32-bit distance from the offset to the end point.
abbrev pub returned : Mem → FileSystem → ℕ → ℕ → ℕ → ℕ
returned m fs inode offset length =
    let size = load32 m (inode_address fs inode) in
    if leb (num_inodes m fs) inode
    then minus_one
    else if ltb size offset
    then 0
    else sub32 (end_point offset length size) offset

-- `read_data` returns for every inode number, offset, length and contents of the image, and its
-- result is the one that `returned` gives; memory changes only for a good inode number and an
-- offset that is not past the end of the file.
pub read_data-returned :
    (m : Mem) (fs : FileSystem) (inode offset buf length : ℕ)
    → IsBytes m
    → offset < 2 ^ 32
    → (m' : Mem) × (read_data m fs inode offset buf length
        ≡ some (returned m fs inode offset length, m'))
      × ((m' ≡ m) ⊎ ((inode < num_inodes m fs) × (offset ≤ load32 m (inode_address fs inode))))
unfolding read_data
read_data-returned m fs inode offset buf length b ho =
    elim (Bool-cases (leb (num_inodes m fs) inode)) [
      | inl bad ↦ (m, rw bad refl, inl refl)
      | inr good ↦ elim (Bool-cases (ltb size offset)) [
        | inl past ↦ (m, rw (good, past) refl, inl refl)
        | inr inside ↦
            let (m', run) =
              read_data_loop_total fs buf end he (suc (sub32 end offset)) m num_addr
                (dblock_address m fs (load32 m num_addr)) offset 0 ho (omega arith) (omega arith) in
            (
              m',
              rw (good, inside) (run ∙ ap (λ k. some (k, m')) (omega arith)),
              inr (ground arith, ground arith),
            )
      ]
    ]
  where
    size : ℕ
    size = load32 m (inode_address fs inode)

    end : ℕ
    end = end_point offset length size

    he : end < 2 ^ 32
    he = end_point-lt offset length size (load32-lt m (inode_address fs inode) b)

    num_addr : ℕ
    num_addr = inode_address fs inode + 4 + 4 * (offset / four_kb)
