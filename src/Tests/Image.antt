-- ===== src/Tests/Image.antt =====
-- A file system image with one file, "hi", of the five bytes "abcde".
use ece391os.Prelude.{
  ℕ, ◌+◌, ◌-◌, ◌≤◌, ◌<◌, ◌≡◌, ◌≢◌, ◌⊎◌, refl, arith, ◌&&◌, some, if◌then◌else◌, ltb, leb, ◌==◌,
}
use ece391os.Memory.{Mem, load32}
use ece391os.Text.Length.{IsString}
use ece391os.Text.Compare.{IsBytes}
use ece391os.FileSystem.{
  FileSystem, read_data, read_dentry_by_name, num_dentries, num_inodes, dentry_address,
}
use ece391os.FileSystem.Blocks.{IsWithin, file_size}
use ece391os.FileSystem.Entry.{Looked, OutsideDirectory, read_dentry_by_name-Looked}
use ece391os.FileSystem.ReadData.{read_data-loaded, loaded}
use ece391os.FileSystem.ReadTotal.{read_data-returned}
use ece391os.Descriptor.{Fdt, file_table, dir_table}
use ece391os.Files.{file_read, dir_read}
use ece391os.Files.Cursor.{IsOpen, file_read-loaded}
use ece391os.Files.Listing.{HasName, Listed, dir_read-Listed}

-- The boot block at 4096, the inode at 8192, the data block at 12288; the name again at 20000.
abbrev pub image : Mem
image a =
    if a == 4096
    then 1
    else if a == 4100
    then 1
    else if a == 4104
    then 1
    else if a == 4160
    then 104
    else if a == 4161
    then 105
    else if a == 4192
    then 2
    else if a == 8192
    then 5
    else if leb 12288 a && ltb a 12293
    then 97 + (a - 12288)
    else if a == 20000
    then 104
    else if a == 20001
    then 105
    else 0

abbrev pub fs : FileSystem
fs = record { boot_block = 4096; fs_start = 4096 }

pub image-IsBytes : IsBytes image
image-IsBytes a = ground arith

pub name-IsString : IsString image 20000 2
name-IsString = record { inside = λ i lt. ground arith; ends = refl; fits = omega arith }

pub image-IsWithin : IsWithin image fs 0 4096 16384
unfolding load32
image-IsWithin = record {
  header = omega arith;
  entries = λ k lt. let z : k ≡ 0 = omega arith in rw z (omega arith);
  blocks = λ k lt. let z : k ≡ 0 = omega arith in rw z (omega arith);
}

abbrev fdt : Fdt
fdt fd = record { jump_ptr = file_table; inode = 0; file_position = 2; flags = 1 }

-- The same file in data block 1, at 16384.
abbrev far_image : Mem
far_image a =
    if a == 4100
    then 1
    else if a == 8192
    then 5
    else if a == 8196
    then 1
    else if leb 16384 a && ltb a 16389
    then 97 + (a - 16384)
    else 0

far_image-IsBytes : IsBytes far_image
far_image-IsBytes a = ground arith

far_image-IsWithin : IsWithin far_image fs 0 4096 20480
unfolding load32
far_image-IsWithin = record {
  header = omega arith;
  entries = λ k lt. let z : k ≡ 0 = omega arith in rw z (omega arith);
  blocks = λ k lt. let z : k ≡ 0 = omega arith in rw z (omega arith);
}

read_data-loaded_example :
    (m' : Mem) × (read_data far_image fs 0 1 30000 3 ≡ some (3, m'))
    × ((a : ℕ) → m' a ≡ loaded far_image far_image fs 0 30000 1 3 a)
unfolding load32
read_data-loaded_example =
    read_data-loaded far_image fs 0 1 30000 3 4096 20480 far_image-IsBytes far_image-IsWithin
      (omega arith) (omega arith) (omega arith) (omega arith)

file-IsOpen : IsOpen image fs fdt 2 4096 16384
unfolding load32
file-IsOpen = record {
  within = image-IsWithin;
  valid = omega arith;
  inside = omega arith;
  bytes = image-IsBytes;
}

file_read-loaded_example :
    (fdt' : Fdt) × (m' : Mem) × (file_read fs fdt image 2 30000 100 ≡ some (3, fdt', m'))
    × ((fdt' 2).file_position ≡ 5)
    × ((fdt' 2).inode ≡ 0)
    × ((other : ℕ) → other ≢ 2 → fdt' other ≡ fdt other)
    × ((a : ℕ) → m' a ≡ loaded image image fs 0 30000 2 3 a)
unfolding load32
file_read-loaded_example =
    file_read-loaded fs fdt image 2 30000 100 4096 16384 file-IsOpen (omega arith) (omega arith)
      (omega arith)

read_data-returned_example :
    (m' : Mem) × (read_data image fs 0 9 30000 3 ≡ some (0, m'))
    × ((m' ≡ image) ⊎ ((0 < num_inodes image fs) × (9 ≤ file_size image fs 0)))
unfolding load32
read_data-returned_example = read_data-returned image fs 0 9 30000 3 image-IsBytes (omega arith)

dentry_outside : OutsideDirectory image fs 40000
unfolding load32
dentry_outside = omega arith

read_dentry_by_name-Looked_example :
    (ret : ℕ) × (m' : Mem) × (read_dentry_by_name image fs 20000 40000 ≡ some (ret, m'))
    × Looked image fs 20000 2 40000 ret m'
read_dentry_by_name-Looked_example =
    read_dentry_by_name-Looked image fs 20000 2 40000 image-IsBytes name-IsString (omega arith)
      dentry_outside

abbrev listing : Fdt
listing fd = record { jump_ptr = dir_table; inode = 0; file_position = 0; flags = 1 }

entry-HasName : HasName image (dentry_address fs 0) 2
entry-HasName = record { short = omega arith; inside = λ i lt. ground arith; ends = λ lt. refl }

dir_read-Listed_example :
    ((0 < num_dentries image fs)
      × Listed image listing 2 30000 40000
          (dentry_address fs 0)
          0
          2
          (dir_read fs listing image 40000 2 30000 32))
    ⊎ ((num_dentries image fs ≤ 0)
        × (dir_read fs listing image 40000 2 30000 32 ≡ (0, listing, image)))
dir_read-Listed_example =
    dir_read-Listed fs listing image 40000 2 30000 32 2 image-IsBytes dentry_outside (omega arith)
      (omega arith) (λ lt. entry-HasName)
