-- ===== src/Tests/Blocks.antt =====
-- Block and string operations.
use ece391os.Prelude.{◌≡◌, inl, arith}
use ece391os.Memory.{memcpy, memmove, memset}
use ece391os.Memory.Copy.{copied, memcpy-copied, memmove-copied}
use ece391os.Memory.Fill.{filled, memset-filled}
use ece391os.Tests.Image.{image}

-- Two blocks that overlap, the destination below.
memcpy-copied_example : memcpy image 4159 4160 7 4160 ≡ copied image 4159 4160 7 4160
memcpy-copied_example = memcpy-copied 7 image 4159 4160 4160 (inl (omega arith))

memmove-copied_example : memmove image 4161 4160 7 4162 ≡ copied image 4161 4160 7 4162
memmove-copied_example = memmove-copied 7 image 4161 4160 4162

memset-filled_example : memset image 4097 0x141 9 4100 ≡ filled image 4097 0x41 9 4100
memset-filled_example = memset-filled image 4097 0x141 9 4100
