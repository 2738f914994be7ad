-- ===== src/Memory/Words.antt =====
-- Words in memory: what a 32-bit load sees of a store.
use ece391os.Prelude.{ℕ, ◌+◌, ◌^◌, ◌≤◌, ◌<◌, ◌≡◌, ◌⊎◌, arith}
use ece391os.Memory.{Mem, store32, load32}

pub load32-store32 : (m : Mem) (a w : ℕ) → w < 2 ^ 32 → load32 (store32 m a w) a ≡ w
unfolding load32
load32-store32 m a w h = ground arith

pub load32-store32_ne :
    (m : Mem) (a b w : ℕ) → (a + 4 ≤ b) ⊎ (b + 4 ≤ a) → load32 (store32 m a w) b ≡ load32 m b
unfolding load32
load32-store32_ne m a b w h = ground arith

-- A load depends on its four bytes only.
pub load32_ext :
    (m m' : Mem) (a : ℕ)
    → m' a ≡ m a
    → m' (a + 1) ≡ m (a + 1)
    → m' (a + 2) ≡ m (a + 2)
    → m' (a + 3) ≡ m (a + 3)
    → load32 m' a ≡ load32 m a
unfolding load32
load32_ext m m' a e0 e1 e2 e3 = ground arith

pub load32-lt : (m : Mem) (a : ℕ) → ((b : ℕ) → m b < 256) → load32 m a < 2 ^ 32
unfolding load32
load32-lt m a h = omega (arith, h a, h (a + 1), h (a + 2), h (a + 3))
