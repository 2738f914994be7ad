-- ===== src/FileSystem/Moved.antt =====
-- A name that is copied to another place is still the name of the same entries of
-- student-distrib/file_system.c.
use ece391os.Prelude.{ℕ, zero, suc, ◌+◌, ◌≤◌, ◌<◌, ◌≡◌, refl, sym, ap, ◌∙◌, arith}
use ece391os.Memory.{Mem}
use ece391os.Text.{strncmp}
use ece391os.FileSystem.{name_length}
use ece391os.FileSystem.Lookup.{IsNamed}

-- The string of `n` bytes at `s1` and its NUL stand at `s2` of `m'`.
abbrev pub IsMoved : Mem → Mem → ℕ → ℕ → ℕ → Type 0
IsMoved m m' s1 s2 n = (i : ℕ) → i ≤ n → m' (s2 + i) ≡ m (s1 + i)

pub strncmp_moved :
    (n : ℕ) (m m' : Mem) (a a' b : ℕ)
    → ((i : ℕ) → i < n → m' (a' + i) ≡ m (a + i))
    → ((i : ℕ) → i < n → m' (b + i) ≡ m (b + i))
    → strncmp m' a' b n ≡ strncmp m a b n
unfolding strncmp
strncmp_moved zero m m' a a' b moved same = refl
strncmp_moved (suc n) m m' a a' b moved same =
    let ea : m' a' ≡ m a = ap m' (omega arith) ∙ moved 0 (omega arith) ∙ ap m (omega arith) in
    let eb : m' b ≡ m b = ap m' (omega arith) ∙ same 0 (omega arith) ∙ ap m (omega arith) in
    let rest =
      strncmp_moved n m m' (a + 1) (a' + 1) (b + 1)
        (λ i lt. ap m' (omega arith) ∙ moved (suc i) (omega arith) ∙ ap m (omega arith))
        (λ i lt. ap m' (omega arith) ∙ same (suc i) (omega arith) ∙ ap m (omega arith)) in
    rw (strncmp, ea, eb, rest) refl

pub IsNamed-moved :
    (m m' : Mem) (d s1 s2 n : ℕ)
    → n ≤ name_length
    → ((i : ℕ) → i < 40 → m' (d + i) ≡ m (d + i))
    → IsMoved m m' s1 s2 n
    → (IsNamed m d s1 n → IsNamed m' d s2 n) × (IsNamed m' d s2 n → IsNamed m d s1 n)
IsNamed-moved m m' d s1 s2 n short same moved = (
  λ h. record {
    same = λ i lt. same i (omega arith) ∙ h.same i lt ∙ sym (moved i (omega arith));
    ends = λ lt. same n (omega arith) ∙ h.ends lt;
  },
  λ h. record {
    same = λ i lt. sym (same i (omega arith)) ∙ h.same i lt ∙ moved i (omega arith);
    ends = λ lt. sym (same n (omega arith)) ∙ h.ends lt;
  },
)
