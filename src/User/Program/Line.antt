-- ===== src/User/Program/Line.antt =====
-- What a program finds in its buffer when a line is there.
use ece391os.Prelude.{
  ℕ, zero, suc, ◌+◌, ◌-◌, ◌^◌, ◌≤◌, ◌<◌, ◌≡◌, ◌≢◌, refl, ap, ◌∙◌, arith, if◌then◌else◌, signed_lt,
  List, [], ◌∷◌,
}
use ece391os.Memory.{Mem, store}
use ece391os.Keyboard.{buf_length, cur_shell, buffer_bytes, terminal_read_finish}
use ece391os.Process.{Sys}
use ece391os.Text.Compare.{IsBytes}
use ece391os.Text.Bytes.{store-IsBytes}
use ece391os.User.Program.{store_list, line_taken}

store_list_before :
    (bytes : List ℕ) (m : Mem) (a from : ℕ) → a < from → store_list m from bytes a ≡ m a
unfolding store_list
store_list_before [] m a from lt = refl
store_list_before (b ∷ bytes) m a from lt =
    store_list_before bytes (store m from b) a (from + 1) (omega arith) ∙ ground arith

-- The first byte of a line that is not empty is in the buffer, and the result counts the bytes.
pub record HasTyped (s : Sys) (n : ℕ) : Type 0 where
  pub some_byte : 0 < (cur_shell s.machine.console).buf_index
  pub inside : (cur_shell s.machine.console).buf_index ≤ buf_length
  pub room : (0 < n) × (n < 2 ^ 31)

count_lem :
    (n index : ℕ)
    → 0 < index
    → index ≤ buf_length
    → 0 < n
    → n < 2 ^ 31
    → let r = if signed_lt n index then n else index in (k : ℕ) × (r ≡ suc k) × (r ≤ buf_length)
count_lem n index some_byte inside pos small =
    let r = if signed_lt n index then n else index in
    let positive : 0 < r = ground arith in
    let below : r ≤ buf_length = ground arith in (r - 1, omega (arith, positive), below)

store_list_at :
    (n j : ℕ) (m : Mem) (a i : ℕ) (f : ℕ → ℕ)
    → i < n
    → store_list m a (buffer_bytes n j f) (a + i) ≡ f (j + i)
unfolding store_list buffer_bytes
store_list_at zero j m a i f lt = absurd (omega arith)
store_list_at (suc n) j m a zero f lt =
    ap (store_list (store m a (f j)) (a + 1) (buffer_bytes n (j + 1) f)) (omega arith)
    ∙ store_list_before (buffer_bytes n (j + 1) f) (store m a (f j)) a (a + 1) (omega arith)
    ∙ ground arith
store_list_at (suc n) j m a (suc i) f lt =
    ap (store_list (store m a (f j)) (a + 1) (buffer_bytes n (j + 1) f)) (omega arith)
    ∙ store_list_at n (j + 1) (store m a (f j)) (a + 1) i f (omega arith)
    ∙ ap f (omega arith)

first_byte :
    (m : Mem) (buf r k : ℕ) (f : ℕ → ℕ)
    → r ≡ suc k
    → store_list m buf (buffer_bytes r 0 f) buf ≡ f 0
first_byte m buf r k f e =
    ap (store_list m buf (buffer_bytes r 0 f)) (omega arith)
    ∙ store_list_at r 0 m buf 0 f (omega (arith, e))
    ∙ ap f (omega arith)

store_list-IsBytes :
    (n j : ℕ) (m : Mem) (a : ℕ) (f : ℕ → ℕ)
    → IsBytes m
    → ((i : ℕ) → f i < 256)
    → IsBytes (store_list m a (buffer_bytes n j f))
unfolding store_list buffer_bytes
store_list-IsBytes zero j m a f b h = b
store_list-IsBytes (suc n) j m a f b h =
    store_list-IsBytes n (j + 1) (store m a (f j)) (a + 1) f (store-IsBytes m a (f j) b (h j)) h

pub line_taken_first :
    (buf n : ℕ) (s : Sys)
    → HasTyped s n
    → let (r, s1) = line_taken buf n s in
      (0 < r) × (r ≤ buf_length) × (s1.mem buf ≡ (cur_shell s.machine.console).kb_buf 0)
unfolding line_taken terminal_read_finish
line_taken_first buf n s h =
    let (k, e, below) =
      count_lem n (cur_shell s.machine.console).buf_index h.some_byte h.inside h.room.0 h.room.1 in
    (omega (arith, e), below, first_byte s.mem buf _ k (cur_shell s.machine.console).kb_buf e)

-- The line that is there has `len` bytes before its line feed, none of them NUL.
pub record IsTyped (s : Sys) (len : ℕ) : Type 0 where
  pub index : (cur_shell s.machine.console).buf_index ≡ len + 1
  pub inside : len < buf_length
  pub ends : (cur_shell s.machine.console).kb_buf len ≡ 10
  pub text : (i : ℕ) → i < len → (cur_shell s.machine.console).kb_buf i ≢ 0
  pub keys : (i : ℕ) → (cur_shell s.machine.console).kb_buf i < 256
  pub bytes : IsBytes s.mem

-- The whole line and its line feed are in a buffer that has room for it.
pub line_taken-all :
    (buf n len : ℕ) (s : Sys)
    → IsTyped s len
    → buf_length ≤ n
    → n < 2 ^ 31
    → let (r, s1) = line_taken buf n s in
      (r ≡ len + 1)
      × ((i : ℕ) → i < len + 1 → s1.mem (buf + i) ≡ (cur_shell s.machine.console).kb_buf i)
      × IsBytes s1.mem
unfolding line_taken terminal_read_finish
line_taken-all buf n len s h room small =
    let row = cur_shell s.machine.console in
    let count : (if signed_lt n row.buf_index then n else row.buf_index) ≡ len + 1 =
      ground (arith, h.index, h.inside) in
    (
      count,
      λ i lt.
          store_list_at _ 0 s.mem buf i row.kb_buf (omega (arith, count, lt))
          ∙ ap row.kb_buf (omega arith),
      store_list-IsBytes _ 0 s.mem buf row.kb_buf h.bytes h.keys,
    )
