-- ===== src/Keyboard/Pages.antt =====
-- The keys of student-distrib/kb.c keep the page tables.
use ece391os.Prelude.{
  ℕ, zero, suc, ◌+◌, ◌-◌, ◌≡◌, inl, inr, refl, ◌∙◌, Bool, true, false, ◌&&◌, ◌||◌, not,
  if◌then◌else◌, ◌==◌, Bool-cases, signed_lt,
}
use ece391os.Memory.{Mem}
use ece391os.Paging.{Paging}
use ece391os.Console.{
  Console, shell_num, scroll_up, new_line, move_cursor, back_space, put_cell, wrap_line, putc,
  putc_from, clear, reset_screen, change_shell,
}
use ece391os.Keyboard.{
  kbdus, cur_shell, redraw, print_scancode, erase, end_line, recent_release_exec,
  after_release_exec, shifted_code, is_function_key, recent_release,
}

if-pages :
    (b : Bool) (x y : Console) (p : Paging)
    → x.paging ≡ p
    → y.paging ≡ p
    → (if b then x else y).paging ≡ p
if-pages true x y p hx hy = hx
if-pages false x y p hx hy = hy

new_line-pages : (c : Console) → (new_line c).paging ≡ c.paging
unfolding new_line move_cursor scroll_up
new_line-pages c = if-pages _ _ _ c.paging refl refl

wrap_line-pages : (c : Console) → (wrap_line c).paging ≡ c.paging
unfolding wrap_line
wrap_line-pages c = if-pages _ _ _ c.paging (new_line-pages c) refl

put_cell-pages : (ch : ℕ) (c : Console) → (put_cell ch c).paging ≡ c.paging
unfolding put_cell
put_cell-pages ch c = refl

pub putc-pages : (ch : ℕ) (c : Console) → (putc ch c).paging ≡ c.paging
unfolding putc move_cursor
putc-pages ch c =
    if-pages _ _ _ c.paging (new_line-pages c)
      (wrap_line-pages (put_cell ch c) ∙ put_cell-pages ch c)

pub putc_from-pages :
    (n : ℕ) (view : Mem) (a : ℕ) (c : Console) → (putc_from n view a c).paging ≡ c.paging
unfolding putc_from
putc_from-pages zero view a c = refl
putc_from-pages (suc n) view a c =
    putc_from-pages n view (a + 1) (putc (view a) c) ∙ putc-pages (view a) c

print_scancode-pages :
    (scan_code : ℕ) (c : Console) → (print_scancode scan_code c).paging ≡ c.paging
unfolding print_scancode
print_scancode-pages scan_code c = if-pages _ _ _ c.paging refl (putc-pages (kbdus scan_code) c)

erase-pages : (c : Console) → (erase c).paging ≡ c.paging
unfolding erase back_space move_cursor
erase-pages c = if-pages _ _ _ c.paging refl refl

redraw-pages : (c : Console) → (redraw c).paging ≡ c.paging
unfolding redraw reset_screen clear move_cursor
redraw-pages c = putc_from-pages _ _ 0 (reset_screen (clear c))

change_shell-pages : (next : ℕ) (c : Console) → (change_shell next c).1.paging ≡ c.paging
unfolding change_shell move_cursor
change_shell-pages next c = elim (Bool-cases (signed_lt next 0 || not (signed_lt next shell_num))) [
  | inl bad ↦ rw bad refl
  | inr good ↦ rw good refl
]

-- The page tables of a console, as a record that the branches of a handler can be checked against.
record Pages (p : Paging) (c : Console) : Type 0 where
  same : c.paging ≡ p

if-Pages :
    {p : Paging} (b : Bool) (x y : Console) → Pages p x → Pages p y → Pages p (if b then x else y)
if-Pages true x y hx hy = hx
if-Pages false x y hx hy = hy

recent_release_exec-Pages :
    (scan_code : ℕ) (c : Console) → Pages c.paging (recent_release_exec scan_code c)
unfolding recent_release_exec end_line
recent_release_exec-Pages scan_code c =
    let s = cur_shell c in
    if-Pages (scan_code == 29) _ _ (record { same = refl })
      (if-Pages ((s.alt_pressed == 1) && is_function_key scan_code) _ _
        (record { same = change_shell-pages (scan_code - 59) c })
        (if-Pages ((scan_code == 38) && (s.ctrl_pressed == 1)) _ _
          (record { same = redraw-pages c })
          (if-Pages (scan_code == 14) _ _ (record { same = erase-pages c })
            (if-Pages (scan_code == 56) _ _ (record { same = refl })
              (if-Pages (scan_code == 28) _ _ (record { same = print_scancode-pages scan_code c })
                (if-Pages ((scan_code == 42) || (scan_code == 54)) _ _ (record { same = refl })
                  (if-Pages (scan_code == 58) _ _ (record { same = refl })
                    (record { same = print_scancode-pages (shifted_code s scan_code) c }))))))))

after_release_exec-Pages :
    (scan_code : ℕ) (c : Console) → Pages c.paging (after_release_exec scan_code c)
unfolding after_release_exec
after_release_exec-Pages scan_code c =
    if-Pages ((scan_code == 42 + recent_release) || (scan_code == 54 + recent_release)) _ _
      (record { same = refl })
      (if-Pages (scan_code == 29 + recent_release) _ _ (record { same = refl })
        (if-Pages (scan_code == 184) _ _ (record { same = refl }) (record { same = refl })))

pub recent_release_exec-pages :
    (scan_code : ℕ) (c : Console) → (recent_release_exec scan_code c).paging ≡ c.paging
recent_release_exec-pages scan_code c = (recent_release_exec-Pages scan_code c).same

pub after_release_exec-pages :
    (scan_code : ℕ) (c : Console) → (after_release_exec scan_code c).paging ≡ c.paging
after_release_exec-pages scan_code c = (after_release_exec-Pages scan_code c).same
