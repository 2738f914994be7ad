-- ===== src/Idt/Gates.antt =====
-- Where each vector of the interrupt descriptor table leads.
use ece391os.Prelude.{
  ℕ, zero, suc, ◌+◌, ◌-◌, ◌*◌, ◌%◌, ◌^◌, ◌≤◌, ◌<◌, ◌≡◌, ◌≢◌, ◌⊎◌, inl, inr, refl, sym, ap, ◌∙◌,
  arith, false, if◌then◌else◌, ltb, ◌==◌, ==_iff, Bool-cases, ltb→lt, List, [], ◌∷◌,
}
use mathlib.Core.Path.{subst}
use native.Mathlib.Decide.{ℕ_discrete}
use ece391os.Idt.Vectors.{handler_in, default_handler, handler_of, handler_in-assignments}
use ece391os.Idt.{
  Handler, exception_func, test_interrupt, system_call_handler, IdtDesc, Idt, num_vec,
  num_exception, sys_call_index, kernel_cs, set_idt_entry, set_gate, set_exceptions, set_interrupts,
  assignments, set_entries, initialize_idt,
}

-- The address that a gate leads to.
abbrev pub target : IdtDesc → ℕ
target g = g.offset_31_16 * 2 ^ 16 + g.offset_15_00

-- A gate of 32 bits into the kernel, for calls from `dpl` on; an interrupt's gate, which has type
-- 14, also keeps further interrupts off, and an exception's, of type 15, does not.
pub record IsGate (dpl trap : ℕ) (g : IdtDesc) : Type 0 where
  pub present : g.present ≡ 1
  pub level : g.dpl ≡ dpl
  pub selector : g.seg_selector ≡ kernel_cs
  pub kind :
      g.reserved0 * 16 + g.size * 8 + g.reserved1 * 4 + g.reserved2 * 2 + g.reserved3
      ≡ (if trap == 1 then 15 else 14)
  pub zeros : g.reserved4 ≡ 0

-- What stands in a gate that leads to `h`.
abbrev Leads : ℕ → ℕ → IdtDesc → ℕ → Type 0
Leads dpl trap g h = IsGate dpl trap g × (target g ≡ h % 2 ^ 32)

set_gate-Leads :
    (idt : Idt) (i dpl trap h : ℕ)
    → (trap ≡ 0) ⊎ (trap ≡ 1)
    → Leads dpl trap (set_idt_entry i h (set_gate i dpl trap idt) i) h
set_gate-Leads idt i dpl trap h t = ground (arith, t)

set_exceptions_lem :
    (n i handler : ℕ) (idt : Idt) (v : ℕ)
    → (i ≤ v → v < i + n → Leads 0 1 (set_exceptions n i handler idt v) handler)
      × ((v < i) ⊎ (i + n ≤ v) → set_exceptions n i handler idt v ≡ idt v)
unfolding set_exceptions
set_exceptions_lem zero i handler idt v = (λ l h. absurd (omega arith), λ out. refl)
set_exceptions_lem (suc n) i handler idt v =
    let first = set_idt_entry i handler (set_gate i 0 1 idt) in
    let (inside, outside) = set_exceptions_lem n (i + 1) handler first v in
    (
      λ l h. elim (ℕ_discrete i v) [
        | yes p ↦
            subst (λ g. Leads 0 1 g handler) (sym (outside (inl (omega arith))))
              (subst (λ k. Leads 0 1 (first k) handler) p
                (set_gate-Leads idt i 0 1 handler (inr refl)))
        | no ne ↦ inside (omega arith) (omega arith)
      ],
      λ out. outside (omega (arith, out)) ∙ ground (arith, out),
    )

set_interrupts_lem :
    (n i handler : ℕ) (idt : Idt) (v : ℕ)
    → (i ≤ v
        → v < i + n
        → v ≢ sys_call_index
        → Leads 0 0 (set_interrupts n i handler idt v) handler)
      × ((v < i) ⊎ (i + n ≤ v) → set_interrupts n i handler idt v ≡ idt v)
unfolding set_interrupts
set_interrupts_lem zero i handler idt v = (λ l h ne. absurd (omega arith), λ out. refl)
set_interrupts_lem (suc n) i handler idt v =
    let set = set_idt_entry i handler (set_gate i 0 0 idt) in
    let first = if i == sys_call_index then idt else set in
    let (inside, outside) = set_interrupts_lem n (i + 1) handler first v in
    (
      λ l h other. elim (ℕ_discrete i v) [
        | yes p ↦
            let goes : (i == sys_call_index) ≡ false = ground (arith, other) in
            subst (λ g. Leads 0 0 g handler) (sym (outside (inl (omega arith))))
              (subst (λ k. Leads 0 0 (first k) handler) p
                (rw goes (set_gate-Leads idt i 0 0 handler (inl refl))))
        | no ne ↦ inside (omega arith) (omega arith) other
      ],
      λ out. outside (omega (arith, out)) ∙ ground (arith, out),
    )

set_entries-Leads :
    (l : List (ℕ × Handler)) (address : Handler → ℕ) (idt : Idt) (v dpl trap : ℕ) (h : Handler)
    → Leads dpl trap (idt v) (address h)
    → Leads dpl trap (set_entries l address idt v) (address (handler_in l v h))
unfolding set_entries handler_in
set_entries-Leads [] address idt v dpl trap h r = r
set_entries-Leads ((i, x) ∷ rest) address idt v dpl trap h r =
    set_entries-Leads rest address (set_idt_entry i (address x) idt) v dpl trap
      (if v == i then x else h)
      (elim (Bool-cases (v == i)) [
        | inl same ↦
            let (g, at) = subst (λ k. Leads dpl trap (idt k) (address h)) ((==_iff v i).0 same) r in
            rw same (
              record {
                present = g.present;
                level = g.level;
                selector = g.selector;
                kind = g.kind;
                zeros = g.zeros;
              },
              omega arith,
            )
        | inr other ↦ rw other r
      ])

-- Every vector of the table that `initialize_idt` builds leads, through a gate that is present and
-- enters the kernel, to the handler of its exception, its line of the interrupt controllers or the
-- system call, or to a default. Only the system call's gate is open to user programs, and
-- interrupts stay on in the exceptions' alone. The handlers must be at addresses of 32 bits.
pub initialize_idt-IsGate :
    (address : Handler → ℕ) (idt : Idt) (v : ℕ)
    → ((h : Handler) → address h < 2 ^ 32)
    → v < num_vec
    → let g = initialize_idt address idt v in
      (target g ≡ address (handler_of v))
      × IsGate (if v == sys_call_index then 3 else 0) (if ltb v num_exception then 1 else 0) g
unfolding initialize_idt default_handler
initialize_idt-IsGate address idt v small below =
    let (gate, at) =
      set_entries-Leads assignments address _ v (if v == sys_call_index then 3 else 0)
        (if ltb v num_exception then 1 else 0) (default_handler v) start in
    let fits = small (handler_in assignments v (default_handler v)) in
    (at ∙ omega (arith, fits) ∙ ap address (handler_in-assignments v below), gate)
  where
    idt1 : Idt
    idt1 = set_exceptions num_exception 0 (address exception_func) idt

    idt2 : Idt
    idt2 = set_interrupts (num_vec - num_exception) num_exception (address test_interrupt) idt1

    start :
        Leads
          (if v == sys_call_index then 3 else 0)
          (if ltb v num_exception then 1 else 0)
          (set_idt_entry sys_call_index
            (address system_call_handler)
            (set_gate sys_call_index 3 0 idt2)
            v)
          (address (default_handler v))
    start = elim (Bool-cases (v == sys_call_index)) [
      | inl call ↦
          let e : v ≡ sys_call_index = (==_iff v sys_call_index).0 call in
          rw e (set_gate-Leads idt2 sys_call_index 3 0 (address system_call_handler) (inl refl))
      | inr other ↦ elim (Bool-cases (ltb v num_exception)) [
        | inl low ↦
            let (inside, outside) =
              set_exceptions_lem num_exception 0 (address exception_func) idt v in
            let same : idt2 v ≡ idt1 v =
              (set_interrupts_lem (num_vec - num_exception) num_exception (address test_interrupt)
                  idt1 v).1
                (inl (ltb→lt v num_exception low)) in
            rw (other, low)
              (subst (λ g. Leads 0 1 g (address exception_func)) (sym same)
                (inside (omega arith) (ltb→lt v num_exception low)))
        | inr high ↦
            let h : num_exception ≤ v = ground arith in
            rw (other, high)
              ((set_interrupts_lem (num_vec - num_exception) num_exception (address test_interrupt)
                  idt1 v).0
                h (omega arith) (λ e. ground (arith, e)))
      ]
    ]
