-- ===== src/Kernel/Lines.antt =====
-- An interrupt's line is masked, acknowledged and let through again.
use ece391os.Prelude.{
  ℕ, ◌<◌, ◌≡◌, inl, inr, refl, sym, ap, ◌∙◌, true, not, ◌==◌, ==_iff, Bool-cases,
}
use ece391os.Pic.{Pic, enable_irq, disable_irq, send_eoi}
use ece391os.Pic.Mask.{is_masked, IsSynced, Pic-IsSynced, irq_lines}
use ece391os.Kernel.Boot.{is_used, HasLines}

-- A line that was masked is let through again.
pub reopened_from :
    (p q : Pic) (irq : ℕ)
    → irq < 16
    → is_used irq ≡ true
    → HasLines p
    → IsSynced q 0
    → ((line : ℕ) → is_masked q line ≡ is_masked (disable_irq irq p) line)
    → HasLines (enable_irq irq q)
reopened_from p q irq h used (s, l) sq same = (
  (Pic-IsSynced q 0 irq h sq).2,
  λ line hl.
      let up = (irq_lines q irq line sq.bytes h hl).1 in
      let down = (irq_lines p irq line s.bytes h hl).0 in
      elim (Bool-cases (line == irq)) [
        | inl at ↦
            let e : line ≡ irq = (==_iff line irq).0 at in
            up ∙ rw at (sym (ap not (ap is_used e ∙ used)))
        | inr other ↦ up ∙ rw other (same line ∙ down ∙ rw other (l line hl))
      ],
)

pub acknowledged :
    (p : Pic) (irq : ℕ)
    → irq < 16
    → HasLines p
    → IsSynced (send_eoi irq (disable_irq irq p)) 0
      × ((line : ℕ)
          → is_masked (send_eoi irq (disable_irq irq p)) line ≡ is_masked (disable_irq irq p) line)
unfolding send_eoi
acknowledged p irq h (s, l) =
    ((Pic-IsSynced (disable_irq irq p) 0 irq h (Pic-IsSynced p 0 irq h s).3).4, λ line. refl)

pub reopened :
    (p : Pic) (irq : ℕ)
    → irq < 16
    → is_used irq ≡ true
    → HasLines p
    → HasLines (enable_irq irq (send_eoi irq (disable_irq irq p)))
reopened p irq h used lines =
    let (sq, same) = acknowledged p irq h lines in reopened_from p _ irq h used lines sq same
