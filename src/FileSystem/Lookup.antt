-- ===== src/FileSystem/Lookup.antt =====
-- `find_dentry` of student-distrib/file_system.c finds the first entry of a name.
use ece391os.Prelude.{
  ℕ, zero, suc, ◌+◌, ◌≤◌, ◌<◌, ◌≡◌, ◌↔◌, ◌⊎◌, inl, inr, refl, sym, ap, ◌∙◌, arith, true, false,
  some, Bool-cases,
}
use mathlib.Core.Bool.{false≢true}
use ece391os.FileSystem.{
  FileSystem, num_dentries, dentry_address, name_length, entry_matches, find_dentry_from,
  find_dentry,
}
use ece391os.Memory.{Mem}
use native.Mathlib.Decide.{dec_lt, ℕ_discrete}
use ece391os.Text.Length.{IsString, strlen_of_string}
use ece391os.Text.Compare.{IsBytes, Agree, strncmp-Agree}

-- The name field at `d` holds exactly the string of `len` bytes at `s`; a name of 32 bytes fills
-- the field and has no NUL.
pub record IsNamed (m : Mem) (d s len : ℕ) : Type 0 where
  pub same : (i : ℕ) → i < len → m (d + i) ≡ m (s + i)
  pub ends : len < name_length → m (d + len) ≡ 0

-- What a search for the name at `s` from entry `i` over `rounds` entries should return: the address
-- of the first entry of that name, or NULL if there is none.
abbrev pub Found : Mem → FileSystem → ℕ → ℕ → ℕ → ℕ → ℕ → Type 0
Found m fs s len i rounds r =
    ((k : ℕ) × (i ≤ k)
      × (k < i + rounds)
      × (r ≡ dentry_address fs k)
      × IsNamed m (dentry_address fs k) s len
      × ((j : ℕ) → i ≤ j → j < k → ¬ IsNamed m (dentry_address fs j) s len))
    ⊎ ((r ≡ 0) × ((j : ℕ) → i ≤ j → j < i + rounds → ¬ IsNamed m (dentry_address fs j) s len))

module _ (m : Mem) (b : IsBytes m) (s len : ℕ) (str : IsString m s len)
    (short : len ≤ name_length) where
  Agree-upto :
      (d n : ℕ) → Agree m d s n → (k i : ℕ) → i < k → i < n → i ≤ len → m (d + i) ≡ m (s + i)
  Agree-upto d n h zero i lt ltn le = absurd (omega arith)
  Agree-upto d n h (suc k) i lt ltn le = h i ltn λ j ltj z.
      str.inside j (omega arith)
        (sym (Agree-upto d n h k j (omega arith) (omega arith) (omega arith)) ∙ z)

  Agree-IsNamed : (d : ℕ) → Agree m d s name_length → IsNamed m d s len
  Agree-IsNamed d h = record {
    same = λ i lt. Agree-upto d name_length h (suc i) i (omega arith) (omega arith) (omega arith);
    ends = λ lt.
        Agree-upto d name_length h (suc len) len (omega arith) (omega arith) (omega arith)
        ∙ str.ends;
  }

  IsNamed-Agree : (d n : ℕ) → n ≤ name_length → IsNamed m d s len → Agree m d s n
  IsNamed-Agree d n le h i lt before = elim (dec_lt i len) [
    | yes p ↦ h.same i p
    | no p ↦ elim (ℕ_discrete i len) [
      | yes e ↦ rw e (h.ends (omega arith) ∙ sym str.ends)
      | no ne ↦ absurd (before len (omega arith) (h.ends (omega arith)))
    ]
  ]

  pub entry_matches_iff : (d : ℕ) → (entry_matches m d s len ≡ true) ↔ IsNamed m d s len
  unfolding entry_matches
  entry_matches_iff d = (
    λ h. Agree-IsNamed d ((strncmp-Agree name_length m d s b).0 (ground arith)),
    λ h.
        let e1 = (strncmp-Agree len m d s b).1 (IsNamed-Agree d len short h) in
        let e2 =
          (strncmp-Agree name_length m d s b).1 (IsNamed-Agree d name_length (omega arith) h) in
        rw (e1, e2),
  )

  find_dentry_from_lem :
      (rounds i : ℕ) (fs : FileSystem)
      → (r : ℕ) × (find_dentry_from rounds m fs s i ≡ some r) × Found m fs s len i rounds r
  unfolding find_dentry_from
  find_dentry_from_lem zero i fs = (0, refl, inr (refl, λ j le lt. absurd (omega arith)))
  find_dentry_from_lem (suc rounds) i fs =
      elim (Bool-cases (entry_matches m (dentry_address fs i) s len)) [
        | inl hit ↦ (
          dentry_address fs i,
          ground (arith, strlen_of_string m s len str),
          inl (
            i,
            omega arith,
            omega arith,
            refl,
            (entry_matches_iff _).0 hit,
            λ j le lt. absurd (omega arith),
          ),
        )
        | inr miss ↦
            let (r, run, found) = find_dentry_from_lem rounds (i + 1) fs in
            (r, ground (arith, strlen_of_string m s len str, run), extend miss found)
      ]
    where
      skip :
          entry_matches m (dentry_address fs i) s len ≡ false
          → (hi j : ℕ) → i ≤ j
          → j < hi
          → ((j : ℕ) → i + 1 ≤ j → j < hi → ¬ IsNamed m (dentry_address fs j) s len)
          → ¬ IsNamed m (dentry_address fs j) s len
      skip miss hi j le lt later named = elim (ℕ_discrete i j) [
        | yes e ↦
            false≢true (sym miss ∙ (entry_matches_iff _).1 (rw (ap (dentry_address fs) e) named))
        | no ne ↦ later j (omega arith) lt named
      ]

      extend :
          entry_matches m (dentry_address fs i) s len ≡ false
          → {r : ℕ} → Found m fs s len (i + 1) rounds r
          → Found m fs s len i (suc rounds) r
      extend miss (inl (k, le, lt, e, named, first)) =
          inl (k, omega arith, omega arith, e, named, λ j le' lt'. skip miss k j le' lt' first)
      extend miss (inr (e, none_there)) = inr (
        e,
        λ j le lt.
            skip miss (i + suc rounds) j le lt (λ j' le' lt'. none_there j' le' (omega arith)),
      )

  -- `find_dentry` returns, for a name of at most 32 bytes, the address of the first directory entry
  -- whose name field holds exactly that name, and NULL when no entry does.
  pub find_dentry-Found :
      (fs : FileSystem)
      → (r : ℕ) × (find_dentry m fs s ≡ some r) × Found m fs s len 0 (num_dentries m fs) r
  unfolding find_dentry
  find_dentry-Found fs = find_dentry_from_lem (num_dentries m fs) 0 fs
