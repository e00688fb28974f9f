-- ===== src/UserMemory/Check.antt =====
-- `user_memory_check_read` and `user_memory_check_write` of kernel/k_user_mem.c: which pages they
-- look at.
use yomotsu.Base.{
  ℕ, zero, suc, ◌+◌, ◌*◌, ◌/◌, ◌≤◌, ◌<◌, ◌≡◌, ◌≢◌, inl, inr, ap, true, false, arith, ltb, none,
  some, Bool-cases, Option-cases, ◌∙◌, sym, subst, u64_mod, add_u64,
}
use yomotsu.Frames.{page_size}
use yomotsu.Paging.{Attr, Entry, vm_check_attr}
use yomotsu.UserMemory.{
  Checked, check_pages, same_attr, user_memory_check_read, user_memory_check_write, read_asked,
  read_expected, write_asked, write_expected,
}

same_attr-eq : (a b : Attr) → same_attr a b ≡ true → a ≡ b
same_attr-eq a b e = ground arith

same_attr_refl : (a : Attr) → same_attr a a ≡ true
same_attr_refl a = ground arith

other_attr : {a b : Attr} → b ≡ a → same_attr a b ≡ false → ⊥
other_attr {a} {b} e other =
    let same = subst (λ x. same_attr a x ≡ true) (sym e) (same_attr_refl a) in ground arith

shift : (p k : ℕ) → p + page_size + k * page_size ≡ p + suc k * page_size
shift p k = omega arith

module _ (root : ℕ) (asked expected : Attr) (tables : ℕ → ℕ → Entry) where
  -- The page of `x` has the rights that are wanted.
  abbrev pub Grants : ℕ → Type 0
  Grants x = vm_check_attr root x asked tables ≡ some expected

  -- The page of `x` has a table, and other rights in its entry.
  abbrev pub Refuses : ℕ → Type 0
  Refuses x = (attr : Attr) × (vm_check_attr root x asked tables ≡ some attr) × (attr ≢ expected)

  -- The check that starts at `p` and stops at `end` looks at one address in each `page_size` bytes,
  -- up to the first one that decides it.
  abbrev pub Checks : ℕ → ℕ → Checked → Type 0
  Checks p end Checked.unfinished = ⊥
  Checks p end Checked.faulted =
      (k : ℕ) × (p + k * page_size < end)
      × (vm_check_attr root (p + k * page_size) asked tables ≡ none)
      × ((j : ℕ) → j < k → Grants (p + j * page_size))
  Checks p end (Checked.verdict true) =
      (k : ℕ) → p + k * page_size < end → Grants (p + k * page_size)
  Checks p end (Checked.verdict false) =
      (k : ℕ) × (p + k * page_size < end)
      × Refuses (p + k * page_size)
      × ((j : ℕ) → j < k → Grants (p + j * page_size))

  Grants-later :
      (p end : ℕ)
      → Grants p
      → ((k : ℕ) → p + page_size + k * page_size < end → Grants (p + page_size + k * page_size))
      → (k : ℕ) → p + k * page_size < end
      → Grants (p + k * page_size)
  Grants-later p end g c zero lt =
      let here : p + 0 * page_size ≡ p = omega arith in subst Grants (sym here) g
  Grants-later p end g c (suc k) lt = subst Grants (shift p k) (c k (omega arith))

  Grants-before :
      (p k : ℕ)
      → Grants p
      → ((j : ℕ) → j < k → Grants (p + page_size + j * page_size))
      → (j : ℕ) → j < suc k
      → Grants (p + j * page_size)
  Grants-before p k g c zero lt =
      let here : p + 0 * page_size ≡ p = omega arith in subst Grants (sym here) g
  Grants-before p k g c (suc j) lt = subst Grants (shift p j) (c j (omega arith))

  Checks-later :
      (p end : ℕ) (c : Checked) → Grants p → Checks (p + page_size) end c → Checks p end c
  Checks-later p end Checked.unfinished g c = c
  Checks-later p end Checked.faulted g (k, lt, e, c) = (
    suc k,
    omega arith,
    subst (λ x. vm_check_attr root x asked tables ≡ none) (shift p k) e,
    Grants-before p k g c,
  )
  Checks-later p end (Checked.verdict true) g c = Grants-later p end g c
  Checks-later p end (Checked.verdict false) g (k, lt, e, c) =
      (suc k, omega arith, subst Refuses (shift p k) e, Grants-before p k g c)

  check_pages-Checks :
      (n p end : ℕ)
      → end + page_size ≤ u64_mod
      → p < end + page_size
      → end + page_size ≤ p + n * page_size
      → Checks p end (check_pages n root p end asked expected tables)
  unfolding check_pages
  check_pages-Checks zero p end hi near fuel = omega arith
  check_pages-Checks (suc n) p end hi near fuel = elim (Bool-cases (ltb p end)) [
    | inr past ↦ rw past (λ k lt. absurd (ground arith))
    | inl below ↦
        let here : p + 0 * page_size ≡ p = omega arith in
        let lt : p + 0 * page_size < end = ground arith in
        elim (Option-cases (vm_check_attr root p asked tables)) [
          | inl e ↦
              rw (below, e)
                (
                  0,
                  lt,
                  subst (λ x. vm_check_attr root x asked tables ≡ none) (sym here) e,
                  λ j l. absurd (omega arith),
                )
          | inr (attr, e) ↦ elim (Bool-cases (same_attr attr expected)) [
            | inr other ↦
                rw (below, e, other)
                  (
                    0,
                    lt,
                    subst Refuses (sym here) (attr, e, λ same. other_attr (sym same) other),
                    λ j l. absurd (omega arith),
                  )
            | inl same ↦
                let next : add_u64 p page_size ≡ p + page_size = omega arith in
                rw (below, e, same, next)
                  (Checks-later p end _ (e ∙ ap some (same_attr-eq attr expected same))
                    (check_pages-Checks n (p + page_size) end hi (ground arith) (omega arith)))
          ]
        ]
  ]

pub check_read-Checks :
    (root vma size : ℕ) (tables : ℕ → ℕ → Entry)
    → vma + size + page_size ≤ u64_mod
    → Checks root read_asked read_expected tables vma
        (vma + size)
        (user_memory_check_read root vma size tables)
unfolding user_memory_check_read
check_read-Checks root vma size tables hi =
    let same : add_u64 vma size ≡ vma + size = omega arith in
    rw same (
      check_pages-Checks root read_asked read_expected tables (size / page_size + 2) vma
        (vma + size) hi (omega arith) (omega arith))

-- `user_memory_check_write` does the same for pages that are present, writable and a user's.
pub check_write-Checks :
    (root vma size : ℕ) (tables : ℕ → ℕ → Entry)
    → vma + size + page_size ≤ u64_mod
    → Checks root write_asked write_expected tables vma
        (vma + size)
        (user_memory_check_write root vma size tables)
unfolding user_memory_check_write
check_write-Checks root vma size tables hi =
    let same : add_u64 vma size ≡ vma + size = omega arith in
    rw same (
      check_pages-Checks root write_asked write_expected tables (size / page_size + 2) vma
        (vma + size) hi (omega arith) (omega arith))
