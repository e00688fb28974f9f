-- ===== src/Paging/Kernel/Search.antt =====
-- `vm_alloc_vaddr` of kernel/k_memory.c finds the first run of pages that are not mapped.
use yomotsu.Base.{
  ℕ, zero, suc, ◌+◌, ◌-◌, ◌*◌, ◌/◌, ◌%◌, ◌≤◌, ◌<◌, ◌≡◌, ◌≢◌, inl, inr, true, false, arith, ltb,
  Bool-cases, ℕ_discrete, dec_lt, ltb→lt, sym, subst, u64_mod, add_u64, sub_u64,
}
use yomotsu.Frames.{page_size}
use yomotsu.Paging.{Entry, vm_is_mapped}
use yomotsu.Paging.Kernel.{Scan, scan, Found, after_scan, search, rounds, vm_alloc_vaddr}

module _ (root : ℕ) (tables : ℕ → ℕ → Entry) where
  -- A mapped page from `x` on, below `limit`.
  abbrev pub Busy : ℕ → ℕ → Type 0
  Busy x limit =
      (y : ℕ) × (x ≤ y) × (y < limit) × (y % page_size ≡ 0) × (vm_is_mapped root y tables ≡ true)

  -- No page from `x` on, below `limit`, is mapped.
  abbrev pub IsFree : ℕ → ℕ → Type 0
  IsFree x limit =
      (y : ℕ) → y % page_size ≡ 0 → x ≤ y → y < limit → vm_is_mapped root y tables ≡ false

  abbrev Scanned : ℕ → ℕ → Scan → Type 0
  Scanned q limit Scan.unfinished = ⊥
  Scanned q limit Scan.all_free = IsFree q limit
  Scanned q limit (Scan.mapped_at y) =
      (q ≤ y) × (y < limit) × (y % page_size ≡ 0) × (vm_is_mapped root y tables ≡ true)

  Scanned-later :
      (q limit : ℕ) (s : Scan)
      → vm_is_mapped root q tables ≡ false
      → Scanned (q + page_size) limit s
      → q % page_size ≡ 0
      → Scanned q limit s
  Scanned-later q limit Scan.unfinished dark s al = s
  Scanned-later q limit Scan.all_free dark s al =
      λ y a lo hi. elim (ℕ_discrete y q) [ yes e ↦ rw e dark | no ne ↦ s y a (omega arith) hi ]
  Scanned-later q limit (Scan.mapped_at y) dark s al = (omega arith, s.1, s.2, s.3)

  scan-Scanned :
      (n q limit : ℕ)
      → q % page_size ≡ 0
      → limit % page_size ≡ 0
      → limit < u64_mod
      → q ≤ limit
      → limit < q + n * page_size
      → Scanned q limit (scan n root q limit tables)
  unfolding scan
  scan-Scanned zero q limit al al' hi le fuel = omega arith
  scan-Scanned (suc n) q limit al al' hi le fuel = elim (Bool-cases (ltb q limit)) [
    | inr past ↦ rw past (λ y a lo hi'. absurd (ground arith))
    | inl below ↦
        let same : add_u64 q page_size ≡ q + page_size = ground arith in
        elim (Bool-cases (vm_is_mapped root q tables)) [
          | inl on ↦ rw (below, on) (omega arith, ground arith, al, on)
          | inr dark ↦
              rw (below, dark, same)
                (Scanned-later q limit _ dark
                  (scan-Scanned n (q + page_size) limit (omega arith) al' hi (ground arith)
                    (omega arith))
                  al)
        ]
  ]

  -- The search for `size` bytes from `p` on, up to `limit`, found the first run, or there is none.
  abbrev pub Searched : ℕ → ℕ → ℕ → Found → Type 0
  Searched p limit size Found.unfinished = ⊥
  Searched p limit size Found.null =
      (x : ℕ) → x % page_size ≡ 0 → p ≤ x → x < limit → Busy x (x + size)
  Searched p limit size (Found.at a) =
      (p ≤ a)
      × (a < limit)
      × (a % page_size ≡ 0)
      × IsFree a (a + size)
      × ((x : ℕ) → x % page_size ≡ 0 → p ≤ x → x < a → Busy x (x + size))

  Searched-later :
      (p q limit size : ℕ) (f : Found)
      → p ≤ q
      → ((x : ℕ) → x % page_size ≡ 0 → p ≤ x → x < q → Busy x (x + size))
      → Searched q limit size f
      → Searched p limit size f
  Searched-later p q limit size Found.unfinished le busy s = s
  Searched-later p q limit size Found.null le busy s =
      λ x a lo hi. elim (dec_lt x q) [ yes h ↦ busy x a lo h | no h ↦ s x a (omega arith) hi ]
  Searched-later p q limit size (Found.at y) le busy s = (
    omega arith,
    s.1,
    s.2,
    s.3,
    λ x a lo hi. elim (dec_lt x q) [ yes h ↦ busy x a lo h | no h ↦ s.4 x a (omega arith) hi ],
  )

  after_scan-Searched :
      (p limit size : ℕ) (f : ℕ → Found) (s : Scan)
      → p % page_size ≡ 0
      → p < limit
      → vm_is_mapped root p tables ≡ false
      → ((q : ℕ)
          → q % page_size ≡ 0
          → p + page_size ≤ q
          → q < p + size
          → Searched q limit size (f q))
      → Scanned p (p + size) s
      → Searched p limit size (after_scan p f s)
  unfolding after_scan
  after_scan-Searched p limit size f Scan.unfinished al lt dark rest s = s
  after_scan-Searched p limit size f Scan.all_free al lt dark rest s =
      (omega arith, lt, al, s, λ x a lo hi'. absurd (omega arith))
  after_scan-Searched p limit size f (Scan.mapped_at q) al lt dark rest s =
      let ne : q ≢ p = (λ e. let on = s.3 in grind (arith, e)) in
      Searched-later p q limit size (f q) s.0
        (λ x a lo hi. (q, omega arith, omega (arith, s.1), s.2, s.3))
        (rest q s.2 (omega (arith, s.0, s.2)) s.1)

  pub search-Searched :
      (n p limit size : ℕ)
      → p % page_size ≡ 0
      → size % page_size ≡ 0
      → 0 < size
      → limit + size < u64_mod
      → p < limit + size
      → 0 < n
      → limit + page_size ≤ p + n * page_size
      → Searched p limit size (search n root p limit size tables)
  unfolding search
  search-Searched zero p limit size al al' pos hi near some_fuel fuel = absurd (omega arith)
  search-Searched (suc n) p limit size al al' pos hi near some_fuel fuel =
      elim (Bool-cases (ltb p limit)) [
        | inr past ↦ rw past (λ x a lo hi'. absurd (ground arith))
        | inl below ↦
            let lt = ltb→lt p limit below in
            let same : add_u64 p page_size ≡ p + page_size = omega arith in
            let same' : add_u64 p size ≡ p + size = omega arith in
            elim (Bool-cases (vm_is_mapped root p tables)) [
              | inl on ↦
                  rw (below, on, same)
                    (Searched-later p (p + page_size) limit size _ (omega arith)
                      (λ x a lo hi'. (p, omega arith, omega arith, al, on))
                      (search-Searched n (p + page_size) limit size (omega arith) al' pos hi
                        (omega arith) (omega arith) (omega arith)))
              | inr dark ↦
                  rw (below, dark, same')
                    (after_scan-Searched p limit size _ _ al lt dark
                      (λ q a lo hi'.
                        search-Searched n q limit size a al' pos hi (omega arith) (omega arith)
                          (omega arith))
                      (scan-Scanned (size / page_size + 2) p (p + size) al (omega arith)
                        (omega arith) (omega arith) (omega arith)))
            ]
      ]

  same_limit :
      (n p size : ℕ) {limit limit' : ℕ}
      → limit ≡ limit'
      → Searched p limit size (search n root p limit size tables)
      → Searched p limit size (search n root p limit' size tables)
  same_limit n p size {limit = limit} {limit' = limit'} e s =
      subst (λ l. Searched p limit size (search n root p l size tables)) e s

  -- For a size in whole pages and a start at a page, `vm_alloc_vaddr` ends, and it returns the first
  -- address at a page, below the end less the size, from which on no page of the size is mapped. If
  -- it returns the null pointer there is none.
  pub vm_alloc_vaddr_lem :
      (begin end size : ℕ)
      → begin % page_size ≡ 0
      → size % page_size ≡ 0
      → 0 < size
      → size ≤ end
      → begin < end
      → end < u64_mod
      → Searched begin (end - size) size (vm_alloc_vaddr root begin end size tables)
  unfolding vm_alloc_vaddr
  vm_alloc_vaddr_lem begin end size al al' pos le lt hi =
      let same : sub_u64 end size ≡ end - size = omega arith in
      same_limit rounds begin size (sym same) (
        search-Searched rounds begin (end - size) size al al' pos (omega arith) (omega arith)
          (omega arith) (omega arith))
