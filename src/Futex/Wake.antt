-- ===== src/Futex/Wake.antt =====
-- Which processes a wake of kernel/k_futex.c wakes.
use yomotsu.Base.{
  ℕ, zero, suc, ◌+◌, ◌<◌, ◌≡◌, inl, inr, sym, zero-add, update_same, refl, ap, ◌∙◌, true, false,
  ◌||◌, List, [], ◌∷◌, arith, ◌==◌, if◌then◌else◌, update, length, sub_u64, u64_mod, Bool-cases,
}
use yomotsu.Futex.{Entry, Kernel, Woken, keep, empty_bucket, make_ready, wake_loop, do_futex_wake}

-- The processes of the first `n` entries for `addr`, in order, and the other entries.
abbrev pub chosen : ℕ → ℕ → List Entry → List ℕ
chosen n addr [] = []
chosen zero addr (e ∷ rest) = []
chosen (suc n) addr (e ∷ rest) =
    if e.addr == addr then e.proc ∷ chosen n addr rest else chosen (suc n) addr rest

abbrev pub passed_over : ℕ → ℕ → List Entry → List Entry
passed_over n addr [] = []
passed_over zero addr (e ∷ rest) = e ∷ rest
passed_over (suc n) addr (e ∷ rest) =
    if e.addr == addr then passed_over n addr rest else e ∷ passed_over (suc n) addr rest

abbrev pub make_all_ready : List ℕ → Kernel → Kernel
make_all_ready [] k = k
make_all_ready (p ∷ ps) k = make_all_ready ps (make_ready p k)

pub passed_over-zero : (addr : ℕ) (es : List Entry) → passed_over 0 addr es ≡ es
passed_over-zero addr [] = refl
passed_over-zero addr (e ∷ es) = refl

pub chosen-zero : (addr : ℕ) (es : List Entry) → chosen 0 addr es ≡ []
chosen-zero addr [] = refl
chosen-zero addr (e ∷ es) = refl

length-zero : (es : List Entry) → length es ≡ 0 → es ≡ []
length-zero [] h = refl
length-zero (e ∷ es) h = absurd (omega arith)

module _ (addr count waiters : ℕ) (e : Entry) (rest : List Entry) (k : Kernel) where
  wake_loop-skip :
      (e.addr == addr) ≡ false
      → wake_loop addr count waiters (e ∷ rest) k ≡ keep e (wake_loop addr count waiters rest k)
  unfolding wake_loop
  wake_loop-skip h = rw (h, wake_loop) refl

  wake_loop-last :
      (e.addr == addr) ≡ true
      → (sub_u64 waiters 1 == 0) || (sub_u64 count 1 == 0) ≡ true
      → wake_loop addr count waiters (e ∷ rest) k
        ≡ record { entries = rest; waiters = sub_u64 waiters 1; kernel = make_ready e.proc k }
  unfolding wake_loop
  wake_loop-last h l = rw (h, l, wake_loop) refl

  wake_loop-more :
      (e.addr == addr) ≡ true
      → (sub_u64 waiters 1 == 0) || (sub_u64 count 1 == 0) ≡ false
      → wake_loop addr count waiters (e ∷ rest) k
        ≡ wake_loop addr (sub_u64 count 1) (sub_u64 waiters 1) rest (make_ready e.proc k)
  unfolding wake_loop
  wake_loop-more h l = rw (h, l, wake_loop) refl

-- What the loop has to leave.
abbrev woken : ℕ → ℕ → ℕ → List Entry → Kernel → Woken
woken addr n others es k = record {
  entries = passed_over n addr es;
  waiters = others + length (passed_over n addr es);
  kernel = make_all_ready (chosen n addr es) k;
}

woken-skip :
    (addr n others : ℕ) (x : Entry) (es : List Entry) (k : Kernel)
    → (x.addr == addr) ≡ false
    → keep x (woken addr (suc n) (others + 1) es k) ≡ woken addr (suc n) others (x ∷ es) k
unfolding keep
woken-skip addr n others x es k skip = rw skip (ground arith)

woken-last :
    (addr n others w : ℕ) (x : Entry) (es : List Entry) (k : Kernel)
    → (x.addr == addr) ≡ true
    → w ≡ others + length (x ∷ es)
    → w < u64_mod
    → suc n < u64_mod
    → (sub_u64 w 1 == 0) || (sub_u64 (suc n) 1 == 0) ≡ true
    → record { entries = es; waiters = sub_u64 w 1; kernel = make_ready x.proc k }
      ≡ woken addr (suc n) others (x ∷ es) k
woken-last addr zero others w x es k hit e hw hn l =
    ground (arith, passed_over-zero addr es, chosen-zero addr es)
woken-last addr (suc n) others w x [] k hit e hw hn l = ground arith
woken-last addr (suc n) others w x (y ∷ ys) k hit e hw hn l = absurd (ground arith)

-- `others` counts the entries that the loop has passed over.
wake_loop_lem :
    (addr n others w : ℕ) (es : List Entry) (k : Kernel)
    → suc n < u64_mod
    → w ≡ others + length es
    → w < u64_mod
    → wake_loop addr (suc n) w es k ≡ woken addr (suc n) others es k
wake_loop_lem addr n others w [] k hn e hw = unfold wake_loop in rw e refl
wake_loop_lem addr n others w (x ∷ es) k hn e hw = elim (Bool-cases (x.addr == addr)) [
  | inr skip ↦
      wake_loop-skip addr (suc n) w x es k skip
      ∙ ap (keep x) (wake_loop_lem addr n (others + 1) w es k hn (omega arith) hw)
      ∙ woken-skip addr n others x es k skip
  | inl hit ↦ elim (Bool-cases ((sub_u64 w 1 == 0) || (sub_u64 (suc n) 1 == 0))) [
    | inl last ↦
        wake_loop-last addr (suc n) w x es k hit last
        ∙ woken-last addr n others w x es k hit e hw hn last
    | inr go ↦
        wake_loop-more addr (suc n) w x es k hit go
        ∙ further n hn go
            (λ n' hn'.
              wake_loop_lem addr n' others (sub_u64 w 1) es (make_ready x.proc k) hn' (omega arith)
                (omega arith))
            hit
  ]
]
  where
    further :
        (n : ℕ)
        → suc n < u64_mod
        → (sub_u64 w 1 == 0) || (sub_u64 (suc n) 1 == 0) ≡ false
        → ((n' : ℕ)
            → suc n' < u64_mod
            → wake_loop addr (suc n') (sub_u64 w 1) es (make_ready x.proc k)
              ≡ woken addr (suc n') others es (make_ready x.proc k))
        → (x.addr == addr) ≡ true
        → wake_loop addr (sub_u64 (suc n) 1) (sub_u64 w 1) es (make_ready x.proc k)
          ≡ woken addr (suc n) others (x ∷ es) k
    further zero h g ih hit = absurd (ground arith)
    further (suc n') h g ih hit =
        let one_less : sub_u64 (suc (suc n')) 1 ≡ suc n' = omega arith in
        rw (one_less, hit) (ih n' (omega arith))

pub futex_hash-make_all_ready :
    (ps : List ℕ) (k : Kernel) → (make_all_ready ps k).futex_hash ≡ k.futex_hash
unfolding make_ready
futex_hash-make_all_ready [] k = refl
futex_hash-make_all_ready (p ∷ ps) k = futex_hash-make_all_ready ps (make_ready p k)

-- In a bucket whose count of waiters is the number of its entries, a wake with a count of at least
-- 1 makes ready the processes of the first `count` entries for the address, in the order of the
-- list, and no other. It takes just these entries from the bucket, leaves the others in their
-- order and the count of waiters at their number, and leaves the other buckets alone.
pub do_futex_wake_lem :
    (key addr n : ℕ) (k : Kernel)
    → suc n < u64_mod
    → (k.futex_hash key).waiters ≡ length (k.futex_hash key).entries
    → (k.futex_hash key).waiters < u64_mod
    → let entries = (k.futex_hash key).entries in
      let left = passed_over (suc n) addr entries in
      let k' = make_all_ready (chosen (suc n) addr entries) k in
      do_futex_wake key addr (suc n) k ≡ record k' {
        futex_hash = update k.futex_hash key (record { entries = left; waiters = length left });
      }
unfolding do_futex_wake
do_futex_wake_lem key addr n k hn inv hw = elim (Bool-cases ((k.futex_hash key).waiters == 0)) [
  | inl z ↦
      let none_left : (k.futex_hash key).entries ≡ [] = length-zero _ (ground arith) in
      rw (z, do_futex_wake, none_left)
        (ap (λ h. record k { futex_hash = h })
          (sym (update_same k.futex_hash key empty_bucket (ground arith))))
  | inr nz ↦
      rw
        (
          nz,
          do_futex_wake,
          wake_loop_lem addr n 0 (k.futex_hash key).waiters (k.futex_hash key).entries k hn
              (omega arith) hw,
          futex_hash-make_all_ready (chosen (suc n) addr (k.futex_hash key).entries) k,
        )
        (rw zero-add refl)
]
