-- ===== src/CString/Copy.antt =====
-- `rep movsb` of osrt/c/string.c, and what it is to move a block.
use yomotsu.Base.{
  ℕ, zero, suc, ◌+◌, ◌-◌, ◌≤◌, ◌<◌, ◌≡◌, ◌⊎◌, inl, inr, refl, ap, ◌∙◌, arith, update, dec_lt,
}
use yomotsu.KString.{Memory}
use yomotsu.CString.{memcpy_rep_movsb}

pub memcpy_rep_movsb-outside :
    (dst src n : ℕ) (m : Memory) (x : ℕ)
    → (x < dst) ⊎ (dst + n ≤ x)
    → memcpy_rep_movsb dst src n m x ≡ m x
unfolding memcpy_rep_movsb
memcpy_rep_movsb-outside dst src zero m x out = refl
memcpy_rep_movsb-outside dst src (suc n) m x out =
    ground (arith, memcpy_rep_movsb-outside (dst + 1) (src + 1) n (update m dst (m src)) x)

-- An upward copy to a block that starts below the source, or that does not meet it.
pub memcpy_rep_movsb_lem :
    (dst src n : ℕ) (m : Memory) (j : ℕ)
    → (dst ≤ src) ⊎ (src + n ≤ dst)
    → j < n
    → memcpy_rep_movsb dst src n m (dst + j) ≡ m (src + j)
unfolding memcpy_rep_movsb
memcpy_rep_movsb_lem dst src zero m j far lt = absurd (omega arith)
memcpy_rep_movsb_lem dst src (suc n) m zero far lt =
    ground (arith, memcpy_rep_movsb-outside (dst + 1) (src + 1) n (update m dst (m src)) dst)
memcpy_rep_movsb_lem dst src (suc n) m (suc j) far lt =
    ground (arith, memcpy_rep_movsb_lem (dst + 1) (src + 1) n (update m dst (m src)) j)

-- From `m` to `m'`, the bytes from `lo` up to `hi` of the block at `s2` arrived in the block at `s1`,
-- and nothing else changed.
pub record Moved (s1 s2 lo hi : ℕ) (m m' : Memory) : Type 0 where
  pub arrived : (j : ℕ) → lo ≤ j → j < hi → m' (s1 + j) ≡ m (s2 + j)
  pub unchanged : (x : ℕ) → (x < s1 + lo) ⊎ (s1 + hi ≤ x) → m' x ≡ m x

pub Moved-copy :
    (s1 s2 lo n : ℕ) (m : Memory)
    → (s1 ≤ s2) ⊎ (s2 + n ≤ s1)
    → Moved s1 s2 lo (lo + n) m (memcpy_rep_movsb (s1 + lo) (s2 + lo) n m)
Moved-copy s1 s2 lo n m far =
    let apart : (s1 + lo ≤ s2 + lo) ⊎ (s2 + lo + n ≤ s1 + lo) = elim far [
      | inl a ↦ inl (omega arith)
      | inr a ↦ inr (omega arith)
    ] in
    record {
      arrived = λ j l h.
          let place : s1 + j ≡ s1 + lo + (j - lo) = omega arith in
          let from : s2 + lo + (j - lo) ≡ s2 + j = omega arith in
          ap (memcpy_rep_movsb (s1 + lo) (s2 + lo) n m) place
          ∙ memcpy_rep_movsb_lem (s1 + lo) (s2 + lo) n m (j - lo) apart (omega arith)
          ∙ ap m from;
      unchanged = λ x out.
          memcpy_rep_movsb-outside (s1 + lo) (s2 + lo) n m x
            (elim out [ inl a ↦ inl a | inr a ↦ inr (omega arith) ]);
    }

-- First the bytes below `mid`, then those from `mid` on, to a block in front.
pub Moved-up :
    (s1 s2 lo mid hi : ℕ) (m m1 m2 : Memory)
    → s1 ≤ s2
    → lo ≤ mid
    → mid ≤ hi
    → Moved s1 s2 lo mid m m1
    → Moved s1 s2 mid hi m1 m2
    → Moved s1 s2 lo hi m m2
Moved-up s1 s2 lo mid hi m m1 m2 le a b f g = record {
  arrived = λ j l h. elim (dec_lt j mid) [
    | yes low ↦ g.unchanged (s1 + j) (inl (omega arith)) ∙ f.arrived j l low
    | no high ↦ g.arrived j (omega arith) h ∙ f.unchanged (s2 + j) (inr (omega arith))
  ];
  unchanged = λ x out. g.unchanged x (omega arith) ∙ f.unchanged x (omega arith);
}

-- First the bytes from `mid` on, then those below it, to a block behind.
pub Moved-down :
    (s1 s2 lo mid hi : ℕ) (m m1 m2 : Memory)
    → s2 ≤ s1
    → lo ≤ mid
    → mid ≤ hi
    → Moved s1 s2 mid hi m m1
    → Moved s1 s2 lo mid m1 m2
    → Moved s1 s2 lo hi m m2
Moved-down s1 s2 lo mid hi m m1 m2 le a b f g = record {
  arrived = λ j l h. elim (dec_lt j mid) [
    | yes low ↦ g.arrived j l low ∙ f.unchanged (s2 + j) (inl (omega arith))
    | no high ↦ g.unchanged (s1 + j) (inr (omega arith)) ∙ f.arrived j (omega arith) h
  ];
  unchanged = λ x out. g.unchanged x (omega arith) ∙ f.unchanged x (omega arith);
}

pub Moved-none : (s1 s2 lo hi : ℕ) (m : Memory) → hi ≤ lo → Moved s1 s2 lo hi m m
Moved-none s1 s2 lo hi m le = record {
  arrived = λ j l h. absurd (omega arith);
  unchanged = λ x out. refl;
}

-- An empty range may start beyond its end.
pub Moved-clip :
    (s1 s2 lo hi : ℕ) (m m' : Memory) → hi ≤ lo → Moved s1 s2 lo hi m m' → Moved s1 s2 hi hi m m'
Moved-clip s1 s2 lo hi m m' le f = record {
  arrived = λ j l h. absurd (omega arith);
  unchanged = λ x out. elim out [
    | inl a ↦ f.unchanged x (inl (omega arith))
    | inr a ↦ f.unchanged x (inr a)
  ];
}
