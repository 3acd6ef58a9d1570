-- ===== src/Event/SeqNo.antt =====
-- Sequence numbers that wrap (`modulo_gt` of gdp/gdp_event.c).
use gdp.Base.{ℕ, ◌+◌, ◌-◌, ◌%◌, ◌<◌, ◌≡◌, arith, true, ◌↔◌, ◌⊎◌, ltb, Bool-cases, inl, inr}
use gdp.Event.{seqno_base, modulo_gt}

-- How far `a` is ahead of `b`, around the circle.
abbrev pub ahead : ℕ → ℕ → ℕ
ahead a b = (a + seqno_base - b) % seqno_base

-- Of two sequence numbers the first is greater where it is ahead by less than half the circle, or by
-- just the half and without a wrap.
pub modulo_gt_iff :
    (a b : ℕ)
    → a < seqno_base
    → b < seqno_base
    → (modulo_gt a b ≡ true)
      ↔ (((0 < ahead a b) × (ahead a b < 16384)) ⊎ ((ahead a b ≡ 16384) × (b < a)))
unfolding modulo_gt
modulo_gt_iff a b h k = (
  λ e. elim (Bool-cases (ltb (ahead a b) 16384)) [
    | inl s ↦ inl (ground (arith, e), ground (arith, s))
    | inr s ↦ inr (ground (arith, e, s), ground (arith, e, s))
  ],
  λ s. elim s [ inl (p, q) ↦ ground (arith, p, q) | inr (p, q) ↦ ground (arith, p, q) ],
)
