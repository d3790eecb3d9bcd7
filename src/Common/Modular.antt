-- ===== src/Common/Modular.antt =====
-- Products of residues.
use Prim.Native.Nat.{ℕ, ◌+◌, ◌*◌, ◌/◌, ◌%◌}
use mathlib.Core.Path.{◌≡◌, ap, ◌∙◌, sym}
use native.Mathlib.Nat.{mod-add-div, add-mul-mod_self_left, mul_comm}
use native.Mathlib.Omega.{arith}

pub mod-mul_left : (m t c : ℕ) → t % m * c % m ≡ t * c % m
mod-mul_left m t c =
    sym (ap (λ (s : ℕ). s % m) split ∙ add-mul-mod_self_left (t % m * c) m (t / m * c))
  where
    split : t * c ≡ t % m * c + m * (t / m * c)
    split = omega (arith, ap (λ (s : ℕ). s * c) (mod-add-div t m))

pub mod-mul-mod : (m s t : ℕ) → s % m * (t % m) % m ≡ s * t % m
mod-mul-mod m s t =
    mod-mul_left m s (t % m)
    ∙ ap (λ (k : ℕ). k % m) (mul_comm s (t % m))
    ∙ mod-mul_left m t s
    ∙ ap (λ (k : ℕ). k % m) (mul_comm t s)
