-- ===== src/Prelude/Keys.antt =====
-- Equality of dictionary keys: an interface, with instances for texts, numbers and pairs of keys.
use Prim.Native.Nat.{ℕ}
use Prim.Native.String.{String}
use mathlib.Core.Path.{◌≡◌, refl}
use mathlib.Core.Logic.{◌≢◌, ◌↔◌, ◌⊎◌, inl, inr}
use mathlib.Core.Bool.{Bool, true, false, ◌&&◌}
use native.Mathlib.Omega.{arith}
use text.Mathlib.Text.{◌==◌ as text_beq}
use text.Mathlib.TextEquality.{eq_iff}
use shelfwise.Prelude.Tests.{eqb, Bool-cases}

pub record Key {ℓ} (A : Type ℓ) : Type ℓ where
  pub same : A → A → Bool
  pub same_iff : (a b : A) → (same a b ≡ true) ↔ (a ≡ b)

infix 50 ◌==◌
abbrev pub ◌==◌ {ℓ} : {A : Type ℓ} ⦃k : Key A⦄ → A → A → Bool
◌==◌ ⦃k⦄ = k.same

pub eqb_iff : (a b : ℕ) → (eqb a b ≡ true) ↔ (a ≡ b)
eqb_iff a b = (λ h. ground arith, λ h. ground arith)

instance abbrev pub nat_key : Key ℕ
nat_key = record { same = eqb; same_iff = eqb_iff }

instance abbrev pub text_key : Key String
text_key = record { same = text_beq; same_iff = eq_iff }

module _ {ℓ κ} {A : Type ℓ} {B : Type κ} ⦃k : Key A⦄ ⦃l : Key B⦄ where
  pub pair_same_iff : (p q : A × B) → ((p.0 == q.0 && p.1 == q.1) ≡ true) ↔ (p ≡ q)
  pair_same_iff p q = (
    λ h. ground (arith, k.same_iff p.0 q.0, l.same_iff p.1 q.1),
    λ h. ground (arith, k.same_iff p.0 q.0, l.same_iff p.1 q.1),
  )

  instance abbrev pub pair_key : Key (A × B)
  pair_key = record { same = λ p q. p.0 == q.0 && p.1 == q.1; same_iff = pair_same_iff }

module _ {ℓ} {A : Type ℓ} ⦃k : Key A⦄ where
  pub ==_refl : (a : A) → (a == a) ≡ true
  ==_refl a = (k.same_iff a a).1 refl

  pub ==_ne : {a b : A} → a ≢ b → (a == b) ≡ false
  ==_ne {a} {b} h = ground (arith, k.same_iff a b)

  pub ==→eq : (a b : A) → (a == b) ≡ true → a ≡ b
  ==→eq a b h = (k.same_iff a b).0 h

  pub Key-cases : (a b : A) → (a ≡ b) ⊎ ((a == b) ≡ false)
  Key-cases a b = elim (Bool-cases (a == b)) [ inl e ↦ inl (==→eq a b e) | inr n ↦ inr n ]

  pub ==_iff : (a b : A) → ((a == b) ≡ true) ↔ (a ≡ b)
  ==_iff a b = k.same_iff a b
