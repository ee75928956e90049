-- ===== src/Floats.antt =====
-- `float` is a bit pattern of 32 bits, as it stands in memory and on disk. Its arithmetic is the
-- machine's: a parameter, with the facts about it that the program's results rest on.
use vecdb.Prelude.{ℕ, ◌≡◌, ◌⊎◌, Bool, true, false, Bool-cases, inl, inr}

pub record Floats : Type 0 where
  pub add : ℕ → ℕ → ℕ
  pub sub : ℕ → ℕ → ℕ
  pub mul : ℕ → ℕ → ℕ
  pub div : ℕ → ℕ → ℕ
  pub sqrtf : ℕ → ℕ
  pub lt : ℕ → ℕ → Bool
  pub eq : ℕ → ℕ → Bool
  pub zero_f : ℕ
  pub one_f : ℕ
  pub flt_max : ℕ
  pub far : ℕ

-- `<` on floats: transitive, false at a NaN, and otherwise a weak order. FLT_MAX and 1e30 are numbers.
pub record IsOrdered (F : Floats) : Type 0 where
  pub is_nan : ℕ → Bool
  pub lt_irrefl : (a : ℕ) → F.lt a a ≡ false
  pub lt_trans : (a b c : ℕ) → F.lt a b ≡ true → F.lt b c ≡ true → F.lt a c ≡ true
  pub lt_number : (a b : ℕ) → F.lt a b ≡ true → is_nan a ≡ false
  pub lt_between :
      (a b c : ℕ) → F.lt a b ≡ true → is_nan c ≡ false → (F.lt a c ≡ true) ⊎ (F.lt c b ≡ true)
  pub flt_max_number : is_nan F.flt_max ≡ false
  pub far_number : is_nan F.far ≡ false

module _ (F : Floats) (ordered : IsOrdered F) where
  pub lt_turned : (a b : ℕ) → F.lt a b ≡ true → F.lt b a ≡ false
  lt_turned a b h = elim (Bool-cases (F.lt b a)) [
    | inl k ↦ absurd (cc (ordered.lt_trans a b a h k, ordered.lt_irrefl a))
    | inr k ↦ k
  ]

  -- What is not below a bound is not below anything under it.
  pub lt_under : (a b y : ℕ) → F.lt a b ≡ true → F.lt y b ≡ false → F.lt y a ≡ false
  lt_under a b y h k = elim (Bool-cases (F.lt y a)) [
    | inl l ↦ absurd (cc (ordered.lt_trans y a b l h, k))
    | inr l ↦ l
  ]

  -- What is not below a number is not below anything that the number is not above.
  pub lt_over :
      (d b c : ℕ)
      → F.lt d c ≡ false
      → F.lt c b ≡ false
      → ordered.is_nan c ≡ false
      → F.lt d b ≡ false
  lt_over d b c h k number = elim (Bool-cases (F.lt d b)) [
    | inl l ↦ (elim (ordered.lt_between d b c l number) [
      | inl m ↦ absurd (cc (m, h))
      | inr m ↦ absurd (cc (m, k))
    ])
    | inr l ↦ l
  ]

-- Multiplication does not look at the order, and a difference turned round has the same square.
