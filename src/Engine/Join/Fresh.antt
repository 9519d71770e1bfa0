-- ===== src/Engine/Join/Fresh.antt =====
-- The free name of a column of a join's result (`buildJoinSchema` of pkg/engine/join.go).
use gokql.Base.{
  ℕ, zero, suc, ◌<◌, ◌≤◌, ◌≡◌, ◌≢◌, ◌⊎◌, refl, sym, ap, ◌∙◌, inl, inr, true, false, not, Bool-cases,
  some, List, [], ◌∷◌, ◌++◌, length, keep, arith,
}
use gokql.Base.Bytes.{Bytes, bytes_eq, bytes_eq_iff}
use gokql.Types.Decimal.{decimal_digits}
use gokql.Types.Decimal.Text.{read_digits}
use gokql.Types.Decimal.Text.Digits.{read-decimal_digits}
use gokql.Engine.Join.{has_name, fresh_name, column_name}

append_cancel : (s a b : Bytes) → s ++ a ≡ s ++ b → a ≡ b
append_cancel [] a b h = h
append_cancel (c ∷ s) a b h = append_cancel s a b (cc h)

numbered_apart :
    (name : Bytes) (n k : ℕ)
    → n ≢ k
    → bytes_eq (name ++ decimal_digits n) (name ++ decimal_digits k) ≡ false
numbered_apart name n k h =
    elim (Bool-cases (bytes_eq (name ++ decimal_digits n) (name ++ decimal_digits k))) [
      | inr p ↦ p
      | inl p ↦
          let same : decimal_digits n ≡ decimal_digits k =
            append_cancel name (decimal_digits n) (decimal_digits k)
              ((bytes_eq_iff (name ++ decimal_digits n) (name ++ decimal_digits k)).0 p) in
          let numbers : some n ≡ some k =
            sym (read-decimal_digits n) ∙ ap (read_digits 0) same ∙ read-decimal_digits k in
          absurd (h (cc numbers))
    ]

-- Without a name.
abbrev without : Bytes → List Bytes → List Bytes
without s names = keep (λ t. not (bytes_eq t s)) names

length-without : (s : Bytes) (names : List Bytes) → length (without s names) ≤ length names
length-without s [] = omega arith
length-without s (t ∷ names) = ground (arith, length-without s names)

length-without_has :
    (s : Bytes) (names : List Bytes)
    → has_name s names ≡ true
    → length (without s names) < length names
length-without_has s [] h = cc h
length-without_has s (t ∷ names) h = elim (Bool-cases (bytes_eq t s)) [
  | inl p ↦ rw p (omega (arith, length-without s names))
  | inr p ↦ rw p (omega (arith, length-without_has s names (rw p at h)))
]

has_name-without :
    (s t : Bytes) (names : List Bytes)
    → bytes_eq s t ≡ false
    → has_name t (without s names) ≡ has_name t names
has_name-without s t [] h = refl
has_name-without s t (u ∷ names) h =
    ground
      (arith, has_name-without s t names h, bytes_eq_iff u s, bytes_eq_iff u t, bytes_eq_iff s t)

-- The candidates from n are among `rest` where they are taken.
pub fresh_name_free :
    (fuel : ℕ) (name : Bytes) (taken rest : List Bytes) (n : ℕ)
    → length rest < fuel
    → ((k : ℕ)
        → n ≤ k
        → has_name (name ++ decimal_digits k) taken ≡ has_name (name ++ decimal_digits k) rest)
    → has_name (fresh_name fuel name taken n) taken ≡ false
unfolding fresh_name
fresh_name_free zero name taken rest n h f = absurd (omega (arith, h))
fresh_name_free (suc fuel) name taken rest n h f =
    let candidate = name ++ decimal_digits n in
    elim (Bool-cases (has_name candidate taken)) [
      | inr p ↦ rw (p) p
      | inl p ↦
          let fewer = length-without_has candidate rest (sym (f n (omega arith)) ∙ p) in
          rw p (
            fresh_name_free fuel name taken (without candidate rest) (suc n)
              (omega (arith, h, fewer))
              (λ k le.
                f k (omega (arith, le))
                ∙ sym (
                    has_name-without candidate (name ++ decimal_digits k) rest
                      (numbered_apart name n k (omega (arith, le))))))
    ]

pub column_name-left :
    (left_names taken : List Bytes) (name : Bytes)
    → ((s : Bytes) → has_name s taken ≡ false → has_name s left_names ≡ false)
    → has_name (column_name left_names taken name) left_names ≡ false
unfolding column_name
column_name-left left_names taken name h = elim (Bool-cases (has_name name left_names)) [
  | inl p ↦ rw p (
      h (fresh_name (suc (length taken)) name taken 1)
        (fresh_name_free (suc (length taken)) name taken taken 1 (omega arith) (λ k le. refl)))
  | inr p ↦ rw p p
]

-- A column keeps its name, or has one that is not taken.
pub column_name-cases :
    (left_names taken : List Bytes) (name : Bytes)
    → (column_name left_names taken name ≡ name)
      ⊎ (has_name (column_name left_names taken name) taken ≡ false)
unfolding column_name
column_name-cases left_names taken name = elim (Bool-cases (has_name name left_names)) [
  | inl p ↦
      inr (
        rw p (fresh_name_free (suc (length taken)) name taken taken 1 (omega arith) (λ k le. refl)))
  | inr p ↦ inl (rw p refl)
]
