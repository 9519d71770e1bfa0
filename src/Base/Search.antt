-- ===== src/Base/Search.antt =====
-- Go's `strings.HasPrefix`, `strings.HasSuffix`, `strings.Contains` and `strings.Index`, on bytes.
use Prim.Native.Nat.{ℕ, zero, suc, ◌+◌, ◌-◌, ◌≤◌}
use mathlib.Core.Path.{◌≡◌, refl, sym, ap, ◌∙◌}
use mathlib.Core.Logic.{◌↔◌, inl, inr}
use mathlib.Core.Bool.{Bool, true, false, ◌&&◌}
use mathlib.Core.List.{[], ◌∷◌, ◌++◌}
use mathlib.Core.Option.{Option, none, some}
use native.Mathlib.Omega.{arith}
use gokql.Base.Tests.{if◌then◌else◌, leb, ◌==◌, Bool-cases, Option-cases}
use gokql.Base.Lists.{length, drop, take, length-append}
use gokql.Base.Bytes.{Bytes, bytes_eq, bytes_eq_iff, bytes_eq_refl}

-- `strings.HasPrefix`, the prefix first.
unfoldable pub starts_with : Bytes → Bytes → Bool
starts_with [] s = true
starts_with (p ∷ ps) [] = false
starts_with (p ∷ ps) (c ∷ s) = p == c && starts_with ps s

-- `strings.Index`: where the text first occurs.
unfoldable pub index_of_text : Bytes → Bytes → Option ℕ
unfolding starts_with
index_of_text t [] = if starts_with t [] then some 0 else none
index_of_text t (c ∷ s) =
    let rest = index_of_text t s in
    if starts_with t (c ∷ s) then some 0 else elim rest [ none ↦ none | some i ↦ some (suc i) ]

-- `strings.HasSuffix`, the suffix first.
unfoldable pub ends_with : Bytes → Bytes → Bool
unfolding bytes_eq
ends_with t s = leb (length t) (length s) && bytes_eq (drop (length s - length t) s) t

-- `strings.Contains`, the part first.
unfoldable pub contains : Bytes → Bytes → Bool
unfolding index_of_text
contains t s = elim (index_of_text t s) [ none ↦ false | some i ↦ true ]

pub append_assoc : (a b c : Bytes) → (a ++ b) ++ c ≡ a ++ (b ++ c)
append_assoc [] b c = refl
append_assoc (x ∷ a) b c = ap (λ r. x ∷ r) (append_assoc a b c)

append_nil : (a : Bytes) → a ++ [] ≡ a
append_nil [] = refl
append_nil (x ∷ a) = ap (λ r. x ∷ r) (append_nil a)

pub take-drop : (n : ℕ) (s : Bytes) → s ≡ take n s ++ drop n s
take-drop zero s = refl
take-drop (suc n) [] = refl
take-drop (suc n) (c ∷ s) = ap (λ r. c ∷ r) (take-drop n s)

pub length-take : (n : ℕ) (s : Bytes) → n ≤ length s → length (take n s) ≡ n
length-take zero s h = refl
length-take (suc n) [] h = absurd (omega (arith, h))
length-take (suc n) (c ∷ s) h = ap suc (length-take n s (omega (arith, h)))

pub length-drop : (n : ℕ) (s : Bytes) → length (drop n s) ≡ length s - n
length-drop zero s = omega arith
length-drop (suc n) [] = omega arith
length-drop (suc n) (c ∷ s) = omega (arith, length-drop n s)

pub drop-length : (a b : Bytes) → drop (length a) (a ++ b) ≡ b
drop-length [] b = refl
drop-length (x ∷ a) b = drop-length a b

pub drop-append : (n : ℕ) (a b : Bytes) → n ≤ length a → drop n (a ++ b) ≡ drop n a ++ b
drop-append zero a b h = refl
drop-append (suc n) [] b h = absurd (omega (arith, h))
drop-append (suc n) (x ∷ a) b h = drop-append n a b (omega (arith, h))

drop_nil : (n : ℕ) → drop {A = ℕ} n [] ≡ []
drop_nil zero = refl
drop_nil (suc n) = refl

pub drop-drop : (m n : ℕ) (s : Bytes) → drop m (drop n s) ≡ drop (n + m) s
drop-drop m zero s = let e : m ≡ 0 + m = omega arith in ap (λ k. drop k s) e
drop-drop m (suc n) [] = drop_nil m ∙ sym (drop_nil (suc n + m))
drop-drop m (suc n) (c ∷ s) =
    let e : suc (n + m) ≡ suc n + m = omega arith in drop-drop m n s ∙ ap (λ k. drop k (c ∷ s)) e

pub starts_with-append : (p r : Bytes) → starts_with p (p ++ r) ≡ true
unfolding starts_with
starts_with-append [] r = refl
starts_with-append (c ∷ p) r = ground (arith, starts_with-append p r)

pub starts_with-rest : (p s : Bytes) → starts_with p s ≡ true → s ≡ p ++ drop (length p) s
unfolding starts_with
starts_with-rest [] s h = refl
starts_with-rest (c ∷ p) [] h = cc h
starts_with-rest (c ∷ p) (d ∷ s) h = ground (arith, starts_with-rest p s)

index_here : (t s : Bytes) → starts_with t s ≡ true → index_of_text t s ≡ some 0
unfolding index_of_text
index_here t [] h = rw h refl
index_here t (c ∷ s) h = rw h refl

-- A text that occurs is found, no later than there.
pub index-least :
    (t x y : Bytes) → (i : ℕ) × (index_of_text t (x ++ (t ++ y)) ≡ some i) × i ≤ length x
unfolding index_of_text
index-least t [] y = (0, index_here t (t ++ y) (starts_with-append t y), omega arith)
index-least t (c ∷ x) y =
    let (i, e, h) = index-least t x y in
    elim (Bool-cases (starts_with t (c ∷ (x ++ (t ++ y))))) [
      | inl p ↦ (0, rw p refl, omega arith)
      | inr p ↦ (suc i, rw (p, e) refl, omega (arith, h))
    ]

-- Where it is found, it occurs.
pub index-occurs :
    (t s : Bytes) (i : ℕ)
    → index_of_text t s ≡ some i
    → (a b : Bytes) × (s ≡ a ++ (t ++ b)) × (length a ≡ i)
unfolding index_of_text
index-occurs t [] i e = elim (Bool-cases (starts_with t [])) [
  | inl p ↦ ([], _, starts_with-rest t [] p, cc (rw p at e))
  | inr p ↦ cc (rw p at e)
]
index-occurs t (c ∷ s) i e = elim (Bool-cases (starts_with t (c ∷ s))) [
  | inl p ↦ ([], _, starts_with-rest t (c ∷ s) p, cc (rw p at e))
  | inr p ↦ elim (Option-cases (index_of_text t s)) [
    | inl q ↦ cc (rw (p, q) at e)
    | inr (j, q) ↦
        let (a, b, f, g) = index-occurs t s j q in
        let k : suc j ≡ i = cc (rw (p, q) at e) in
        (c ∷ a, b, ap (λ r. c ∷ r) f, omega (arith, g, k))
  ]
]

pub ends_with_iff : (t s : Bytes) → (ends_with t s ≡ true) ↔ ((a : Bytes) × (s ≡ a ++ t))
unfolding ends_with
ends_with_iff t s = (
  λ h.
      let both =
        and_both (leb (length t) (length s)) (bytes_eq (drop (length s - length t) s) t) h in
      let same = (bytes_eq_iff (drop (length s - length t) s) t).0 both.1 in
      (
        take (length s - length t) s,
        take-drop (length s - length t) s ∙ ap (λ r. take (length s - length t) s ++ r) same,
      ),
  λ (a, e).
      let far : length (a ++ t) - length t ≡ length a = omega (arith, length-append a t) in
      let long : leb (length t) (length (a ++ t)) ≡ true =
        leb_true (length t) (length (a ++ t)) (omega (arith, length-append a t)) in
      rw e (rw (long, far, drop-length a t) (bytes_eq_refl t)),
)
  where
    and_both : (b c : Bool) → (b && c) ≡ true → (b ≡ true) × (c ≡ true)
    and_both true c h = (refl, h)
    and_both false c h = cc h

    leb_true : (n m : ℕ) → n ≤ m → leb n m ≡ true
    leb_true n m h = ground (arith, h)
