-- ===== src/Engine/Window/Rows.antt =====
-- Loops of pkg/engine/window.go over the rows, and the rows where a window starts again.
use gokql.Base.{
  ℕ, zero, suc, ◌+◌, ◌≤◌, ◌<◌, ◌≡◌, refl, ap, inl, inr, Bool, false, Bool-cases, leb, List, [], ◌∷◌,
  if◌then◌else◌, get_or, length, arith,
}
use gokql.Base.Result.{ok}
use gokql.Types.Value.{Real, Value, null, Conversions}
use gokql.Engine.Window.{each_row, Evaluated, truth, restart_at, with_count}

-- The last row up to i that is the first one or that starts again.
abbrev pub last_restart : (ℕ → Bool) → ℕ → ℕ
last_restart r zero = 0
last_restart r (suc i) = let before = last_restart r i in if r (suc i) then suc i else before

pub last_restart-le : (r : ℕ → Bool) (i : ℕ) → last_restart r i ≤ i
last_restart-le r zero = omega arith
last_restart-le r (suc i) = ground (arith, last_restart-le r i)

-- What one row does to a loop.
abbrev pub Advances {κ} :
    {S : Type 0}
    → (S → ℕ → Evaluated (S × Value))
    → (ℕ → S → Type κ)
    → (ℕ → Value → Type κ)
    → ℕ
    → S
    → Type κ
Advances {S} step Inv Post i s =
    (r : S × Value) × (step s i ≡ ok r) × Inv (suc i) (r.0) × Post i (r.1)

-- The column of a loop that keeps an invariant.
abbrev pub HasColumn {κ} : Evaluated (List Value) → ℕ → ℕ → (ℕ → Value → Type κ) → Type κ
HasColumn out i n Post =
    (col : List Value) × (out ≡ ok col)
    × (length col ≡ n)
    × ((j : ℕ) → j < n → Post (i + j) (get_or col j null))

add_zero : (i : ℕ) → i + 0 ≡ i
add_zero i = omega arith

add_suc : (i k : ℕ) → i + suc k ≡ suc i + k
add_suc i k = omega arith

-- Positions of a list, from those of its rest.
first_or {κ} :
    (P : ℕ → Value → Type κ) (v : Value) (col : List Value)
    → P 0 v
    → {n : ℕ} → ((k : ℕ) → k < n → P (suc k) (get_or col k null))
    → (j : ℕ) → j < suc n
    → P j (get_or (v ∷ col) j null)
first_or P v col p f zero h = p
first_or P v col p f (suc j) h = f j (omega (arith, h))

module _ {κ} {S : Type 0} (step : S → ℕ → Evaluated (S × Value)) (Inv : ℕ → S → Type κ)
    (Post : ℕ → Value → Type κ)
    (advance : (i : ℕ) (s : S) → Inv i s → Advances step Inv Post i s) where
  pub each_row-HasColumn : (s : S) (i n : ℕ) → Inv i s → HasColumn (each_row step s i n) i n Post
  unfolding each_row
  each_row-HasColumn s i zero h = ([], refl, refl, λ j p. absurd (omega (arith, p)))
  each_row-HasColumn s i (suc n) h =
      let (r, e, inv, post) = advance i s h in
      let (col, f, l, rest) = each_row-HasColumn (r.0) (suc i) n inv in
      (
        r.1 ∷ col,
        rw (e, f) refl,
        ap suc l,
        λ j p.
            first_or (λ k v. Post (i + k) v) (r.1) col (rw (add_zero i) post)
              (λ k q. rw (add_suc i k) (rest k q)) j p,
      )

-- One row of a column.
abbrev pub HasCell : Evaluated (List Value) → ℕ → ℕ → (Value → Type 0) → Type 0
HasCell out n j P = (col : List Value) × (out ≡ ok col) × (length col ≡ n) × P (get_or col j null)

pub HasCell-column :
    (out : Evaluated (List Value)) (n : ℕ) (Post : ℕ → Value → Type 0)
    → HasColumn out 0 n Post
    → (j : ℕ) → j < n
    → HasCell out n j (Post j)
HasCell-column out n Post (col, e, l, f) j h = (col, e, l, rw (plain j) at (f j h))
  where
    plain : (i : ℕ) → 0 + i ≡ i
    plain i = omega arith

-- Arguments that evaluate, at each row.
abbrev pub arg : (ℕ → ℕ → Value) → ℕ → ℕ → Evaluated Value
arg value k i = ok (value k i)

abbrev pub restarts : ℕ → (ℕ → ℕ → Value) → ℕ → ℕ → Bool
restarts argc value k i = if leb argc k then false else truth (value k i)

module _ (conv : Conversions) (add_real : Real → Real → Real) (argc : ℕ)
    (value : ℕ → ℕ → Value) where
  pub restart_at_lem :
      (k i : ℕ) → restart_at conv add_real argc (arg value) k i ≡ ok (restarts argc value k i)
  unfolding restart_at
  restart_at_lem k i = elim (Bool-cases (leb argc k)) [ inl p ↦ rw p refl | inr p ↦ rw p refl ]

  pub with_count_lem :
      (lo hi : ℕ) (out : Evaluated (List Value))
      → lo ≤ argc
      → argc ≤ hi
      → with_count conv add_real argc (arg value) lo hi out ≡ out
  with_count_lem lo hi out h k = ground arith
