-- ===== src/Engine/Window/Sessions.antt =====
-- row_window_session of pkg/engine/window.go, row by row.
use gokql.Base.{
  ℕ, zero, suc, ◌≤◌, ◌<◌, ◌≡◌, ◌⊎◌, refl, inl, inr, Bool, true, false, Bool-cases, Option, none,
  some, if◌then◌else◌, leb, arith,
}
use gokql.Base.Int.{ℤ, pos, ◌+ℤ◌, ◌*ℤ◌, ◌≤ℤ◌, leb_ℤ}
use gokql.Functions.Bin.{int64}
use gokql.Types.KqlType.{KqlType}
use gokql.Types.Value.{Real, Value, null, long_value, Conversions, is_null, value_to_int64}
use gokql.Engine.Window.{
  row_window_session, Session, ticks, opens, start_of, session_row, compute_column,
}
use gokql.Engine.Window.Rows.{
  arg, restarts, restart_at_lem, with_count_lem, Advances, HasCell, HasCell-column,
  each_row-HasColumn,
}

leb_le : (m n : ℕ) → leb m n ≡ true → m ≤ n
leb_le m n h = ground arith

module _ (conv : Conversions) (add_real : Real → Real → Real) (argc : ℕ)
    (value : ℕ → ℕ → Value) where
  abbrev pub at : ℕ → ℤ
  at i = value_to_int64 conv (value 0 i)

  -- The distance in a cell of argument p, in ticks of 100 ns.
  abbrev distance : ℕ → ℕ → ℤ
  distance p i = int64 (value_to_int64 conv (value p i) *ℤ pos 100)

  -- The row behind row j opens a session where its restart argument is true, or its value is the
  -- first distance or more above that of row k, the first of the session, or the second distance or
  -- more above that of row j; the sums are in 64 bits.
  abbrev Opens : ℕ → ℕ → Type 0
  Opens k j =
      (restarts argc value 3 (suc j) ≡ true)
      ⊎ (int64 (at k +ℤ distance 1 (suc j)) ≤ℤ at (suc j))
      ⊎ (int64 (at j +ℤ distance 2 (suc j)) ≤ℤ at (suc j))

  -- None of the three.
  abbrev Stays : ℕ → ℕ → Type 0
  Stays k j =
      (restarts argc value 3 (suc j) ≡ false)
      × (leb_ℤ (int64 (at k +ℤ distance 1 (suc j))) (at (suc j)) ≡ false)
      × (leb_ℤ (int64 (at j +ℤ distance 2 (suc j))) (at (suc j)) ≡ false)

  -- Whether row i opens a session, where `s` is the one open before it.
  abbrev opens_at : Option Session → ℕ → Bool
  opens_at s i =
      opens conv add_real argc (arg value) s (restarts argc value 3 i) (at i)
        (ticks (value_to_int64 conv (value 1 i))) (ticks (value_to_int64 conv (value 2 i)))

  abbrev session : ℕ → ℕ → Session
  session k j = record { start = at k; prev = at j }

  -- The session that row k opened holds row j.
  pub data InSession : ℕ → ℕ → Type 0 where
    first : is_null (value 0 0) ≡ false → InSession 0 0
    after_null :
        (j : ℕ)
        → is_null (value 0 j) ≡ true
        → is_null (value 0 (suc j)) ≡ false
        → InSession (suc j) (suc j)
    opened :
        (k j : ℕ)
        → InSession k j
        → is_null (value 0 (suc j)) ≡ false
        → Opens k j
        → InSession (suc j) (suc j)
    kept :
        (k j : ℕ)
        → InSession k j
        → is_null (value 0 (suc j)) ≡ false
        → Stays k j
        → InSession k (suc j)

  opens_lem :
      (s : Session) (r : Bool) (x d1 d2 : ℤ)
      → (opens conv add_real argc (arg value) (some s) r x d1 d2 ≡ true)
          × ((r ≡ true) ⊎ (int64 (s.start +ℤ d1) ≤ℤ x) ⊎ (int64 (s.prev +ℤ d2) ≤ℤ x))
        ⊎ (opens conv add_real argc (arg value) (some s) r x d1 d2 ≡ false)
          × (r ≡ false)
          × (leb_ℤ (int64 (s.start +ℤ d1)) x ≡ false)
          × (leb_ℤ (int64 (s.prev +ℤ d2)) x ≡ false)
  unfolding opens
  opens_lem s r x d1 d2 = elim (Bool-cases r) [
    | inl e ↦ inl (rw (opens, e) refl, inl e)
    | inr e ↦ elim (Bool-cases (leb_ℤ (int64 (s.start +ℤ d1)) x)) [
      | inl p ↦ inl (rw (opens, e, p) refl, inr (inl (leb_le _ _ p)))
      | inr p ↦ elim (Bool-cases (leb_ℤ (int64 (s.prev +ℤ d2)) x)) [
        | inl q ↦ inl (rw (opens, e, p, q) refl, inr (inr (leb_le _ _ q)))
        | inr q ↦ inr (rw (opens, e, p, q) refl, e, p, q)
      ]
    ]
  ]

  session_cases :
      (k j : ℕ)
      → (opens_at (some (session k j)) (suc j) ≡ true) × Opens k j
        ⊎ (opens_at (some (session k j)) (suc j) ≡ false) × Stays k j
  unfolding ticks
  session_cases k j =
      elim (opens_lem (session k j) (restarts argc value 3 (suc j)) (at (suc j))
        (distance 1 (suc j)) (distance 2 (suc j))) [
          | inl (e, o) ↦ inl (e, o)
          | inr (e, r, p, q) ↦ inr (e, (r, p, q))
        ]

  abbrev pub IsSessionCell : ℕ → Value → Type 0
  IsSessionCell j v =
      (is_null (value 0 j) ≡ true) × (v ≡ null) ⊎ (k : ℕ) × InSession k j × (v ≡ long_value (at k))

  abbrev IsOpen : ℕ → Option Session → Type 0
  IsOpen zero s = s ≡ none
  IsOpen (suc j) s =
      (is_null (value 0 j) ≡ true) × (s ≡ none) ⊎ (k : ℕ) × InSession k j × (s ≡ some (session k j))

  -- A row without a value closes the session.
  at_null :
      (i : ℕ) (s : Option Session)
      → is_null (value 0 i) ≡ true
      → Advances (session_row conv add_real argc (arg value)) IsOpen IsSessionCell i s
  unfolding session_row
  at_null i s h = (
    (none, null),
    rw (session_row, restart_at_lem conv add_real argc value 3 i, h) refl,
    inl (h, refl),
    inl (h, refl),
  )

  at_value :
      (i k : ℕ) (s : Option Session)
      → is_null (value 0 i) ≡ false
      → (if opens_at s i then at i else start_of conv add_real argc (arg value) s (at i)) ≡ at k
      → InSession k i
      → Advances (session_row conv add_real argc (arg value)) IsOpen IsSessionCell i s
  unfolding session_row
  at_value i k s h e member = (
    (some (session k i), long_value (at k)),
    rw (session_row, restart_at_lem conv add_real argc value 3 i, h, e) refl,
    inr (k, member, refl),
    inr (k, member, refl),
  )

  session_row-Advances :
      (i : ℕ) (s : Option Session)
      → IsOpen i s
      → Advances (session_row conv add_real argc (arg value)) IsOpen IsSessionCell i s
  unfolding opens
  session_row-Advances zero s e = elim (Bool-cases (is_null (value 0 0))) [
    | inl p ↦ at_null 0 s p
    | inr p ↦ at_value 0 0 s p (rw e refl) (first p)
  ]
  session_row-Advances (suc j) s (inl (q, e)) = elim (Bool-cases (is_null (value 0 (suc j)))) [
    | inl p ↦ at_null (suc j) s p
    | inr p ↦ at_value (suc j) (suc j) s p (rw e refl) (after_null j q p)
  ]
  session_row-Advances (suc j) s (inr (k, member, e)) =
      elim (Bool-cases (is_null (value 0 (suc j)))) [
        | inl p ↦ at_null (suc j) s p
        | inr p ↦ elim (session_cases k j) [
          | inl (q, o) ↦ at_value (suc j) (suc j) s p (rw (e, q) refl) (opened k j member p o)
          | inr (q, o) ↦ at_value (suc j) k s p (rw (e, q) refl) (kept k j member p o)
        ]
      ]

  -- With three arguments or four that evaluate, row_window_session succeeds, and a row has null where
  -- its first argument is null, and else the value of the row that opened its session. A session is
  -- opened by the first row and by a row behind a null, and else by a row whose fourth argument is
  -- true, or whose value is the distance of its second argument or more above that of the session's
  -- first row, or the distance of its third argument or more above that of the row before, these
  -- sums in 64 bits.
  pub row_window_session_lem :
      (t : KqlType) (n j : ℕ)
      → 3 ≤ argc
      → argc ≤ 4
      → j < n
      → HasCell
          (compute_column conv add_real argc (arg value) row_window_session t n)
          n
          j
          (IsSessionCell j)
  unfolding compute_column
  row_window_session_lem t n j h k l =
      rw (compute_column, with_count_lem conv add_real argc value 3 4 _ h k)
        (HasCell-column _ n IsSessionCell
          (each_row-HasColumn (session_row conv add_real argc (arg value)) IsOpen _
            session_row-Advances none 0 n refl)
          j l)
