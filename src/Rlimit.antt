-- ===== src/Rlimit.antt =====
-- service/rlimit_unix.go and service/rlimit_windows.go, MaximizeOpenFileLimit. The two system calls are
-- parameters.
use correlation.Base.{
  Bool, true, false, ◌≡◌, refl, inl, inr, ◌-◌, ◌^◌, ltb, ℤ, pos, negsuc, Result-cases, ℕ, Text,
  codes, Option, none, some, Result, ok, err, leb, if◌then◌else◌,
}

-- syscall.Rlimit
pub record Limit : Type 0 where
  pub cur : ℕ
  pub max : ℕ

-- Getrlimit and Setrlimit of the number of open files
pub record Kernel : Type 1 where
  pub State : Type 0
  pub get_limit : State → Result Limit
  pub set_limit : State → Limit → State × Option Text

-- the conversion of a uint64 to an int of 64 bits
abbrev pub int_of : ℕ → ℤ
int_of n = if ltb n (2 ^ 63) then pos n else negsuc (2 ^ 64 - 1 - n)

module _ (k : Kernel) where
  abbrev new_limit : Result Limit → ℤ × Option Text
  new_limit (err e) = (pos 0, some e)
  new_limit (ok l) = (int_of l.cur, none)

  abbrev after_set : ℕ → k.State × Option Text → k.State × ℤ × Option Text
  after_set old (st, some e) = (st, int_of old, some e)
  after_set old (st, none) = let (n, e) = new_limit (k.get_limit st) in (st, n, e)

  abbrev raise_limit : k.State → Limit → k.State × ℤ × Option Text
  raise_limit st l =
      if leb l.max l.cur
      then (st, int_of l.cur, none)
      else after_set l.cur (k.set_limit st (record l { cur = l.max }))

  abbrev on_first : k.State → Result Limit → k.State × ℤ × Option Text
  on_first st (err e) = (st, pos 0, some e)
  on_first st (ok l) = raise_limit st l

  -- the state behind the call, the limit that is returned and the error
  unfoldable pub maximize_open_file_limit : k.State → k.State × ℤ × Option Text
  maximize_open_file_limit st = on_first st (k.get_limit st)

  some-ne-none : (e : Text) → some e ≡ none → ⊥
  some-ne-none e h = cc

  -- the limit of a result is the one in force
  abbrev pub InForce : k.State × ℤ × Option Text → Type 0
  InForce (st, n, e) = (l : Limit) × (k.get_limit st ≡ ok l) × (n ≡ int_of l.cur)

  after_set-InForce :
      (old : ℕ) (p : k.State × Option Text) → (after_set old p).2 ≡ none → InForce (after_set old p)
  after_set-InForce old (st, some e) h = absurd (some-ne-none e h)
  after_set-InForce old (st, none) h = elim (Result-cases (k.get_limit st)) [
    | inl (l, e) ↦ (l, e, rw e refl)
    | inr (x, e) ↦ absurd (some-ne-none x (rw e at h))
  ]

  choose-InForce :
      (b : Bool) (st : k.State) (l : Limit) (r : k.State × ℤ × Option Text)
      → k.get_limit st ≡ ok l
      → (r.2 ≡ none → InForce r)
      → (if b then (st, int_of l.cur, none) else r).2 ≡ none
      → InForce (if b then (st, int_of l.cur, none) else r)
  choose-InForce true st l r found rest h = (l, found, refl)
  choose-InForce false st l r found rest h = rest h

  on_first-InForce :
      (st : k.State) (r : Result Limit)
      → k.get_limit st ≡ r
      → (on_first st r).2 ≡ none
      → InForce (on_first st r)
  on_first-InForce st (err e) got h = absurd (some-ne-none e h)
  on_first-InForce st (ok l) got h =
      choose-InForce (leb l.max l.cur) st l _ got
        (after_set-InForce l.cur (k.set_limit st (record l { cur = l.max }))) h

  -- Whatever the system calls do, a limit that is returned without an error is the one that is in force
  -- behind the call, as an int.
  pub maximize_open_file_limit_lem :
      (st : k.State)
      → (maximize_open_file_limit st).2 ≡ none
      → InForce (maximize_open_file_limit st)
  unfolding maximize_open_file_limit
  maximize_open_file_limit_lem st h = on_first-InForce st (k.get_limit st) refl h

-- MaximizeOpenFileLimit on Windows: the limit and the error
unfoldable pub maximize_open_file_limit_windows : ℤ × Option Text
maximize_open_file_limit_windows = (pos 0, some (codes "not relevant on Windows"))
