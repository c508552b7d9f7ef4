-- ===== src/Tracker/Bound.antt =====
-- How many changes are tracked at once.
use correlation.Base.{
  is_empty, ℕ, suc, ◌≤◌, Text, List, [], ◌∷◌, ◌≡◌, refl, arith, true, false, Bool, ltb, ◌==◌,
  if◌then◌else◌, Map, length, length-insert, length-delete, IsDistinct, insert-IsDistinct,
  delete-IsDistinct, lookup, none, Bool-cases, inl, inr, insert, delete,
}
use correlation.Tracker.Branches.{
  flush_empty, flush_some, flush_full, due, on_timer-due, on_timer_plain,
}
use correlation.Aggregate.{clean_paths}
use correlation.Tracker.{
  Config, Tracker, ProgressTime, StEvent, Tick, Event, st_input, fs_input, timer, max_files,
  is_from_st, speed_up, finish, on_st_input, on_fs_input, swept, delete_all, without_fs, flush,
  inform, on_timer, arm, step, run, start, is_stale,
}

pub record IsBounded (t : Tracker) : Type 0 where
  pub few : length t.in_progress ≤ suc max_files
  pub distinct : IsDistinct t.in_progress

insert_few :
    (k : Text) (p : ProgressTime) (m : Map ProgressTime)
    → ltb max_files (length m) ≡ false
    → length (insert k p m) ≤ suc max_files
insert_few k p m h = ground (arith, length-insert k p m)

length-swept : (k : Tick) (m : Map ProgressTime) → length (swept k m) ≤ length m
unfolding swept
length-swept k [] = omega arith
length-swept k ((j, p) ∷ m) = ground (arith, length-swept k m)

length-delete_all : (ps : List Text) (m : Map ProgressTime) → length (delete_all ps m) ≤ length m
unfolding delete_all
length-delete_all [] m = omega arith
length-delete_all (p ∷ ps) m = omega (arith, length-delete_all ps (delete p m), length-delete p m)

length-without_fs : (m : Map ProgressTime) → length (without_fs m) ≤ length m
unfolding without_fs
length-without_fs [] = omega arith
length-without_fs ((j, p) ∷ m) = ground (arith, length-without_fs m)

delete-IsBounded :
    (k : Text) (t : Tracker)
    → IsBounded t
    → IsBounded (record t { in_progress = delete k t.in_progress })
delete-IsBounded k t h = record {
  few = omega (arith, h.few, length-delete k t.in_progress);
  distinct = delete-IsDistinct k t.in_progress h.distinct;
}

track-IsBounded :
    (k : Text) (p : ProgressTime) (t : Tracker)
    → IsBounded t
    → IsBounded (
        if ltb max_files (length t.in_progress)
        then t
        else record t { in_progress = insert k p t.in_progress })
track-IsBounded k p t h = elim (Bool-cases (ltb max_files (length t.in_progress))) [
  | inl full ↦ rw full h
  | inr room ↦ rw room (record {
    few = insert_few k p t.in_progress room;
    distinct = insert-IsDistinct k p t.in_progress h.distinct;
  })
]

if-IsBounded :
    (b : Bool) (s t : Tracker) → IsBounded s → IsBounded t → IsBounded (if b then s else t)
if-IsBounded true s t hs ht = hs
if-IsBounded false s t hs ht = ht

-- speeding up changes no tracked path
same-IsBounded : (s t : Tracker) → s.in_progress ≡ t.in_progress → IsBounded t → IsBounded s
same-IsBounded s t e h = record { few = rw e h.few; distinct = rw e h.distinct }

pub speed_up_same : (t : Tracker) → (speed_up t).in_progress ≡ t.in_progress
speed_up_same t = ground arith

on_st_input-IsBounded :
    (item : StEvent) (now : ℕ) (t : Tracker) → IsBounded t → IsBounded (on_st_input item now t)
unfolding on_st_input
on_st_input-IsBounded item now t h =
    if-IsBounded (is_empty item.path) _ _ (same-IsBounded _ t (speed_up_same t) h) (
      if-IsBounded item.finished _ _ (delete-IsBounded item.path t h)
        (track-IsBounded item.path _ t h))

on_fs_input-IsBounded :
    (item : Text) (now : ℕ) (t : Tracker) → IsBounded t → IsBounded (on_fs_input item now t)
unfolding on_fs_input
on_fs_input-IsBounded item now s h =
    let t = speed_up s in
    let ht : IsBounded t = same-IsBounded _ s (speed_up_same s) h in
    if-IsBounded (is_from_st (lookup item t.in_progress)) _ _ (delete-IsBounded item t ht)
      (track-IsBounded item _ t ht)

pub lookup-swept-none :
    (k : Tick) (j : Text) (m : Map ProgressTime) → lookup j m ≡ none → lookup j (swept k m) ≡ none
unfolding lookup swept
lookup-swept-none k j [] h = refl
lookup-swept-none k j ((i, p) ∷ m) h = ground (arith, lookup-swept-none k j m)

lookup-without_fs-none :
    (j : Text) (m : Map ProgressTime) → lookup j m ≡ none → lookup j (without_fs m) ≡ none
unfolding lookup without_fs
lookup-without_fs-none j [] h = refl
lookup-without_fs-none j ((i, p) ∷ m) h = ground (arith, lookup-without_fs-none j m)

pub swept-IsDistinct : (k : Tick) (m : Map ProgressTime) → IsDistinct m → IsDistinct (swept k m)
unfolding swept
swept-IsDistinct k [] h = tt
swept-IsDistinct k ((j, p) ∷ m) (fresh, h) = elim (Bool-cases (is_stale k j p)) [
  | inl e ↦ rw (e, swept) (swept-IsDistinct k m h)
  | inr e ↦ rw (e, swept) (lookup-swept-none k j m fresh, swept-IsDistinct k m h)
]

without_fs-IsDistinct : (m : Map ProgressTime) → IsDistinct m → IsDistinct (without_fs m)
unfolding without_fs
without_fs-IsDistinct [] h = tt
without_fs-IsDistinct ((j, p) ∷ m) (fresh, h) = elim (Bool-cases p.fs_event) [
  | inl e ↦ rw (e, without_fs) (without_fs-IsDistinct m h)
  | inr e ↦ rw (e, without_fs) (lookup-without_fs-none j m fresh, without_fs-IsDistinct m h)
]

pub delete_all-IsDistinct :
    (ps : List Text) (m : Map ProgressTime) → IsDistinct m → IsDistinct (delete_all ps m)
unfolding delete_all
delete_all-IsDistinct [] m h = h
delete_all-IsDistinct (p ∷ ps) m h = delete_all-IsDistinct ps (delete p m) (delete-IsDistinct p m h)

pub arm_same : (now : ℕ) (t : Tracker) → (arm now t).in_progress ≡ t.in_progress
unfolding arm
arm_same now t = ground arith

module _ (w : Config) where
  finish-IsBounded :
      (b : Bool) (k : Tick) (m : Map ProgressTime) (t : Tracker)
      → length m ≤ length t.in_progress
      → IsDistinct m
      → IsBounded t
      → IsBounded (finish w b k m t)
  finish-IsBounded true k m t few distinct h = record {
    few = omega (arith, few, h.few);
    distinct = distinct;
  }
  finish-IsBounded false k m t few distinct h = h

  inform-IsBounded :
      (k : Tick) (ps : List Text) (t : Tracker) → IsBounded t → IsBounded (inform w k ps t).0
  inform-IsBounded k [] t h = h
  inform-IsBounded k (p ∷ ps) t h =
      finish-IsBounded _ k _ t (length-delete_all (clean_paths (p ∷ ps)) t.in_progress)
        (delete_all-IsDistinct (clean_paths (p ∷ ps)) t.in_progress h.distinct) h

  swept-IsBounded :
      (k : Tick) (t : Tracker)
      → IsBounded t
      → IsBounded (record t { in_progress = swept k t.in_progress })
  swept-IsBounded k t h = record {
    few = omega (arith, h.few, length-swept k t.in_progress);
    distinct = swept-IsDistinct k t.in_progress h.distinct;
  }

  flush-IsBounded : (k : Tick) (t : Tracker) → IsBounded t → IsBounded (flush w k t).0
  flush-IsBounded k t h = elim (Bool-cases (length t.in_progress == 0)) [
    | inl e ↦ rw (flush_empty w k t e) (same-IsBounded _ t refl h)
    | inr e ↦ elim (Bool-cases (ltb (length t.in_progress) max_files)) [
      | inl few ↦ rw (flush_some w k t e few) (inform-IsBounded k _ _ (swept-IsBounded k t h))
      | inr many ↦ rw (flush_full w k t e many) (
          finish-IsBounded _ k _ t (length-without_fs t.in_progress)
            (without_fs-IsDistinct t.in_progress h.distinct) h)
    ]
  ]

  on_timer-IsBounded : (k : Tick) (t : Tracker) → IsBounded t → IsBounded (on_timer w k t).0
  on_timer-IsBounded k t h = elim (Bool-cases (due w k t)) [
    | inl e ↦ rw (on_timer-due w k t e) (flush-IsBounded k _ (same-IsBounded _ t refl h))
    | inr e ↦ rw (on_timer_plain w k t e) (flush-IsBounded k _ (same-IsBounded _ t refl h))
  ]

  pub step-IsBounded : (e : Event) (t : Tracker) → IsBounded t → IsBounded (step w e t).0
  unfolding step
  step-IsBounded (st_input item now) t h = on_st_input-IsBounded item now t h
  step-IsBounded (fs_input item now) t h = on_fs_input-IsBounded item now t h
  step-IsBounded (timer k) t h = on_timer-IsBounded k t h

  -- Whatever events come in whatever order, the number of tracked paths stays at most maxFiles + 1, and no
  -- path is tracked twice, if that is so at the start.
  pub run-IsBounded : (es : List (ℕ × Event)) (t : Tracker) → IsBounded t → IsBounded (run w es t).0
  unfolding run
  run-IsBounded [] t h = h
  run-IsBounded ((now, e) ∷ es) t h =
      let kept = step-IsBounded e (arm now t) (same-IsBounded _ t (arm_same now t) h) in
      let (t', subs) = step w e (arm now t) in run-IsBounded es t' kept

  pub start-IsBounded : (now : ℕ) → IsBounded (start w now).0
  unfolding start
  start-IsBounded now = record { few = omega arith; distinct = tt }
