-- ===== src/Examples/Directory/Together.antt =====
-- The instance with the device "AB", and others, on the etcd with room for one key.
use correlation.Base.{
  ℕ, Text, List, [], ◌∷◌, ◌≡◌, ◌≢◌, refl, arith, inl, inr, pos, some, text_eq, text_eq_refl, ◌==◌,
  if◌then◌else◌, Bool-cases,
}
use correlation.Address.{announce_address}
use correlation.Paths.{path_join}
use correlation.Etcd.{EtcdOp, call_announce, call_un_announce, loop_round}
use correlation.Etcd.Directory.Together.{
  Backends, IsMember, IsKept, run_together, run_together-IsKept,
}
use correlation.Examples.Values.{local_ip, differs}
use correlation.Examples.Directory.{
  ab, ef, directory, small, small-IsKeyValue, key_of_ab, ab-IsName, ef-IsName, quiet, loud,
}

abbrev address : Text
address = announce_address local_ip (pos 22000)

-- the instance 0 has announced the device "AB", the others nothing
abbrev several : Backends small
several n = if n == 0 then loud else quiet

member : (n : ℕ) → IsMember small directory 0 ab address n (several n)
member n = elim (Bool-cases (n == 0)) [
  | inl e ↦
      let is : n ≡ 0 = ground (arith, e) in
      rw e (record {
        key = refl;
        name = inr ab-IsName;
        own = λ q. (refl, refl);
        other = λ q. absurd (q is);
      })
  | inr e ↦
      let isnt : n ≢ 0 = λ q. ground (arith, e, q) in
      rw e (record {
        key = refl;
        name = inl refl;
        own = λ q. absurd (isnt q);
        other = λ q. differs [] ab (unfold text_eq in refl);
      })
]

several-IsKept :
    IsKept small small-IsKeyValue directory 0 ab address ab-IsName several (some address)
unfolding small-IsKeyValue key_of_ab
several-IsKept = record { members = member; entry = rw (text_eq_refl (path_join directory ab)) }

abbrev events : List (ℕ × EtcdOp small)
events =
    (1, call_announce ef address) ∷ (0, loop_round) ∷ (1, loop_round) ∷ (1, call_un_announce) ∷ []

one-ne-zero : ◌≢◌ {A = ℕ} 1 0
one-ne-zero h = omega (arith, h)

run_together-IsKept_example :
    IsKept small small-IsKeyValue directory 0 ab address ab-IsName
      (run_together small events (several, some address)).0
      (run_together small events (several, some address)).1
run_together-IsKept_example =
    run_together-IsKept small small-IsKeyValue directory 0 ab address ab-IsName events several
      (some address)
      (
        (inr ef-IsName, (λ q. absurd (one-ne-zero q)), λ q. differs ef ab (unfold text_eq in refl)),
        (
          (tt, (λ q. tt), λ q. tt),
          (
            (tt, (λ q. absurd (one-ne-zero q)), λ q. tt),
            ((tt, (λ q. absurd (one-ne-zero q)), λ q. tt), tt),
          ),
        ),
      )
      several-IsKept
