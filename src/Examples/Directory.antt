-- ===== src/Examples/Directory.antt =====
-- An etcd with room for one key, "/c/AB".
mod Together
mod Crash
use correlation.Base.{
  ℕ, Text, codes, List, [], ◌∷◌, ◌≡◌, ◌≢◌, ◌⊎◌, ◌↔◌, refl, sym, ap, arith, All, Any, inl, inr, pos,
  Bool, true, false, Option, none, some, ok, err, text_eq, text_eq_refl, ◌==◌, text_eq_iff,
  if◌then◌else◌, Bool-cases,
}
use mathlib.Core.Path.{subst}
use correlation.Devices.{DeviceRegistration, DeviceRegistrations}
use correlation.Address.{announce_address, join_host_port, parse_device_info}
use correlation.Strings.{split, join}
use correlation.Strconv.{itoa, atoi}
use correlation.Paths.{path_join, base, dot, dot_dot}
use correlation.Paths.Child.{IsName}
use correlation.Etcd.{
  KeysApi, Node, EtcdBackend, EtcdOp, call_announce, call_un_announce, call_watch, loop_round,
  get_devices, un_announce, run,
}
use correlation.Etcd.Directory.{IsKeyValue, view}
use correlation.Etcd.Registry.{IsShown}
use correlation.Etcd.Directory.Reading.{HasEntry, get_devices-view}
use correlation.Etcd.Directory.Withdrawn.{un_announced_not_found}
use correlation.Etcd.Directory.Together.{
  Backends, IsMember, IsKept, run_together, run_together-IsKept,
}
use correlation.Etcd.Directory.Instances.{run-Spares}
use correlation.Examples.Values.{local_ip, differs}

abbrev ab : Text
ab = codes "AB"

abbrev directory : Text
directory = codes "/c"

unfoldable key_of_ab : Text
key_of_ab = path_join directory ab

abbrev only : Option Text → List Node
only none = []
only (some v) = record { key = key_of_ab; value = v } ∷ []

abbrev small : KeysApi
small = record {
  Store = Option Text;
  Watcher = ℕ;
  get = λ st dir. if text_eq dir directory then ok (some (only st)) else err (codes "not found");
  set = λ st key value ttl.
      if text_eq key_of_ab key then (some value, none) else (st, some (codes "full"));
  delete = λ st key. if text_eq key_of_ab key then (none, none) else (st, some (codes "not found"));
  new_watcher = λ dir. 0;
  next = λ n. (n, none);
}

abbrev value : Option Text → Text → Option Text
value st key = if text_eq key_of_ab key then st else none

ab-IsName : IsName ab
unfolding text_eq
ab-IsName = record {
  full = differs ab [] refl;
  single = ground arith;
  no_dot = differs ab dot refl;
  no_dot_dot = differs ab dot_dot refl;
}

small_set :
    (st : Option Text) (key v : Text) (ttl : ℕ)
    → ((k : Text)
        → value (small.set st key v ttl).0 k ≡ (if text_eq key k then some v else value st k))
      ⊎ (((e : Text) × ((small.set st key v ttl).1 ≡ some e))
          × ((k : Text) → value (small.set st key v ttl).0 k ≡ value st k))
small_set st key v ttl = elim (Bool-cases (text_eq key_of_ab key)) [
  | inl e ↦ inl (λ k. rw (e, ← (text_eq_iff key_of_ab key).0 e) (same (text_eq key_of_ab k)))
  | inr e ↦ inr ((codes "full", rw e), λ k. rw e)
]
  where
    same :
        (c : Bool) → (if c then some v else none) ≡ (if c then some v else if c then st else none)
    same true = refl
    same false = refl

small_delete :
    (st : Option Text) (key : Text)
    → ((k : Text) → value (small.delete st key).0 k ≡ (if text_eq key k then none else value st k))
      ⊎ (((e : Text) × ((small.delete st key).1 ≡ some e))
          × ((k : Text) → value (small.delete st key).0 k ≡ value st k))
small_delete st key = elim (Bool-cases (text_eq key_of_ab key)) [
  | inl e ↦ inl (λ k. rw (e, ← (text_eq_iff key_of_ab key).0 e) (same (text_eq key_of_ab k) none))
  | inr e ↦ inr ((codes "not found", rw e), λ k. rw e)
]
  where
    same :
        (c : Bool) (w : Option Text) → (if c then w else w) ≡ (if c then w else if c then st else w)
    same true w = refl
    same false w = refl

abbrev IsListed : Option Text → Text → Node → Type 0
IsListed st dir n =
    (name : Text) × IsName name × (n.key ≡ path_join dir name) × (value st n.key ≡ some n.value)

only-IsListed : (st : Option Text) → All (IsListed st directory) (only st)
unfolding key_of_ab
only-IsListed none = tt
only-IsListed (some v) = (((ab, ab-IsName, refl, rw (text_eq_refl key_of_ab)), tt))

answered : (a b : List Node) → ok (some a) ≡ ok (some b) → a ≡ b
answered a b h = cc

not_found : (x : Text) (ns : List Node) → err x ≢ ok (some ns)
not_found x ns h = cc

small_answer :
    (st : Option Text) (dir : Text) (ns : List Node)
    → small.get st dir ≡ ok (some ns)
    → (dir ≡ directory) × (only st ≡ ns)
small_answer st dir ns h = elim (Bool-cases (text_eq dir directory)) [
  | inl e ↦ ((text_eq_iff dir directory).0 e, answered _ _ (rw e at h))
  | inr e ↦ absurd (not_found _ ns (rw e at h))
]

small_complete :
    (st : Option Text) (name v : Text)
    → value st (path_join directory name) ≡ some v
    → Any (λ n. n ≡ record { key = path_join directory name; value = v }) (only st)
small_complete st name v h = elim (Bool-cases (text_eq key_of_ab (path_join directory name))) [
  | inr e ↦ absurd (none_there (rw e at h))
  | inl e ↦ rw (← (text_eq_iff key_of_ab (path_join directory name)).0 e) (there st (rw e at h))
]
  where
    none_there : none ≢ some v
    none_there q = cc

    there :
        (st : Option Text)
        → st ≡ some v
        → Any (λ n. n ≡ record { key = key_of_ab; value = v }) (only st)
    there none q = absurd (none_there q)
    there (some w) q = inl (ap (λ x. record { key = key_of_ab; value = x }) (some_same w q))
      where
        some_same : (w : Text) → some w ≡ some v → w ≡ v
        some_same w q = cc

small-IsKeyValue : IsKeyValue small
small-IsKeyValue = record {
  value = value;
  after_set = small_set;
  after_delete = small_delete;
  listed = λ st dir ns h.
      let (e, same) = small_answer st dir ns h in
      subst (λ d. All (IsListed st d) ns) (sym e)
        (subst (All (IsListed st directory)) same (only-IsListed st));
  complete = λ st dir name v ns proper shown h there.
      let (e, same) = small_answer st dir ns h in
      subst (λ ns. Any (λ n. n ≡ record { key = path_join dir name; value = v }) ns) same
        (subst (λ d. Any (λ n. n ≡ record { key = path_join d name; value = v }) (only st)) (sym e)
          (small_complete st name v (subst (λ d. value st (path_join d name) ≡ some v) e there)));
}

-- a backend that announces nothing
abbrev quiet : EtcdBackend small
quiet = record {
  watcher = none;
  devices_key = directory;
  recent_watch_errors = 0;
  announce_started = false;
  announce_device_id = [];
  announce_address = [];
}

abbrev calls : List (EtcdOp small)
calls =
    call_announce ab (announce_address local_ip (pos 22000))
    ∷ loop_round
    ∷ call_watch
    ∷ call_un_announce
    ∷ []

abbrev ef : Text
ef = codes "EF"

ef-IsName : IsName ef
unfolding text_eq
ef-IsName = record {
  full = differs ef [] refl;
  single = ground arith;
  no_dot = differs ef dot refl;
  no_dot_dot = differs ef dot_dot refl;
}

abbrev listed : DeviceRegistrations
listed = record { id = ab; ip = local_ip; port = pos 22000 } ∷ []

get_devices-view_example :
    (Any (λ e. e ≡ record { id = ab; ip = local_ip; port = pos 22000 }) listed
      → HasEntry
          (view small small-IsKeyValue quiet
            (some (announce_address local_ip (pos 22000)))).directory
          (record { id = ab; ip = local_ip; port = pos 22000 }))
    × (IsShown ab
        → HasEntry
            (view small small-IsKeyValue quiet
              (some (announce_address local_ip (pos 22000)))).directory
            (record { id = ab; ip = local_ip; port = pos 22000 })
        → Any (λ e. e ≡ record { id = ab; ip = local_ip; port = pos 22000 }) listed)
unfolding get_devices key_of_ab text_eq parse_device_info split announce_address join_host_port itoa
    atoi base path_join join
get_devices-view_example =
    get_devices-view small small-IsKeyValue quiet (some (announce_address local_ip (pos 22000)))
      (only (some (announce_address local_ip (pos 22000)))) listed refl refl
      (record { id = ab; ip = local_ip; port = pos 22000 })

-- a backend that has announced the device "AB"
abbrev loud : EtcdBackend small
loud = record quiet {
  announce_started = true;
  announce_device_id = ab;
  announce_address = announce_address local_ip (pos 22000);
}

un_announced_not_found_example : All (λ (d : DeviceRegistration). d.id ≢ ab) []
unfolding un_announce run get_devices key_of_ab text_eq path_join join split
un_announced_not_found_example =
    un_announced_not_found small small-IsKeyValue (loop_round ∷ call_watch ∷ []) loud quiet
      (some (announce_address local_ip (pos 22000))) [] [] ab-IsName refl (refl, (refl, tt)) refl
      refl refl
