-- ===== src/Examples/Etcd.antt =====
-- An etcd that keeps its keys in a list, and one whose watchers fail.
use correlation.Base.{
  has_prefix, ℕ, suc, Text, codes, List, [], ◌∷◌, ◌≡◌, refl, arith, ap, Any, inl, pos, Option, none,
  some, false, ok, text_eq, if◌then◌else◌,
}
use mathlib.Core.Path.{subst}
use correlation.Address.{announce_address}
use correlation.Paths.{path_join, dot, dot_dot}
use correlation.Paths.Child.{IsName}
use correlation.Etcd.{
  KeysApi, Node, EtcdBackend, call_announce, call_un_announce, loop_round, announce, un_announce,
  update_announce, run,
}
use correlation.Etcd.Registry.{KeepsKeys, IsShown}
use correlation.Etcd.Silence.{IsLive, un_announce_lasts, run-IsLive}
use correlation.Examples.Values.{local_ip, differs}

abbrev without : Text → List Node → List Node
without key [] = []
without key (n ∷ ns) = let rest = without key ns in if text_eq n.key key then rest else n ∷ rest

abbrev pub nodes : KeysApi
nodes = record {
  Store = List Node;
  Watcher = ℕ;
  get = λ st dir. ok (some st);
  set = λ st key value ttl. (record { key = key; value = value } ∷ st, none);
  delete = λ st key. (without key st, none);
  new_watcher = λ dir. 0;
  next = λ n. (suc n, some (codes "down"));
}

-- what is set is kept
pub nodes-KeepsKeys : KeepsKeys nodes
nodes-KeepsKeys = record {
  set_get = λ st dir name value ttl {st'} h shown e. (
    st',
    refl,
    subst (λ ns. Any (λ n. n ≡ record { key = path_join dir name; value = value }) ns)
        (ap (λ (p : List Node × Option Text). p.0) e) (inl refl),
  );
}

abbrev pub idle : EtcdBackend nodes
idle = record {
  watcher = none;
  devices_key = codes "/c";
  recent_watch_errors = 0;
  announce_started = false;
  announce_device_id = [];
  announce_address = [];
}

pub ab-IsName : IsName (codes "AB")
unfolding text_eq
ab-IsName = record {
  full = differs (codes "AB") [] refl;
  single = ground arith;
  no_dot = differs (codes "AB") dot refl;
  no_dot_dot = differs (codes "AB") dot_dot refl;
}

abbrev announced : Text
announced = announce_address local_ip (pos 22000)

abbrev stored : List Node
stored = (update_announce nodes (announce nodes (codes "AB") announced idle, [])).0

un_announce_lasts_example :
    (run nodes
      (loop_round ∷ call_un_announce ∷ loop_round ∷ [])
      (un_announce nodes (announce nodes (codes "AB") announced idle, stored))).1
    ≡ (un_announce nodes (announce nodes (codes "AB") announced idle, stored)).1
un_announce_lasts_example =
    un_announce_lasts nodes (loop_round ∷ call_un_announce ∷ loop_round ∷ [])
      (announce nodes (codes "AB") announced idle) stored (refl, (refl, (refl, tt)))

run-IsLive_example :
    IsLive nodes (run nodes (call_announce (codes "AB") announced ∷ loop_round ∷ []) (idle, [])).0
run-IsLive_example =
    run-IsLive nodes (call_announce (codes "AB") announced ∷ loop_round ∷ []) idle []
      (record { started = λ h. cc })

pub ab-IsShown : IsShown (codes "AB")
unfolding has_prefix
ab-IsShown = refl
