-- ===== src/K8s/Registered.antt =====
-- The Kubernetes backend as a Backend.
use correlation.Base.{
  ℕ, ◌<◌, Text, [], ◌≡◌, ◌≢◌, refl, ◌⊎◌, inl, inr, ◌∷◌, sym, ap, ◌∙◌, Option, none, some, Result,
  ok,
}
use correlation.Backend.{Backend, IsRegistry}
use correlation.Devices.{DeviceRegistration, DeviceRegistrations}
use correlation.Address.{IsPlainHost}
use correlation.Strconv.RoundTrip.{FitsInt}
use correlation.K8s.{
  Cluster, K8sBackend, watch, fetch, get_devices, get_or_fetch, store_last, announce, un_announce,
  update_announce_once, max_attempts,
}
use correlation.K8s.Announcing.{KeepsPods, fetch-announce}
use correlation.K8s.Retries.{found}

module _ (k : Cluster) (sleep : k.State → k.State) where
  abbrev returned : Option K8sBackend → Option (K8sBackend × Result (Unit {0}))
  returned none = none
  returned (some b) = some (b, ok tt)

  -- Announce of the Kubernetes backend changes the world itself; `sleep` is what happens to it during the
  -- sleeps of the retries.
  abbrev pub k8s_registry : Backend
  k8s_registry = record {
    Receiver = K8sBackend;
    World = k.State;
    watch = λ b sts. returned (watch k b sts);
    get = λ b st. get_devices k b st;
    announce = λ id address b st. (b, announce k sleep b id address st);
    un_announce = λ b st. (b, un_announce k sleep b st);
  }

  -- One of the attempts of Announce succeeds, for a device with a proper address whose JSON is read back.
  pub record Registers (d : DeviceRegistration) (b : K8sBackend) (st after st' : k.State)
      : Type 0 where
    pub raw : Text
    pub attempt : ℕ
    pub full : d.id ≢ []
    pub plain : IsPlainHost d.ip
    pub fits : FitsInt d.port
    pub written : k.marshal d ≡ ok raw
    pub some_text : raw ≢ []
    pub read : k.unmarshal raw ≡ some d
    pub in_time : attempt < max_attempts k
    pub succeeds : (update_announce_once k b raw (found k sleep b raw attempt st)).1 ≡ none
    pub left : st' ≡ after

  -- A receiver of the group that is up to date: it has stored no devices, or those that are in the cluster.
  pub record Reads (b c : K8sBackend) (st : k.State) : Type 0 where
    pub namespace : b.namespace ≡ c.namespace
    pub label : b.label_selection_value ≡ c.label_selection_value
    pub up_to_date : (c.last ≡ []) ⊎ (fetch k c st ≡ ok c.last)

  peer_fetches : (b c : K8sBackend) (st : k.State) → Reads b c st → fetch k b st ≡ fetch k c st
  unfolding fetch
  peer_fetches b c st h = rw (h.namespace, h.label)

  -- what a receiver gets that has stored what is in the cluster
  get_last :
      (c : K8sBackend) (st : k.State) (l : DeviceRegistrations)
      → c.last ≡ l
      → fetch k c st ≡ ok c.last
      → (get_or_fetch k c st l).1 ≡ ok c.last
  get_last c st [] same h = ap (λ r. (store_last k c r).1) h
  get_last c st (reg ∷ regs) same h = ap ok (sym same)

  -- what a receiver of the group gets
  pub Reads-cluster :
      (b c : K8sBackend) (st : k.State) (ds : DeviceRegistrations)
      → Reads b c st
      → fetch k b st ≡ ok ds
      → (get_devices k c st).1 ≡ ok ds
  unfolding get_devices
  Reads-cluster b c st ds h e = elim h.up_to_date [
    | inl empty ↦
        ap (λ l. (get_or_fetch k c st l).1) empty
        ∙ ap (λ r. (store_last k c r).1) (sym (peer_fetches b c st h) ∙ e)
    | inr stored ↦ get_last c st c.last refl stored ∙ (sym stored ∙ sym (peer_fetches b c st h) ∙ e)
  ]

  -- When the client does what it documents, the Kubernetes backend is a registry.
  abbrev pub k8s_registry-IsRegistry : KeepsPods k → IsRegistry k8s_registry
  k8s_registry-IsRegistry laws = record {
    Publishes = λ d b st p st'. Registers d b st p.1 st';
    IsPeer = Reads;
    found = λ d b c st st' h peer.
        let (ds, got, at) =
          fetch-announce k laws b sleep d.id d.ip h.raw d.port st h.attempt h.full h.plain h.fits
            h.written h.some_text h.read h.in_time h.succeeds in
        (ds, Reads-cluster b c st' ds peer (ap (fetch k b) h.left ∙ got), at);
  }
