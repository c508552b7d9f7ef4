-- ===== src/Main/Start/Found.antt =====
-- Instances that main has started find each other.
use correlation.Base.{
  Text, List, [], ◌∷◌, ◌≡◌, refl, sym, ap, ◌∙◌, true, false, Any, ◌⊎◌, inl, inr, none, Result, ok,
  Map,
}
use mathlib.Core.Path.{subst}
use mathlib.Core.List.{cons-ne-nil}
use correlation.Devices.{DeviceRegistration, DeviceRegistrations, list_full_string}
use correlation.Etcd.{KeysApi}
use correlation.Etcd.Registry.{KeepsKeys}
use correlation.K8s.{Cluster}
use correlation.K8s.Announcing.{KeepsPods}
use correlation.Service.{Service}
use correlation.Service.Update.{Syncthing, Calls, update_syncthing}
use correlation.Service.Discovery.{own_device, announce_me, Running}
use correlation.Service.Discovery
use correlation.Service.Discovery.Found.{Lists, peer_finds}
use correlation.Main.{
  GlobalOptions, parse_arguments, get_kubernetes_namespace, use_kubernetes, label_selection_value,
}
use correlation.Main.Prepare.{Backend, kubernetes, etcd, Prepared, cmd_main_run}
use correlation.Main.Run.{
  bind_ok, same_ok, IsPrepared, IsOn, is_kubernetes, cmd_main_run-IsPrepared,
}
use correlation.Main.Start.{
  Launch, World, chosen, Started, main_run, Publishes, IsPeer, chosen-IsRegistry,
}

full_fingerprint :
    (ds : DeviceRegistrations) (d : DeviceRegistration)
    → Any (λ e. e ≡ d) ds
    → list_full_string ds ≡ []
    → ⊥
unfolding list_full_string
full_fingerprint [] d at h = absurd at
full_fingerprint (e ∷ ds) d at h = cons-ne-nil _ _ h

-- Instances of one group: both in Kubernetes or both outside, in the same namespace, on the same path.
pub record IsGroup {k : Cluster} (l l' : Launch k) : Type 0 where
  pub parsed : GlobalOptions
  pub parsed' : GlobalOptions
  pub reads : parse_arguments l.parse_url l.flags ≡ ok parsed
  pub reads' : parse_arguments l'.parse_url l'.flags ≡ ok parsed'
  pub namespace :
      get_kubernetes_namespace l.namespace_file ≡ get_kubernetes_namespace l'.namespace_file
  pub path : parsed.etcd_path ≡ parsed'.etcd_path
  pub kind :
      use_kubernetes l.environment
        (get_kubernetes_namespace l.namespace_file)
        parsed.kubernetes_pod_name
      ≡ use_kubernetes l'.environment
          (get_kubernetes_namespace l'.namespace_file)
          parsed'.kubernetes_pod_name

module _ (api : KeysApi) (k : Cluster) (sleep : k.State → k.State) where
  -- a receiver on the path of a peer is one
  pub IsPeer-trans :
      (b c d : Backend api k) (w : World api k sleep)
      → IsPeer api k sleep b c w
      → IsPeer api k sleep c d w
      → IsPeer api k sleep b d w
  IsPeer-trans (etcd b) (etcd c) (etcd d) w h h' = h ∙ h'
  IsPeer-trans (kubernetes b) (kubernetes c) (kubernetes d) (st, w) h h' = record {
    namespace = h.namespace ∙ h'.namespace;
    label = h.label ∙ h'.label;
    up_to_date = h'.up_to_date;
  }
  IsPeer-trans (etcd b) (etcd c) (kubernetes d) w h h' = absurd h'
  IsPeer-trans (etcd b) (kubernetes c) d w h h' = absurd h
  IsPeer-trans (kubernetes b) (etcd c) d w h h' = absurd h
  IsPeer-trans (kubernetes b) (kubernetes c) (etcd d) w h h' = absurd h'

  -- backends on the same path, as main has prepared them, are peers
  pub same_path :
      (namespace namespace' : Text) (flags flags' : GlobalOptions) (b c : Backend api k)
      (w : World api k sleep)
      → namespace ≡ namespace'
      → flags.etcd_path ≡ flags'.etcd_path
      → is_kubernetes api k b ≡ is_kubernetes api k c
      → IsOn api k namespace flags b
      → IsOn api k namespace' flags' c
      → IsPeer api k sleep b c w
  same_path n n' flags flags' (etcd b) (etcd c) w same path kind h h' = h ∙ path ∙ sym h'
  same_path n n' flags flags' (kubernetes b) (kubernetes c) (st, w) same path kind h h' = record {
    namespace = h.space ∙ same ∙ sym h'.space;
    label = h.selection ∙ ap label_selection_value path ∙ sym h'.selection;
    up_to_date = inl h'.nothing_stored;
  }
  same_path n n' flags flags' (etcd b) (kubernetes c) w same path kind h h' =
      absurd (impossible kind)
    where
      impossible : false ≡ true → ⊥
      impossible q = cc
  same_path n n' flags flags' (kubernetes b) (etcd c) w same path kind h h' =
      absurd (impossible kind)
    where
      impossible : true ≡ false → ⊥
      impossible q = cc

  module _ (y : Syncthing) (calls : Calls y) where
    abbrev pub prepare_launch : Launch k → Result (Map Text × Prepared api k)
    prepare_launch l =
        cmd_main_run api k l.outside l.environment l.namespace_file l.parse_url l.flags

    -- what main has started, and on what
    pub started :
        (l : Launch k) (st : y.State) (w : World api k sleep) (a : Started api k sleep y calls)
        → main_run api k sleep y calls l st w ≡ ok a
        → (prepare_launch l ≡ ok (a.levels, a.prepared))
          × (Discovery.run
                (chosen api k sleep)
                y
                calls
                l.attempts
                a.prepared.service
                st
                a.prepared.backend
                w
              ≡ a.running)
    unfolding main_run
    started l st w a h =
        let (p, made, rest) = bind_ok (prepare_launch l) _ a h in
        subst
          (λ (x : Started api k sleep y calls).
            (prepare_launch l ≡ ok (x.levels, x.prepared))
            × (Discovery.run (chosen api k sleep) y calls l.attempts x.prepared.service st
                  x.prepared.backend w
                ≡ x.running))
          (same_ok _ a rest) (made, refl)

    running_announced :
        (attempts : List (Result Text)) (s : Service) (st : y.State) (b : Backend api k)
        (w : World api k sleep)
        → let r = Discovery.run (chosen api k sleep) y calls attempts s st b w in
          (r.receiver, r.world) ≡ announce_me (chosen api k sleep) attempts s b w
    unfolding Discovery.run
    running_announced attempts s st b w = refl

    -- the receiver and the world behind Run
    pub announced :
        (l : Launch k) (st : y.State) (w : World api k sleep) (a : Started api k sleep y calls)
        → main_run api k sleep y calls l st w ≡ ok a
        → announce_me (chosen api k sleep) l.attempts a.prepared.service a.prepared.backend w
          ≡ (a.running.receiver, a.running.world)
    announced l st w a h =
        let (made, runs) = started l st w a h in
        sym (running_announced l.attempts a.prepared.service st a.prepared.backend w)
        ∙ ap (λ (r : Running (chosen api k sleep) y calls). (r.receiver, r.world)) runs

    -- the first list that a new service gets is new to it
    first_stored :
        (d : DeviceRegistration) (s : Service) (st : y.State) (ds : DeviceRegistrations)
        (keys : KeepsKeys api) (pods : KeepsPods k)
        → s.last_devices ≡ []
        → Any (λ e. e ≡ d) ds
        → (list_full_string ds ≡ s.last_devices)
          ⊎ Lists (chosen api k sleep) (chosen-IsRegistry api k sleep keys pods) y calls d s st ds
        → Lists (chosen api k sleep) (chosen-IsRegistry api k sleep keys pods) y calls d s st ds
    first_stored d s st ds keys pods fresh at (inl same) =
        absurd (full_fingerprint ds d at (same ∙ fresh))
    first_stored d s st ds keys pods fresh at (inr lists) = lists

    -- what main prepares for a launch whose flags are known
    pub launched :
        (l : Launch k) (parsed : GlobalOptions) (levels : Map Text) (p : Prepared api k)
        → parse_arguments l.parse_url l.flags ≡ ok parsed
        → prepare_launch l ≡ ok (levels, p)
        → IsPrepared api k l.environment (get_kubernetes_namespace l.namespace_file) parsed p
    launched l parsed levels p reads made =
        let (flags, read, is) =
          cmd_main_run-IsPrepared api k l.outside l.environment l.namespace_file l.parse_url l.flags
            levels p made in
        subst (λ f. IsPrepared api k l.environment (get_kubernetes_namespace l.namespace_file) f p)
          (same_ok flags parsed (sym read ∙ reads)) is

    -- When etcd and Kubernetes keep what is written, for two instances of one group that main has started:
    -- let the device that Run of the first has announced be published, and let the receiver of the second
    -- be on its path still, and, in Kubernetes, have stored no devices or those that are in the cluster, as
    -- it has after a return of Watch. If an update on what its Get returns then is the first of the service
    -- to succeed, it has stored a configuration in its syncthing which has a device with the same ID and
    -- the announced address.
    pub main_run_finds :
        (keys : KeepsKeys api) (pods : KeepsPods k) (l l' : Launch k) (st st' st2 : y.State)
        (w w' published : World api k sleep) (a b : Started api k sleep y calls) (c : Backend api k)
        → IsGroup l l'
        → main_run api k sleep y calls l st w ≡ ok a
        → main_run api k sleep y calls l' st' w' ≡ ok b
        → Publishes api k sleep
            (own_device l.attempts a.prepared.service)
            a.prepared.backend
            w
            (a.running.receiver, a.running.world)
            published
        → IsPeer api k sleep b.prepared.backend c published
        → (update_syncthing y calls
            ((chosen api k sleep).get c published).1
            b.prepared.service
            st2).2
          ≡ none
        → (ds : DeviceRegistrations) × (((chosen api k sleep).get c published).1 ≡ ok ds)
          × Lists
              (chosen api k sleep)
              (chosen-IsRegistry api k sleep keys pods)
              y
              calls
              (own_device l.attempts a.prepared.service)
              b.prepared.service
              st2
              ds
    main_run_finds keys pods l l' st st' st2 w w' published a b c g h h' through up_to_date
          success =
        let (made, runs) = started l st w a h in
        let (made', runs') = started l' st' w' b h' in
        let is = launched l g.parsed a.levels a.prepared g.reads made in
        let is' = launched l' g.parsed' b.levels b.prepared g.reads' made' in
        let peer =
          IsPeer-trans a.prepared.backend b.prepared.backend c published
            (same_path _ _ g.parsed g.parsed' a.prepared.backend b.prepared.backend published
              g.namespace g.path (is.kind ∙ g.kind ∙ sym is'.kind) is.on_path is'.on_path)
            up_to_date in
        let (ds, got, at, lists) =
          peer_finds (chosen api k sleep) (chosen-IsRegistry api k sleep keys pods) y calls
            l.attempts a.prepared.service b.prepared.service a.prepared.backend c w published st2
            (subst
              (λ p.
                Publishes api k sleep (own_device l.attempts a.prepared.service) a.prepared.backend
                  w p published)
              (sym (announced l st w a h)) through)
            peer success in
        (
          ds,
          got,
          first_stored (own_device l.attempts a.prepared.service) b.prepared.service st2 ds keys
              pods is'.fresh at lists,
        )
