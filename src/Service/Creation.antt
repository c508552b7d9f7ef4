-- ===== src/Service/Creation.antt =====
-- Which configurations make a service.
use correlation.Base.{
  is_empty, Text, List, [], ◌≡◌, ◌≢◌, refl, sym, ap, ◌∙◌, arith, false, Option, none, Result, ok,
  err, ◌>>◌, ℤ, pos,
}
use mathlib.Core.Path.{subst}
use correlation.Service.{
  ServiceConfig, Service, is_zero, with_defaults, check_input, generate_args, generate_config,
  new_service, create,
}

-- A configuration with which a service can run.
pub record IsComplete (c : ServiceConfig) : Type 0 where
  pub ip : c.announce_ip ≢ []
  pub port : c.announce_port ≢ pos 0
  pub dir : c.sync_dir ≢ []
  pub home : c.config_dir ≢ []
  pub path : c.syncthing_path ≢ []

check_input_sound :
    (c : ServiceConfig)
    → check_input c ≡ ok tt
    → (is_empty c.announce_ip ≡ false)
      × (is_zero c.announce_port ≡ false)
      × (is_empty c.sync_dir ≡ false)
      × (is_empty c.config_dir ≡ false)
unfolding check_input
check_input_sound c h = ground arith

full_of : (s : Text) → is_empty s ≡ false → s ≢ []
full_of s h e = ground arith

not_zero : (z : ℤ) → is_zero z ≡ false → z ≢ pos 0
not_zero z h e = ground arith

seq_ok :
    {A : Type 0} (m : Result (Unit {0})) (k : Result A) (a : A)
    → (m >> k) ≡ ok a
    → (m ≡ ok tt) × (k ≡ ok a)
seq_ok (ok tt) k a h = (refl, h)
seq_ok (err e) k a h = absurd (impossible h)
  where
    impossible : err e ≡ ok a → ⊥
    impossible q = cc

new_service_steps :
    (run_command : Text → List Text → Option Text) (api_key : Text) (config : ServiceConfig)
    → new_service run_command api_key config ≡ (
        check_input (with_defaults config)
        >> (generate_config run_command (with_defaults config) api_key
            >> ok (create (with_defaults config) api_key)))
unfolding new_service
new_service_steps run_command api_key config = refl

generate_config_ok :
    (run_command : Text → List Text → Option Text) (c : ServiceConfig) (api_key : Text)
    → generate_config run_command c api_key ≡ ok tt
    → run_command c.syncthing_path (generate_args c api_key) ≡ none
unfolding generate_config
generate_config_ok run_command c api_key h = ground arith

default_path : (config : ServiceConfig) → (with_defaults config).syncthing_path ≢ []
unfolding with_defaults
default_path config h = ground arith

IsComplete-of_checked :
    (config : ServiceConfig)
    → check_input (with_defaults config) ≡ ok tt
    → IsComplete (with_defaults config)
IsComplete-of_checked config h =
    let (ip, port, dir, home) = check_input_sound (with_defaults config) h in
    record {
      ip = full_of _ ip;
      port = not_zero _ port;
      dir = full_of _ dir;
      home = full_of _ home;
      path = default_path config;
    }

same_service : (s t : Service) → ok s ≡ ok t → s ≡ t
same_service s t h = cc

-- If NewService returns a service, its configuration is the given one with the defaults, it is complete,
-- and the run of syncthing that generates the configuration of syncthing has succeeded.
pub new_service-IsComplete :
    (run_command : Text → List Text → Option Text) (api_key : Text) (config : ServiceConfig)
    (s : Service)
    → new_service run_command api_key config ≡ ok s
    → IsComplete s.config
      × (s.config ≡ with_defaults config)
      × (run_command s.config.syncthing_path (generate_args s.config api_key) ≡ none)
new_service-IsComplete run_command api_key config s h =
    let c = with_defaults config in
    let (checked, rest) =
      seq_ok (check_input c) _ s (sym (new_service_steps run_command api_key config) ∙ h) in
    let (generated, made) = seq_ok (generate_config run_command c api_key) _ s rest in
    let same : c ≡ s.config =
      ap (λ (x : Service). x.config) (same_service (create c api_key) s made) in
    (
      subst IsComplete same (IsComplete-of_checked config checked),
      sym same,
      subst (λ (x : ServiceConfig). run_command x.syncthing_path (generate_args x api_key) ≡ none)
          same (generate_config_ok run_command c api_key generated),
    )

-- A new service has not updated syncthing.
pub new_service-fresh :
    (run_command : Text → List Text → Option Text) (api_key : Text) (config : ServiceConfig)
    (s : Service)
    → new_service run_command api_key config ≡ ok s
    → s.last_devices ≡ []
new_service-fresh run_command api_key config s h =
    let c = with_defaults config in
    let (checked, rest) =
      seq_ok (check_input c) _ s (sym (new_service_steps run_command api_key config) ∙ h) in
    let (generated, made) = seq_ok (generate_config run_command c api_key) _ s rest in
    sym (ap (λ (x : Service). x.last_devices) (same_service (create c api_key) s made))
