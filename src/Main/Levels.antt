-- ===== src/Main/Levels.antt =====
-- main.go, setLogLevel: which level a logger ends up with.
use correlation.Base.{
  Text, [], ◌∷◌, ◌≡◌, sym, ap, ◌∙◌, Option, none, some, arith, ok, err, Map, text_eq, if◌then◌else◌,
  is_empty, Option-cases, inl, inr,
}
use correlation.Main.{
  GlobalOptions, set_log_level, set_log_levels, backend_log_name, service_log_name,
  watcher_log_name,
}
use correlation.Main.Run.{bind_ok, same_ok}

-- logging.SetLevel for each in turn: the last one for a logger is in force
unfoldable pub level_of : Map Text → Text → Option Text
level_of [] name = none
level_of ((logger, level) ∷ levels) name = elim (level_of levels name) [
  | some l ↦ some l
  | none ↦ if text_eq logger name then some level else none
]

-- the level that is meant
abbrev pub or_default : Text → Text → Text
or_default level default_level = if is_empty level then default_level else level

set_log_level_ok :
    (level_error : Text → Option Text) (level default_level name : Text) (p : Text × Text)
    → set_log_level level_error level default_level name ≡ ok p
    → (name, or_default level default_level) ≡ p
unfolding set_log_level
set_log_level_ok level_error level default_level name p h =
    elim (Option-cases (level_error (or_default level default_level))) [
      | inl e ↦ same_ok _ p (rw (e, set_log_level) at h)
      | inr (x, e) ↦ absurd (impossible _ (rw (e, set_log_level) at h))
    ]
  where
    impossible : (x : Text) → err x ≡ ok p → ⊥
    impossible x q = cc

level_of_three :
    (b s w name : Text)
    → level_of ((backend_log_name, b) ∷ (service_log_name, s) ∷ (watcher_log_name, w) ∷ []) name ≡ (
        if text_eq watcher_log_name name
        then some w
        else if text_eq service_log_name name
        then some s
        else none)
unfolding level_of
level_of_three b s w name = ground arith

-- Once main has set the levels, the logger of the watcher has the level of its flag, and the logger
-- "service", which the backend shares with the service, has the level of the service's flag: that of the
-- backend's flag, although it must be valid, is in force nowhere.
pub level_of-set_log_levels :
    (level_error : Text → Option Text) (flags : GlobalOptions) (levels : Map Text) (name : Text)
    → set_log_levels level_error flags ≡ ok levels
    → level_of levels name ≡ (
        if text_eq watcher_log_name name
        then some (or_default flags.watcher_log_level flags.log_level)
        else if text_eq service_log_name name
        then some (or_default flags.service_log_level flags.log_level)
        else none)
unfolding set_log_levels
level_of-set_log_levels level_error flags levels name h =
    let (b, set_b, rest) =
      bind_ok (set_log_level level_error flags.backend_log_level flags.log_level backend_log_name) _
        levels h in
    let (s, set_s, more) =
      bind_ok (set_log_level level_error flags.service_log_level flags.log_level service_log_name) _
        levels rest in
    let (w, set_w, last) =
      bind_ok (set_log_level level_error flags.watcher_log_level flags.log_level watcher_log_name) _
        levels more in
    let same : ((backend_log_name, or_default flags.backend_log_level flags.log_level)
          ∷ (service_log_name, or_default flags.service_log_level flags.log_level)
          ∷ (watcher_log_name, or_default flags.watcher_log_level flags.log_level)
          ∷ [])
        ≡ levels =
      rw
        (
          set_log_level_ok level_error flags.backend_log_level flags.log_level backend_log_name b
              set_b,
          set_log_level_ok level_error flags.service_log_level flags.log_level service_log_name s
              set_s,
          set_log_level_ok level_error flags.watcher_log_level flags.log_level watcher_log_name w
              set_w,
        )
        (same_ok _ levels last) in
    ap (λ l. level_of l name) (sym same) ∙ level_of_three _ _ _ name
