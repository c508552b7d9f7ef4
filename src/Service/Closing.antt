-- ===== src/Service/Closing.antt =====
-- service/service.go: close, exitProcess and listenSignals, and Watcher.Close (service/watcher.go).
-- Each signal starts a goroutine that runs `close`. What it does is a list of effects.
use correlation.Base.{
  ℕ, ◌+◌, ◌%◌, ◌^◌, List, [], ◌∷◌, ◌++◌, Bool, true, false, leb, if◌then◌else◌, Option, none, some,
}

pub data Effect : Type 0 where
  unannounce close_watcher shutdown wait exit blocked : Effect

abbrev u32 : ℕ → ℕ
u32 n = n % 2 ^ 32

-- exitProcess
unfoldable pub exit_process : List Effect
exit_process = exit ∷ []

-- Watcher.Close sends on a channel that only a watcher that runs receives from. `none` is a service without
-- a watcher. Otherwise the value says whether the watcher runs when Close sends, or at some time from then
-- on: an update that is in progress may still start it. What follows in `close` is reached only then.
unfoldable pub close_watcher_then : Option Bool → List Effect → List Effect
close_watcher_then none rest = rest
close_watcher_then (some true) rest = close_watcher ∷ rest
close_watcher_then (some false) rest = blocked ∷ []

-- close, on signalCounter and what becomes of the watcher: the counter behind it, and its effects
unfoldable pub close : ℕ → Option Bool → ℕ × List Effect
unfolding exit_process close_watcher_then
close signals watcher =
    let n = u32 (signals + 1) in
    (
      n,
      if leb 2 n
          then exit_process
          else unannounce ∷ close_watcher_then watcher (shutdown ∷ wait ∷ exit_process),
    )

-- The signals that listenSignals receives, each with what becomes of the watcher from then on.
unfoldable pub listen_signals : List (Option Bool) → ℕ → ℕ × List Effect
unfolding close
listen_signals [] signals = (signals, [])
listen_signals (watcher ∷ later) signals =
    let (m, effects) = close signals watcher in
    let (last, rest) = listen_signals later m in (last, effects ++ rest)
