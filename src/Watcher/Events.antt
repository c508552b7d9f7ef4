-- ===== src/Watcher/Events.antt =====
-- Which changes of a folder are handed on.
use correlation.Base.{
  Text, List, [], ◌∷◌, ◌++◌, map, ◌≡◌, refl, ◌∙◌, ap, Bool, true, false, if◌then◌else◌, none, some,
}
use correlation.Paths.{slash}
use correlation.RelativePath.{relative_path_below}
use correlation.Watcher.{sent, on_event, on_events, new_watcher, watch_folder}

-- the names that are not ignored, in order
pub kept : (Text → Bool) → List Text → List Text
kept is_ignored [] = []
kept is_ignored (n ∷ ns) = let rest = kept is_ignored ns in if is_ignored n then rest else n ∷ rest

-- the absolute paths of names below a folder
abbrev pub below : Text → List Text → List Text
below folder names = map (λ n. (slash ∷ folder) ++ slash ∷ n) names

sent_either :
    (is_ignored : Text → Bool) (path n : Text) (rest : List Text)
    → path ≡ n
    → sent (if is_ignored path then none else some path) rest
      ≡ (if is_ignored n then rest else n ∷ rest)
sent_either is_ignored path n rest e = rw e (by_cases (is_ignored n))
  where
    by_cases : (b : Bool) → sent (if b then none else some n) rest ≡ (if b then rest else n ∷ rest)
    by_cases true = refl
    by_cases false = refl

on_events-kept :
    (is_ignored : Text → Bool) (home folder : Text) (names : List Text)
    → on_events is_ignored home (slash ∷ folder) (below folder names) ≡ kept is_ignored names
unfolding on_events on_event kept
on_events-kept is_ignored home folder [] = refl
on_events-kept is_ignored home folder (n ∷ ns) =
    sent_either is_ignored _ n _ (relative_path_below home folder n)
    ∙ ap (λ rest. if is_ignored n then rest else n ∷ rest)
        (on_events-kept is_ignored home folder ns)

-- For a watcher of an absolute folder, when the folder can be watched, the changes of paths below the
-- folder that are handed on are those that are not ignored, in order, each as its path below the folder.
pub watch_folder-below :
    (is_ignored : Text → Bool) (home id folder : Text) (names : List Text)
    → watch_folder none is_ignored home (new_watcher id (slash ∷ folder)) (below folder names)
      ≡ kept is_ignored names
unfolding watch_folder new_watcher
watch_folder-below is_ignored home id folder names = on_events-kept is_ignored home folder names
