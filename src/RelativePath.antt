-- ===== src/RelativePath.antt =====
-- service/watcher.go, relativePath, expandTilde and getHomeDir: the path of a change below the folder.
-- The environment variable HOME is an argument, and the system is not Windows.
use correlation.Base.{
  Text, [], ◌∷◌, ◌++◌, not, ◌==◌, if◌then◌else◌, has_prefix, trim_prefix, text_eq, ◌≡◌, refl, ap,
  ◌∙◌, trim_prefix-append,
}
use correlation.Base.{drop}
use correlation.Paths.{path_join, slash}

abbrev pub tilde : Text
tilde = b'~' ∷ []

-- getHomeDir
unfoldable pub get_home_dir : Text → Text
get_home_dir home_variable = home_variable

-- expandTilde; filepath.FromSlash changes nothing where the separator is a slash
unfoldable pub expand_tilde : Text → Text → Text
unfolding get_home_dir
expand_tilde home p =
    if text_eq p tilde
    then get_home_dir home
    else if not (has_prefix p (b'~' ∷ slash ∷ []))
    then p
    else path_join (get_home_dir home) (drop 2 p)

abbrev without_slash : Text → Text
without_slash [] = []
without_slash (c ∷ s) = if c == slash then s else c ∷ s

-- relativePath
unfoldable pub relative_path : Text → Text → Text → Text
unfolding expand_tilde
relative_path home path folder_path =
    without_slash (trim_prefix (expand_tilde home path) folder_path)

-- a path that does not begin with a tilde
expand_tilde_absolute : (home s : Text) → expand_tilde home (slash ∷ s) ≡ slash ∷ s
unfolding expand_tilde has_prefix text_eq
expand_tilde_absolute home s = refl

-- Below an absolute folder, the relative path of a name is the name.
pub relative_path_below :
    (home folder name : Text)
    → relative_path home ((slash ∷ folder) ++ slash ∷ name) (slash ∷ folder) ≡ name
unfolding relative_path
relative_path_below home folder name = ap without_slash (
    ap (λ p. trim_prefix p (slash ∷ folder)) (expand_tilde_absolute home (folder ++ slash ∷ name))
    ∙ trim_prefix-append (slash ∷ folder) (slash ∷ name))
