-- ===== src/Paths.antt =====
-- The functions of Go's packages path and path/filepath that the program calls, on a system whose
-- separator is a slash. Clean works on the elements between the slashes, as its documentation says.
pub mod Child
use mathlib.Core.List.{reverse}
use correlation.Base.{
  ℕ, Text, codes, List, [], ◌∷◌, ◌++◌, Bool, true, false, ◌==◌, ◌||◌, ◌&&◌, if◌then◌else◌, not,
  Option, none, some, text_eq, ◌≡◌, refl,
}
use correlation.Strings.{split, join}

abbrev pub slash : ℕ
slash = b'/'

abbrev pub dot : Text
dot = b'.' ∷ []

abbrev pub dot_dot : Text
dot_dot = b'.' ∷ b'.' ∷ []

abbrev pub is_rooted : Text → Bool
is_rooted [] = false
is_rooted (c ∷ s) = c == slash

-- an element ".." takes one off, unless there is none that it can take
abbrev go_up : Bool → List Text → List Text
go_up rooted [] = if rooted then [] else dot_dot ∷ []
go_up rooted (e ∷ es) = if text_eq e dot_dot then dot_dot ∷ e ∷ es else es

-- one more element, on the elements so far, the last one first
unfoldable pub push_element : Bool → List Text → Text → List Text
push_element rooted es e =
    if text_eq e [] || text_eq e dot
    then es
    else if text_eq e dot_dot
    then go_up rooted es
    else e ∷ es

unfoldable pub push_elements : Bool → List Text → List Text → List Text
unfolding push_element
push_elements rooted es [] = es
push_elements rooted es (e ∷ todo) = push_elements rooted (push_element rooted es e) todo

-- the path that has these elements
abbrev pub spell : Bool → List Text → Text
spell true es = slash ∷ join slash es
spell false [] = dot
spell false (e ∷ es) = join slash (e ∷ es)

-- path.Clean, filepath.Clean
unfoldable pub clean : Text → Text
unfolding push_elements
clean s = spell (is_rooted s) (reverse (push_elements (is_rooted s) [] (split slash s)))

-- path.Join of two parts
unfoldable pub path_join : Text → Text → Text
unfolding clean
path_join [] [] = []
path_join [] (c ∷ t) = clean (c ∷ t)
path_join (c ∷ s) [] = clean (c ∷ s)
path_join (c ∷ s) (d ∷ t) = clean ((c ∷ s) ++ slash ∷ d ∷ t)

-- the last element that is not empty
unfoldable pub last_element : List Text → Option Text
last_element [] = none
last_element (e ∷ es) = elim (last_element es) [
  | some f ↦ some f
  | none ↦ if text_eq e [] then none else some e
]

-- path.Base
unfoldable pub base : Text → Text
unfolding last_element
base [] = dot
base (c ∷ s) = elim (last_element (split slash (c ∷ s))) [ none ↦ slash ∷ [] | some e ↦ e ]

-- the text up to the last slash, that included
unfoldable pub up_to_last_slash : Text → Text
up_to_last_slash [] = []
up_to_last_slash (c ∷ s) = elim (up_to_last_slash s) [
  | [] ↦ if c == slash then c ∷ [] else []
  | d ∷ t ↦ c ∷ d ∷ t
]

-- filepath.Dir
unfoldable pub dir : Text → Text
unfolding up_to_last_slash clean
dir s = clean (up_to_last_slash s)

clean_example : clean (codes "a//b/./../c/") ≡ codes "a/c"
unfolding clean split join text_eq
clean_example = refl

clean_up : clean (codes "../../a/..") ≡ codes "../.."
unfolding clean split join text_eq
clean_up = refl

clean_root : clean (codes "/../a") ≡ codes "/a"
unfolding clean split join text_eq
clean_root = refl

base_example : base (codes "/pulcy/correlation/dev-1/") ≡ codes "dev-1"
unfolding base split text_eq
base_example = refl

dir_example : (dir (codes "a/b/c") ≡ codes "a/b") × (dir (codes "abc") ≡ codes ".")
unfolding dir split join text_eq
dir_example = (refl, refl)
