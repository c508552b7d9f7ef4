-- ===== src/Main/Exit.antt =====
-- main.go, Exitf, assert and assertArgIsSet, and what they use of the package fmt. A process that exits
-- is the text that it has printed; its exit code is 1.
use correlation.Base.{
  Text, codes, List, [], ◌∷◌, ◌++◌, Bool, true, false, ◌==◌, not, is_empty, if◌then◌else◌, Option,
  none, some, Result, ok, err,
}

-- fmt.Printf with the verbs %s and %#v. An argument is the text that its verb makes of it, and the flag is
-- whether a verb has begun.
unfoldable pub verbs : Bool → Text → List Text → Text
verbs begun [] args = []
verbs false (c ∷ s) args = elim (c == b'%') [
  | true ↦ verbs true s args
  | false ↦ c ∷ verbs false s args
]
verbs true (c ∷ s) args = elim (c == b'#') [
  | true ↦ verbs true s args
  | false ↦ elim args [
    | [] ↦ codes "%!" ++ c ∷ (codes "(MISSING)" ++ verbs false s [])
    | (a ∷ rest) ↦ a ++ verbs false s rest
  ]
]

unfoldable pub printf : Text → List Text → Text
unfolding verbs
printf format args = verbs false format args

-- strings.HasSuffix(s, "\n")
unfoldable pub ends_line : Text → Bool
ends_line [] = false
ends_line (c ∷ []) = c == 10
ends_line (c ∷ d ∷ s) = ends_line (d ∷ s)

-- Exitf: what it prints before os.Exit(1)
unfoldable pub exitf : Text → List Text → Text
unfolding printf ends_line
exitf format args =
    let line = if not (ends_line format) then format ++ 10 ∷ [] else format in
    printf line args ++ 10 ∷ []

-- an error that main gets ends the process
unfoldable pub or_exit : {A : Type 0} → Text → Result A → Result A
unfolding exitf
or_exit format (ok a) = ok a
or_exit format (err e) = err (exitf format (e ∷ []))

-- assert
unfoldable pub assert : Option Text → Result (Unit {0})
unfolding exitf
assert (some e) = err (exitf (codes "Assertion failed: %#v") (e ∷ []))
assert none = ok tt

-- assertArgIsSet
unfoldable pub assert_arg_is_set : Text → Text → Result (Unit {0})
unfolding exitf
assert_arg_is_set arg arg_key =
    if is_empty arg then err (exitf (codes "%s must be set" ++ 10 ∷ []) (arg_key ∷ [])) else ok tt
