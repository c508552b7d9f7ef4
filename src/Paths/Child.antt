-- ===== src/Paths/Child.antt =====
-- A name that is joined to a path is the last element of the result.
use mathlib.Core.List.{reverse, reverse-cons}
use correlation.Base.{
  Text, List, [], ◌∷◌, ◌++◌, Bool, true, false, some, ◌≡◌, ◌≢◌, refl, sym, ap, ◌∙◌, append_assoc,
  Lacks, text_ne,
}
use correlation.Strings.{split, join}
use correlation.Strings.Parts.{split-append, split-append_any, split-Lacks}
use correlation.Paths.{
  slash, dot, dot_dot, is_rooted, push_element, push_elements, spell, clean, path_join,
  last_element, base,
}

-- A single path element: not empty, no slash, and neither "." nor "..".
pub record IsName (e : Text) : Type 0 where
  pub full : e ≢ []
  pub single : Lacks slash e
  pub no_dot : e ≢ dot
  pub no_dot_dot : e ≢ dot_dot

push_element-name :
    (rooted : Bool) (es : List Text) (e : Text) → IsName e → push_element rooted es e ≡ e ∷ es
unfolding push_element
push_element-name rooted es e h =
    rw (text_ne e [] h.full, text_ne e dot h.no_dot, text_ne e dot_dot h.no_dot_dot)

push_elements-append :
    (rooted : Bool) (es l m : List Text)
    → push_elements rooted es (l ++ m) ≡ push_elements rooted (push_elements rooted es l) m
unfolding push_elements
push_elements-append rooted es [] m = refl
push_elements-append rooted es (e ∷ l) m =
    push_elements-append rooted (push_element rooted es e) l m

last_element-concat : (es : List Text) (e : Text) → e ≢ [] → last_element (es ++ e ∷ []) ≡ some e
unfolding last_element
last_element-concat [] e h = rw (text_ne e [] h)
last_element-concat (d ∷ es) e h = rw (last_element-concat es e h, last_element)

-- what is joined behind a list of elements ends in a slash and the name
split-join_last :
    (es : List Text) (e : Text)
    → Lacks slash e
    → (l : List Text) × (split slash (join slash (es ++ e ∷ [])) ≡ l ++ e ∷ [])
unfolding join
split-join_last [] e h = ([], split-Lacks slash e h)
split-join_last (d ∷ []) e h =
    (split slash d, split-append_any slash d e ∙ ap (◌++◌ (split slash d)) (split-Lacks slash e h))
split-join_last (d ∷ d' ∷ es) e h =
    let (l, p) = split-join_last (d' ∷ es) e h in
    (
      split slash d ++ l,
      split-append_any slash d _
          ∙ ap (◌++◌ (split slash d)) p
          ∙ sym (append_assoc (split slash d) l (e ∷ [])),
    )

spell-split :
    (rooted : Bool) (es : List Text) (e : Text)
    → Lacks slash e
    → (l : List Text) × (split slash (spell rooted (es ++ e ∷ [])) ≡ l ++ e ∷ [])
spell-split true es e h =
    let (l, p) = split-join_last es e h in
    ([] ∷ l, split-append slash [] (join slash (es ++ e ∷ [])) tt ∙ ap (◌∷◌ []) p)
spell-split false [] e h = split-join_last [] e h
spell-split false (d ∷ es) e h = split-join_last (d ∷ es) e h

-- A path that ends in a name is clean up to it.
split-clean :
    (s name : Text) (l : List Text)
    → IsName name
    → split slash s ≡ l ++ name ∷ []
    → (m : List Text) × (split slash (clean s) ≡ m ++ name ∷ [])
unfolding clean
split-clean s name l h e =
    let es = push_elements (is_rooted s) [] l in
    let elements : push_elements (is_rooted s) [] (split slash s) ≡ name ∷ es =
      rw (e, push_elements-append (is_rooted s) [] l (name ∷ []))
        (unfold push_elements in push_element-name (is_rooted s) es name h) in
    rw (elements, reverse-cons name es) (spell-split (is_rooted s) (reverse es) name h.single)

nil_of_concat : (l : List Text) (e : Text) → l ++ e ∷ [] ≡ [] ∷ [] → e ≡ []
nil_of_concat [] e p = cc
nil_of_concat (x ∷ []) e p = cc
nil_of_concat (x ∷ y ∷ l) e p = cc

base_of_split : (s e : Text) (l : List Text) → e ≢ [] → split slash s ≡ l ++ e ∷ [] → base s ≡ e
unfolding base
base_of_split [] e l h p = absurd (h (nil_of_concat l e (sym p ∙ unfold split in refl)))
base_of_split (c ∷ s) e l h p = rw (p, base, last_element-concat l e h)

-- The last element of a path to which a name was joined is the name.
pub base-path_join : (s name : Text) → IsName name → base (path_join s name) ≡ name
unfolding path_join
base-path_join s [] h = absurd (h.full refl)
base-path_join [] (c ∷ t) h =
    let (m, p) = split-clean (c ∷ t) (c ∷ t) [] h (split-Lacks slash (c ∷ t) h.single) in
    base_of_split _ (c ∷ t) m h.full p
base-path_join (d ∷ s) (c ∷ t) h =
    let (m, p) = split-clean ((d ∷ s) ++ slash ∷ c ∷ t) (c ∷ t) (split slash (d ∷ s)) h (
      split-append_any slash (d ∷ s) (c ∷ t)
      ∙ ap (◌++◌ (split slash (d ∷ s))) (split-Lacks slash (c ∷ t) h.single)) in
    base_of_split _ (c ∷ t) m h.full p
