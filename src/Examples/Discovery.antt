-- ===== src/Examples/Discovery.antt =====
-- Two instances on one etcd.
use correlation.Base.{Text, codes, List, [], ◌∷◌, Result, ok, err}

abbrev pub attempts : List (Result Text)
attempts = err (codes "refused") ∷ ok (codes "AB") ∷ []
