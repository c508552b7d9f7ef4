-- ===== src/Main/Selection.antt =====
-- The label value of a group.
use correlation.Base.{
  ℕ, Text, [], ◌∷◌, arith, ◌==◌, Bool-cases, inl, inr, Lacks, has_prefix, trim_prefix,
}
use correlation.Strings.{replace_byte}
use correlation.Main.{label_selection_value}

replace_byte-Lacks : (s : Text) → Lacks b'/' (replace_byte b'/' b'_' s)
unfolding replace_byte
replace_byte-Lacks [] = tt
replace_byte-Lacks (c ∷ s) = ground (arith, replace_byte-Lacks s)

trim_prefix-Lacks : (b p : ℕ) (s : Text) → Lacks b s → Lacks b (trim_prefix s (p ∷ []))
unfolding trim_prefix has_prefix
trim_prefix-Lacks b p [] h = tt
trim_prefix-Lacks b p (c ∷ s) (hc, h) = elim (Bool-cases (c == p)) [
  | inl e ↦ rw e h
  | inr e ↦ rw e (hc, h)
]

-- The label value that stands for an etcd path holds no slash, as Kubernetes demands of label values.
pub label_selection_value-Lacks : (etcd_path : Text) → Lacks b'/' (label_selection_value etcd_path)
unfolding label_selection_value
label_selection_value-Lacks etcd_path =
    trim_prefix-Lacks b'/' b'_' (replace_byte b'/' b'_' etcd_path) (replace_byte-Lacks etcd_path)
