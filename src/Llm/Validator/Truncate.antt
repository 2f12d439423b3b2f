-- ===== src/Llm/Validator/Truncate.antt =====
-- `truncate_with_ellipsis`.
use gola.Prelude.{
  ℕ, ◌-◌, ◌≤◌, ◌<◌, ◌≡◌, ◌⊎◌, inl, inr, true, ◌++◌, arith, length, take, length-append, length-take,
  leb, Bool-cases, Text, codes, is_char_boundary, floor_boundary, floor_boundary-le,
  is_char_boundary-floor_boundary,
}
use gola.Llm.Validator.{truncate_with_ellipsis}

-- A text that fits is returned as it is. From a longer one the result is a part that ends at a
-- character boundary, with " ..." behind it, and it is shorter than the limit.
pub truncate_with_ellipsis_lem :
    (s : Text) (max_len : ℕ)
    → 5 ≤ max_len
    → ((length s ≤ max_len) × (truncate_with_ellipsis s max_len ≡ s))
      ⊎ ((k : ℕ) × (is_char_boundary s k ≡ true)
          × (truncate_with_ellipsis s max_len ≡ take k s ++ codes " ...")
          × (length (truncate_with_ellipsis s max_len) < max_len))
unfolding truncate_with_ellipsis
truncate_with_ellipsis_lem s max_len h = elim (Bool-cases (leb (length s) max_len)) [
  | inl e ↦ inl (ground arith, rw e)
  | inr e ↦
      let k = floor_boundary s (max_len - 5) in
      inr (
        k,
        is_char_boundary-floor_boundary s (max_len - 5),
        rw e,
        rw e (
            omega (
              arith,
              length-append {0} (take k s) (codes " ..."),
              length-take {0} k s,
              floor_boundary-le s (max_len - 5),
            )),
      )
]
