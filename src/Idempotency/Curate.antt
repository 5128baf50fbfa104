-- ===== src/Idempotency/Curate.antt =====
-- packages/core/src/idempotency-store.ts, `curateErrorText`: the bounded reason of a failed delivery.
use omp_bundler.Prelude.{
  ℕ, ◌-◌, ◌≤◌, inl, inr, Bool, false, [], ◌∷◌, ◌++◌, Option, none, some, Text, codes, is_space,
  trim, length, length-append, length-take-le, take, leb, if◌then◌else◌, arith, Bool-cases,
}

abbrev pub max_error_text_len : ℕ
max_error_text_len = 2000

-- `text.replace(/\s+/g, " ")`; `in_run` tells that the character before was white space.
unfoldable pub collapse : Bool → Text → Text
unfolding is_space
collapse in_run [] = []
collapse in_run (c ∷ s) =
    let rest = collapse (is_space c) s in
    if is_space c then (if in_run then rest else 32 ∷ rest) else c ∷ rest

truncate : Text → Text
truncate s =
    if leb (length s) max_error_text_len then s else take (max_error_text_len - 3) s ++ codes "..."

-- `none` is a null or an undefined reason.
unfoldable pub curate_error_text : Option Text → Text
unfolding collapse trim truncate
curate_error_text none = []
curate_error_text (some text) = truncate (trim (collapse false text))

length-truncate : (s : Text) → length (truncate s) ≤ max_error_text_len
unfolding truncate
length-truncate s = elim (Bool-cases (leb (length s) max_error_text_len)) [
  | inl short ↦ rw short (ground arith)
  | inr long ↦ rw long (
      omega (
        arith,
        length-append (take (max_error_text_len - 3) s) (codes "..."),
        length-take-le (max_error_text_len - 3) s,
      ))
]

-- A stored reason is never longer than 2000 code units.
pub length-curate_error_text :
    (reason : Option Text) → length (curate_error_text reason) ≤ max_error_text_len
unfolding curate_error_text
length-curate_error_text none = omega arith
length-curate_error_text (some text) = length-truncate (trim (collapse false text))
