-- ===== src/Engine/Output.antt =====
-- The classification of an output string.
use text.Mathlib.TextEquality.{eq_iff}
use aigo.Base.{String, ◌≡◌, ◌↔◌, arith, Bool, true}
use aigo.Base.Text.{trim_space}
use aigo.Engine.{OutputKind, classify_output, classify_trimmed, kind_of}

kind_of-unknown : (e d h j : Bool) → kind_of e d h j ≡ OutputKind.unknown → e ≡ true
unfolding kind_of
kind_of-unknown e d h j p = ground arith

classify_trimmed-unknown : (s : String) → classify_trimmed s ≡ OutputKind.unknown → s ≡ ""
unfolding classify_trimmed
classify_trimmed-unknown s h = (eq_iff s "").0 (kind_of-unknown _ _ _ _ h)

classify_trimmed-empty : (s : String) → s ≡ "" → classify_trimmed s ≡ OutputKind.unknown
unfolding classify_trimmed
classify_trimmed-empty s h = rw h

-- An output is of unknown kind exactly when nothing is left of it after trimming.
classify_output-unknown_iff :
    (s : String) → (classify_output s ≡ OutputKind.unknown) ↔ (trim_space s ≡ "")
unfolding classify_output
classify_output-unknown_iff s =
    (classify_trimmed-unknown (trim_space s), classify_trimmed-empty (trim_space s))
