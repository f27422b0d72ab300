-- ===== src/Base/Cut/Heads.antt =====
-- What a cut at a mark gives, said without the cut.
use Prim.Native.Char.{Char, code}
use text.Mathlib.TextEquality.{Char-path}
use aigo.Base.{
  String, ◌≡◌, refl, ap, Bool, true, false, Option, none, some, ◌==◌, ==_iff, if◌then◌else◌,
}
use aigo.Base.Cut.{has_mark, cut, cut_last, after_char, last_of}
use aigo.Base.Scan.{◌<>◌}

-- What stands before the first mark of a text, or all of it.
pub data BeforeFirst (c : Char) (s : String) : String → Type 0 where
  whole : has_mark (code c) s ≡ false → BeforeFirst c s s
  part : (a b : String) → s ≡ a <> String.◌∷◌ c b → has_mark (code c) a ≡ false → BeforeFirst c s a

-- What stands before the last mark of a text, or all of it.
pub data BeforeLast (c : Char) (s : String) : String → Type 0 where
  whole : has_mark (code c) s ≡ false → BeforeLast c s s
  part : (a b : String) → s ≡ a <> String.◌∷◌ c b → has_mark (code c) b ≡ false → BeforeLast c s a

-- The first component of a cut, or the whole text.
abbrev pub head_of : String → Option (String × String) → String
head_of s none = s
head_of s (some (a, b)) = a

-- What a cut at the first mark gives.
data CutsFirst (c : Char) (s : String) : Option (String × String) → Type 0 where
  absent : has_mark (code c) s ≡ false → CutsFirst c s none
  found :
      (a b : String)
      → s ≡ a <> String.◌∷◌ c b
      → has_mark (code c) a ≡ false
      → CutsFirst c s (some (a, b))

same_char : (c d : Char) → (code d == code c) ≡ true → d ≡ c
same_char c d e = Char-path d c ((==_iff (code d) (code c)).0 e)

later-CutsFirst :
    (c d : Char) (s : String) (o : Option (String × String))
    → (code d == code c) ≡ false
    → CutsFirst c s o
    → CutsFirst c (String.◌∷◌ d s) (after_char d o)
later-CutsFirst c d s none e (CutsFirst.absent h) = CutsFirst.absent (rw e h)
later-CutsFirst c d s (some _) e (CutsFirst.found a b p h) =
    CutsFirst.found (String.◌∷◌ d a) b (ap (String.◌∷◌ d) p) (rw e h)

step-CutsFirst :
    (c d : Char) (s : String) (o : Option (String × String)) (t : Bool)
    → (code d == code c) ≡ t
    → CutsFirst c s o
    → CutsFirst c (String.◌∷◌ d s) (if t then some ("", s) else after_char d o)
step-CutsFirst c d s o true e h =
    CutsFirst.found "" s (ap (λ x. String.◌∷◌ x s) (same_char c d e)) refl
step-CutsFirst c d s o false e h = later-CutsFirst c d s o e h

cut-CutsFirst : (c : Char) (s : String) → CutsFirst c s (cut (code c) s)
unfolding cut
cut-CutsFirst c String.[] = CutsFirst.absent refl
cut-CutsFirst c (String.◌∷◌ d s) =
    step-CutsFirst c d s (cut (code c) s) (code d == code c) refl (cut-CutsFirst c s)

CutsFirst-BeforeFirst :
    (c : Char) (s : String) (o : Option (String × String))
    → CutsFirst c s o
    → BeforeFirst c s (head_of s o)
CutsFirst-BeforeFirst c s none (CutsFirst.absent h) = BeforeFirst.whole h
CutsFirst-BeforeFirst c s (some _) (CutsFirst.found a b p h) = BeforeFirst.part a b p h

pub cut-BeforeFirst : (c : Char) (s : String) → BeforeFirst c s (head_of s (cut (code c) s))
cut-BeforeFirst c s = CutsFirst-BeforeFirst c s _ (cut-CutsFirst c s)

-- What a cut at the last mark gives.
data CutsLast (c : Char) (s : String) : Option (String × String) → Type 0 where
  absent : has_mark (code c) s ≡ false → CutsLast c s none
  found :
      (a b : String)
      → s ≡ a <> String.◌∷◌ c b
      → has_mark (code c) b ≡ false
      → CutsLast c s (some (a, b))

step-CutsLast :
    (c d : Char) (s : String) (o : Option (String × String)) (t : Bool)
    → (code d == code c) ≡ t
    → CutsLast c s o
    → CutsLast c (String.◌∷◌ d s) (last_of d t s o)
step-CutsLast c d s none true e (CutsLast.absent h) =
    CutsLast.found "" s (ap (λ x. String.◌∷◌ x s) (same_char c d e)) h
step-CutsLast c d s none false e (CutsLast.absent h) = CutsLast.absent (rw e h)
step-CutsLast c d s (some _) t e (CutsLast.found a b p h) =
    CutsLast.found (String.◌∷◌ d a) b (ap (String.◌∷◌ d) p) h

cut_last-CutsLast : (c : Char) (s : String) → CutsLast c s (cut_last (code c) s)
unfolding cut_last
cut_last-CutsLast c String.[] = CutsLast.absent refl
cut_last-CutsLast c (String.◌∷◌ d s) =
    step-CutsLast c d s (cut_last (code c) s) (code d == code c) refl (cut_last-CutsLast c s)

CutsLast-BeforeLast :
    (c : Char) (s : String) (o : Option (String × String))
    → CutsLast c s o
    → BeforeLast c s (head_of s o)
CutsLast-BeforeLast c s none (CutsLast.absent h) = BeforeLast.whole h
CutsLast-BeforeLast c s (some _) (CutsLast.found a b p h) = BeforeLast.part a b p h

pub cut_last-BeforeLast : (c : Char) (s : String) → BeforeLast c s (head_of s (cut_last (code c) s))
cut_last-BeforeLast c s = CutsLast-BeforeLast c s _ (cut_last-CutsLast c s)
