-- ===== src/Client/Listing.antt =====
-- What the client lists, against what it says of single engines.
use text.Mathlib.TextEquality.{eq_iff}
use aigo.Base.{
  String, ◌≡◌, refl, Bool, false, not, ◌&&◌, Option, none, some, List, [], ◌∷◌, str_eq, arith,
  select, some_of, ◌∙◌, ap,
}
use aigo.Base.Assoc.{Map, IsMap, get, keys, some_of-keys, has-eq-get}
use aigo.Base.Text.{str_leb}
use aigo.Base.Sort.{IsSorted, sort_strings-IsSorted, some_of-sort}
use aigo.Engine.{Engine}
use aigo.Client.{Client, is_disabled, is_enabled, engine_names, serves, serving, available_for}

lists : String → List String → Bool
lists n names = some_of (λ m. str_eq m n) names

-- A filter that depends on the name alone.
some_of-select :
    (p : String → Bool) (n : String) (names : List String)
    → some_of (λ m. str_eq m n) (select p names) ≡ (some_of (λ m. str_eq m n) names && p n)
some_of-select p n [] = refl
some_of-select p n (m ∷ names) = ground (arith, some_of-select p n names, eq_iff m n, ap p)

module _ {W : Type 0} (c : Client W) where
  -- `EngineNames` is sorted, and lists a name exactly when `IsEnabled` holds of it.
  pub engine_names_lem :
      (n : String)
      → IsSorted str_leb (engine_names c)
        × (some_of (λ m. str_eq m n) (engine_names c) ≡ is_enabled c n)
  unfolding engine_names is_enabled
  engine_names_lem n = (
    sort_strings-IsSorted _,
    some_of-sort str_leb (λ m. str_eq m n) _
        ∙ some_of-select (λ name. not (is_disabled c name)) n (keys c.engines)
        ∙ ap (λ b. b && not (is_disabled c n)) (some_of-keys c.engines n),
  )

  -- Whether a registered engine serves the media type.
  abbrev pub serves_as : String → Option (Engine W) → Bool
  serves_as media_type none = false
  serves_as media_type (some e) = serves media_type e.capabilities

  lists-serving :
      (media_type n : String) (m : Map (Engine W))
      → IsMap m
      → some_of (λ j. str_eq j n) (serving c media_type m)
        ≡ (not (is_disabled c n) && serves_as media_type (get m n))
  unfolding serving get
  lists-serving media_type n [] h = ground arith
  lists-serving media_type n ((j, e) ∷ m) h =
      ground (arith, eq_iff j n, lists-serving media_type n m h.1, has-eq-get m j, has-eq-get m n)

  -- `AvailableFor` is sorted, and lists exactly the enabled engines that serve the media type: those
  -- that name it among their capabilities, and those that describe no capabilities.
  pub available_for_lem :
      (media_type n : String)
      → IsMap c.engines
      → IsSorted str_leb (available_for c media_type)
        × (some_of (λ m. str_eq m n) (available_for c media_type)
            ≡ (not (is_disabled c n) && serves_as media_type (get c.engines n)))
  unfolding available_for
  available_for_lem media_type n h = (
    sort_strings-IsSorted _,
    some_of-sort str_leb (λ m. str_eq m n) _ ∙ lists-serving media_type n c.engines h,
  )
