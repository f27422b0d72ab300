-- ===== src/Tests/Sizes.antt =====
-- Sizes at concrete texts and graphs.
use Prim.Native.Nat.{◌∣◌}
use aigo.Base.{
  ℕ, ◌==◌, ◌≢◌, ◌+◌, ◌*◌, ◌/◌, ◌<◌, ◌≡◌, ◌↔◌, refl, String, true, false, none, some, List, [], ◌∷◌,
  some_of, str_eq, arith,
}
use aigo.Base.Int.{pos}
use aigo.Workflow.{Floats, Graph, Value}
use native.Mathlib.Decide.{dec_lt}
use aigo.Base.Text.{is_space, is_blank}
use aigo.Base.Scan.{match_pair, match_one, clamped}
use aigo.Base.Decimal.{itoa}
use aigo.Ratio.{gcd, reduced, simplify_ratio, derive_resolution}
use aigo.Ratio.Laws.{gcd-dvd, reduced_lem}
use aigo.Size.{parse_size, parse_dimensions, to_wxh, to_w_asterisk_h, is_zero}
use aigo.Size.Laws.{parse_size-printed}
use aigo.Size.Proper.{IsProper}
use aigo.Size.Extract.{extract_image_size_spec, extract_video_size_spec}
use aigo.Size.Extract.Proper.{extracted-IsProper}
use aigo.Size.Snap.{
  Angles, angle_diff, aspect_angle, pixel_diff, pixel_area, area_gap, is_nearer, snap_to,
  normalize_image_size,
}
use aigo.Size.Snap.Nearest
use aigo.Size.Snap.Nearest.{Hits}
use aigo.Size.Snap.Supported.{normalize_image_size-supported}

-- No text is a number.
abbrev no_floats : Floats
no_floats = record { parse = λ s. none; wide = λ i. i }

program : Unit {0}
unfolding parse_size parse_dimensions is_zero simplify_ratio to_wxh itoa is_space is_blank
    match_pair clamped dec_lt derive_resolution match_one snap_to angle_diff aspect_angle pixel_diff
    pixel_area area_gap is_nearer Nearest.is_exact Nearest.is_exact_entry
program = tt

-- Texts with gaps, capital letters and leading zeros, and a label that is not read.
parse_size_runs :
    (parse_size " 1920 X 1080 " ≡ record {
      dimensions = some (record { width = pos 1920; height = pos 1080 });
      aspect_ratio = "16:9";
      resolution = "1080P";
    })
    × (parse_size "0016 :9" ≡ record { dimensions = none; aspect_ratio = "16:9"; resolution = "" })
    × (parse_size "720p" ≡ record { dimensions = none; aspect_ratio = ""; resolution = "720P" })
    × (is_zero (parse_size "4K") ≡ true)
    × (is_zero (parse_size "0x10") ≡ true)
unfolding program
parse_size_runs = (refl, refl, refl, refl, refl)

-- 1366x768 has no small ratio, and is near to 16:9.
simplify_ratio_runs :
    (simplify_ratio (pos 1366) (pos 768) ≡ "16:9")
    × (simplify_ratio (pos 3000) (pos 100) ≡ "30:1")
    × (simplify_ratio (pos 1000) (pos 99) ≡ "1000:99")
unfolding program
simplify_ratio_runs = (refl, refl, refl)

gcd-dvd_example : (6 ∣ gcd 1920 1080) ↔ ((6 ∣ 1920) × (6 ∣ 1080))
gcd-dvd_example = gcd-dvd 6 1920 1080

reduced_lem_example :
    ((reduced 1920 1080).0 * 1080 ≡ 1920 * (reduced 1920 1080).1)
    × ((k : ℕ) → k ∣ (reduced 1920 1080).0 → k ∣ (reduced 1920 1080).1 → k ≡ 1)
    × (0 < (reduced 1920 1080).0)
    × (0 < (reduced 1920 1080).1)
reduced_lem_example = reduced_lem 1920 1080 (ground arith) (ground arith)

parse_size-printed_example :
    (parse_size (to_wxh (parse_dimensions (pos 1366) (pos 768)))
      ≡ parse_dimensions (pos 1366) (pos 768))
    × (parse_size (to_w_asterisk_h (parse_dimensions (pos 1366) (pos 768)))
        ≡ parse_dimensions (pos 1366) (pos 768))
    × (parse_size (simplify_ratio (pos 1366) (pos 768)) ≡ record {
      dimensions = none;
      aspect_ratio = simplify_ratio (pos 1366) (pos 768);
      resolution = "";
    })
parse_size-printed_example =
    parse_size-printed 1366 768 (ground arith, ground arith) (ground arith, ground arith)

abbrev sized : Graph
sized =
    ("7", record { class_type = "ImageOptions"; inputs = ("size", Value.str "640*480") ∷ [] })
    ∷ (
      "3",
      record {
        class_type = "EmptyLatentImage";
        inputs = ("width", Value.int (pos 64)) ∷ ("height", Value.int (pos 64)) ∷ [];
      },
    )
    ∷ []

extracted-IsProper_example :
    IsProper (extract_image_size_spec (λ s. s) no_floats sized)
    × IsProper (extract_video_size_spec (λ s. s) no_floats sized)
extracted-IsProper_example = extracted-IsProper (λ s. s) no_floats sized

-- A stand-in for the angle: the share of the height in thousandths.
abbrev shares : Angles
shares = record { atan2 = λ h w. h * 1000 / (h + w); square = 500; epsilon = 6 }

abbrev offered : List String
offered = "1024x1024" ∷ "1792x1024" ∷ "1024x1792" ∷ []

ne : (n : ℕ) → (n == 6) ≡ false → n ≢ 6
ne n h e = ground (arith, h, e)

snap_to-Hits_example :
    Hits shares
      (parse_dimensions (pos 1792) (pos 1024))
      (snap_to shares (parse_dimensions (pos 1792) (pos 1024)) offered)
unfolding program
snap_to-Hits_example =
    Nearest.snap_to-Hits shares (parse_dimensions (pos 1792) (pos 1024)) (ground arith) offered refl
      (ne 137 refl, (ne 0 refl, (ne 273 refl, tt))) refl

normalize_image_size-supported_example :
    some_of (str_eq (normalize_image_size shares offered (pos 1920) (pos 1080))) offered ≡ true
unfolding program
normalize_image_size-supported_example =
    normalize_image_size-supported shares (1024, 1024) ((1792, 1024) ∷ (1024, 1792) ∷ []) (pos 1920)
      (pos 1080) (ground arith)
