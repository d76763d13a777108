-- ===== src/Exer3/Mandel/Colors/Nearest.antt =====
-- `rgb2xterm` finds the nearest colour.
use native.Mathlib.Nat.{mul-le-mul}
use cslab_os.Base.{
  ℕ, zero, suc, ◌+◌, ◌-◌, ◌*◌, ◌<◌, ◌≤◌, ◌≡◌, refl, ap, ◌∙◌, List, [], ◌∷◌, arith, ◌⊎◌, inl, inr,
}
use cslab_os.Exer3.Mandel.Colors.Palette.{palette_color, xterm_color}
use cslab_os.Exer3.Mandel.Colors.{
  Rgb, black, gray, xterm2rgb, fill, square_of_difference, distance, search_table, rgb2xterm,
}

-- The colours from `c` on.
abbrev pub color : ℕ → Rgb
color c = xterm2rgb c black

abbrev colors : ℕ → ℕ → List Rgb
colors zero c = []
colors (suc n) c = color c ∷ colors n (c + 1)

pub xterm2rgb-color : (c : ℕ) (rgb : Rgb) → c < 254 → xterm2rgb c rgb ≡ color c
unfolding xterm2rgb gray
xterm2rgb-color c rgb small = ground (arith, small)

fill-colors : (n c : ℕ) (rgb : Rgb) → c + n ≤ 254 → fill n c rgb ≡ colors n c
unfolding fill
fill-colors zero c rgb small = refl
fill-colors (suc n) c rgb small =
    rw (xterm2rgb-color c rgb (omega arith), fill-colors n (c + 1) (color c) (omega arith)) refl

-- The nearest of the colours, and the first one of those that are equally near.
pub record IsNearest (rgb : Rgb) (r : ℕ) : Type 0 where
  pub in_table : r < 254
  pub nearest : (c : ℕ) → c < 254 → distance (color r) rgb ≤ distance (color c) rgb
  pub first : (c : ℕ) → c < r → distance (color r) rgb < distance (color c) rgb

-- The search over distances `D`: what it finds from `c` on when `best` was the nearest so far.
module _ (D : ℕ → ℕ) where
  record Found (n c best r : ℕ) : Type 0 where
    within : r < c + n
    not_worse : (r ≡ best) ⊎ ((c ≤ r) × (D r < D best))
    least : (i : ℕ) → c ≤ i → i < c + n → D r ≤ D i
    strict : (i : ℕ) → c ≤ i → i < r → D r < D i

  at_or_after : (c i : ℕ) → c ≤ i → (c ≡ i) ⊎ (c + 1 ≤ i)
  at_or_after c i le = ground (arith, le)

  Found-start : {n c best r : ℕ} → Found n c best r → D r ≤ D best
  Found-start f = elim f.not_worse [
    | inl here ↦ omega (arith, ap D here)
    | inr (later, less) ↦ omega (arith, less)
  ]

  Found-closer : {n c best r : ℕ} → D c < D best → Found n (c + 1) c r → Found (suc n) c best r
  Found-closer {n} {c} {best} {r} closer f = record {
    within = omega (arith, f.within);
    not_worse = elim f.not_worse [
      | inl here ↦ inr (omega (arith, here), omega (arith, closer, ap D here))
      | inr (later, less) ↦ inr (omega (arith, later), omega (arith, less, closer))
    ];
    least = λ i from to. elim (at_or_after c i from) [
      | inl here ↦ omega (arith, Found-start f, ap D here)
      | inr after ↦ f.least i after (omega (arith, to))
    ];
    strict = λ i from to. elim (at_or_after c i from) [
      | inl here ↦ elim f.not_worse [
        | inl same ↦ absurd (omega (arith, same, here, to))
        | inr (later, less) ↦ omega (arith, less, ap D here)
      ]
      | inr after ↦ f.strict i after to
    ];
  }

  Found-kept :
      {n c best r : ℕ} → D best ≤ D c → best < c → Found n (c + 1) best r → Found (suc n) c best r
  Found-kept {n} {c} {best} {r} kept before f = record {
    within = omega (arith, f.within);
    not_worse = elim f.not_worse [
      | inl here ↦ inl here
      | inr (later, less) ↦ inr (omega (arith, later), less)
    ];
    least = λ i from to. elim (at_or_after c i from) [
      | inl here ↦ omega (arith, Found-start f, ap D here, kept)
      | inr after ↦ f.least i after (omega (arith, to))
    ];
    strict = λ i from to. elim (at_or_after c i from) [
      | inl here ↦ elim f.not_worse [
        | inl same ↦ absurd (omega (arith, same, here, to, before))
        | inr (later, less) ↦ omega (arith, less, kept, ap D here)
      ]
      | inr after ↦ f.strict i after to
    ];
  }

closer_or_kept : (a b : ℕ) → (a < b) ⊎ (b ≤ a)
closer_or_kept a b = ground arith

module _ (rgb x : Rgb) (table : List Rgb) (c smallest best : ℕ) where
  search_table-closer :
      distance x rgb < smallest
      → search_table rgb (x ∷ table) c smallest best
        ≡ search_table rgb table (c + 1) (distance x rgb) c
  unfolding search_table
  search_table-closer closer = ground (arith, closer)

  search_table-kept :
      smallest ≤ distance x rgb
      → search_table rgb (x ∷ table) c smallest best ≡ search_table rgb table (c + 1) smallest best
  unfolding search_table
  search_table-kept kept = ground (arith, kept)

module _ (rgb : Rgb) where
  abbrev distance_to : ℕ → ℕ
  distance_to c = distance (color c) rgb

  search_table-Found :
      (n c best : ℕ)
      → best < c
      → Found distance_to n c best (search_table rgb (colors n c) c (distance_to best) best)
  unfolding search_table
  search_table-Found zero c best before = record {
    within = omega arith;
    not_worse = inl refl;
    least = λ i from to. absurd (omega arith);
    strict = λ i from to. absurd (omega arith);
  }
  search_table-Found (suc n) c best before =
      elim (closer_or_kept (distance_to c) (distance_to best)) [
        | inl closer ↦
            rw
              (search_table-closer rgb (color c) (colors n (c + 1)) c (distance_to best) best
                closer)
              (Found-closer distance_to closer (search_table-Found n (c + 1) c (omega arith)))
        | inr kept ↦
            rw (search_table-kept rgb (color c) (colors n (c + 1)) c (distance_to best) best kept)
              (Found-kept distance_to kept before (search_table-Found n (c + 1) best (omega arith)))
      ]

Found-IsNearest : (rgb : Rgb) {r : ℕ} → Found (distance_to rgb) 253 1 0 r → IsNearest rgb r
Found-IsNearest rgb {r} f = record {
  in_table = omega (arith, f.within);
  nearest = λ c small. elim (at_or_after (distance_to rgb) 0 c (omega arith)) [
    | inl here ↦ omega (arith, Found-start (distance_to rgb) f, ap (distance_to rgb) here)
    | inr after ↦ f.least c after (omega (arith, small))
  ];
  first = λ c before. elim (at_or_after (distance_to rgb) 0 c (omega arith)) [
    | inl here ↦ elim f.not_worse [
      | inl same ↦ absurd (omega (arith, same, here, before))
      | inr (later, less) ↦ omega (arith, less, ap (distance_to rgb) here)
    ]
    | inr after ↦ f.strict c after before
  ];
}

-- Three bytes.
pub record IsRgb (rgb : Rgb) : Type 0 where
  pub red_byte : rgb.red < 256
  pub green_byte : rgb.green < 256
  pub blue_byte : rgb.blue < 256

square_small : (a : ℕ) → a < 256 → a * a < 65536
square_small a small =
    omega (arith, mul-le-mul {n₁ = a} {m₁ = a} {n₂ = 255} {m₂ = 255} (omega arith) (omega arith))

difference_small : (a b : ℕ) → a < 256 → b < 256 → square_of_difference a b < 65536
difference_small a b small_a small_b =
    ground (arith, square_small (b - a) (omega arith), square_small (a - b) (omega arith))

black_distance : (rgb : Rgb) → IsRgb rgb → distance (color 0) rgb < 10000000000
unfolding distance xterm2rgb
black_distance rgb bytes = omega (
  arith,
  difference_small 0 rgb.red (omega arith) bytes.red_byte,
  difference_small 0 rgb.green (omega arith) bytes.green_byte,
  difference_small 0 rgb.blue (omega arith) bytes.blue_byte,
)

-- For three bytes: `rgb2xterm` chooses one of the colours 0 to 253 that no other one is nearer than,
-- and of those that are as near it chooses the first.
pub rgb2xterm-IsNearest : (rgb : Rgb) → IsRgb rgb → IsNearest rgb (rgb2xterm rgb)
unfolding rgb2xterm
rgb2xterm-IsNearest rgb bytes =
    let e : rgb2xterm rgb ≡ search_table rgb (colors 253 1) 1 (distance_to rgb 0) 0 =
      ap (λ table. search_table rgb table 0 10000000000 0) (fill-colors 254 0 black (omega arith))
      ∙ search_table-closer rgb (color 0) (colors 253 1) 0 10000000000 0
          (black_distance rgb bytes) in
    rw e (Found-IsNearest rgb (search_table-Found rgb 253 1 0 (omega arith)))

-- Whatever the number of iterations: its colour is the nearest one to the colour that the palette has
-- for it, and the first of these.
pub xterm_color-IsNearest :
    (color_val : ℕ) → IsNearest (palette_color color_val) (xterm_color color_val)
unfolding xterm_color palette_color
xterm_color-IsNearest color_val =
    rgb2xterm-IsNearest (palette_color color_val)
      (record { red_byte = omega arith; green_byte = omega arith; blue_byte = omega arith })
