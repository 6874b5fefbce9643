-- ===== src/RateLimit/Window.antt =====
-- Fixed windows, and the key under which both limiters count a window.
use Prim.Native.String
use genkit_proxy.Common.{
  ℕ, Option, ◌+◌, ◌-◌, ◌*◌, ◌%◌, ◌/◌, ◌≤◌, ◌<◌, ◌≡◌, sym, ap, ◌∙◌, String, some, if◌then◌else◌,
  arith,
}
use native.Mathlib.Nat.{mod-lt, div-add-mod', mul-le-mul_right}
use genkit_proxy.Common.Int.{ℤ, pos, sub_ℕ, ltb_ℤ, pos_part, neg_part}
use genkit_proxy.Common.Text.{cut_last}
use genkit_proxy.Common.Text.Decimal.{format_int, format_int_inj, contains-format_int}
use genkit_proxy.Common.Text.Cut.{cut_last-append}
use mathlib.Core.Option.{some-injective}
use native.Mathlib.Decide.{dec_lt}
use Prim.Native.Char.{Char}

-- The Unix epoch in nanoseconds after the zero time, 1 January of year 1.
unfoldable pub unix_epoch : ℕ
unix_epoch = 62_135_596_800 * 1_000_000_000

-- Time.UnixNano, between the years 1678 and 2262.
unfoldable pub unix_nano : ℕ → ℤ
unix_nano t = sub_ℕ t unix_epoch

-- Time.Truncate.
unfoldable pub truncate : ℤ → ℕ → ℕ
truncate window t = if ltb_ℤ (pos 0) window then t - t % pos_part window else t

-- Time.Add of a time.Duration.
unfoldable pub add_duration : ℕ → ℤ → ℕ
add_duration t d = t + pos_part d - neg_part d

colon : Char
colon = ":"

-- key + ":" + strconv.FormatInt(windowStart.UnixNano(), 10).
unfoldable pub full_key : String → ℕ → String
unfolding colon
full_key key window_start = String.◌++◌ key (String.◌∷◌ colon (format_int (unix_nano window_start)))

-- A window holds the times from its start up to the start of the next.
pub truncate_bounds : (w t : ℕ) → 0 < w → (truncate (pos w) t ≤ t) × (t < truncate (pos w) t + w)
unfolding truncate
truncate_bounds w t h = grind (arith, mod-lt)

multiples_mono : (w s t : ℕ) → 0 < w → s ≤ t → s / w * w ≤ t / w * w
multiples_mono w s t p h = elim (dec_lt (t / w) (s / w)) [
  | no q ↦ mul-le-mul_right w (omega arith)
  | yes q ↦
      let c : (t / w + 1) * w ≤ s / w * w = mul-le-mul_right w (omega arith) in
      let d : t % w < w = mod-lt t p in absurd (omega (arith, div-add-mod' s w, div-add-mod' t w))
]

pub truncate_mono : (w s t : ℕ) → s ≤ t → truncate (pos w) s ≤ truncate (pos w) t
unfolding truncate
truncate_mono w s t h = elim (dec_lt 0 w) [
  | no q ↦ ground arith
  | yes p ↦
      let c = multiples_mono w s t p h in
      let a = div-add-mod' s w in let b = div-add-mod' t w in ground arith
]

unix_nano_inj : (s t : ℕ) → unix_nano s ≡ unix_nano t → s ≡ t
unfolding unix_nano
unix_nano_inj s t e = ground arith

cut_last-full_key :
    (key : String) (t : ℕ) → cut_last b':' (full_key key t) ≡ some (key, format_int (unix_nano t))
unfolding full_key
cut_last-full_key key t =
    cut_last-append colon key (format_int (unix_nano t)) (contains-format_int (unix_nano t))

-- No two pairs of a key and a window share a full key, whatever the keys hold.
pub full_key_inj : (j k : String) (s t : ℕ) → full_key j s ≡ full_key k t → (j ≡ k) × (s ≡ t)
full_key_inj j k s t e =
    let both : Path (Option (String × String)) (some (j, format_int (unix_nano s)))
        (some (k, format_int (unix_nano t))) =
      sym (cut_last-full_key j s) ∙ ap (cut_last b':') e ∙ cut_last-full_key k t in
    let pair = some-injective _ _ both in
    (
      ap (λ (p : String × String). p.0) pair,
      unix_nano_inj s t
          (format_int_inj (unix_nano s) (unix_nano t) (ap (λ (p : String × String). p.1) pair)),
    )
