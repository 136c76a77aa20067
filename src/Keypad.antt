-- ===== src/Keypad.antt =====
-- hal/src/keypad.rs: the pure logic of the keypad, from a column word to an event.
pub mod Window
pub mod Shuffle
use cold_snap.Prelude.{
  ℕ, zero, suc, ◌+◌, ◌-◌, ◌*◌, ◌/◌, ◌%◌, ◌^◌, Bool, true, false, ◌&&◌, ◌||◌, List, [], ◌∷◌, Option,
  none, some, Result, ok, err, ◌==◌, ltb, leb, if◌then◌else◌, bit_or, get_elem?, swap, replicate,
  bit_and, sat_add8, u32_mod,
}

abbrev num_rows : ℕ
num_rows = 4

abbrev num_cols : ℕ
num_cols = 3

abbrev key_count : ℕ
key_count = num_rows * num_cols

abbrev debounce_samples : ℕ
debounce_samples = 3

-- `b"y0x987654321"`
abbrev pub decoder : List ℕ
decoder = 121 ∷ 48 ∷ 120 ∷ 57 ∷ 56 ∷ 55 ∷ 54 ∷ 53 ∷ 52 ∷ 51 ∷ 50 ∷ 49 ∷ []

-- The columns are the pins 0, 1 and 2.
abbrev col_mask : ℕ
col_mask = 7

pub data KeypadError : Type 0 where
  columns_stuck_low : ℕ → KeypadError

unfoldable pub key_at : ℕ → ℕ → Option ℕ
key_at row col =
    if leb num_rows row || leb num_cols col then none else get_elem? decoder (row * num_cols + col)

-- `!idr` is `2^32 - 1 - idr`.
unfoldable pub pressed_cols : ℕ → ℕ
pressed_cols idr = bit_and (4294967295 - idr) col_mask % 256

unfoldable pub row_bits : ℕ → ℕ → ℕ
row_bits row cols =
    if leb num_rows row then 0 else bit_and cols col_mask % 65536 * 2 ^ (row * num_cols) % 65536

unfoldable check_idle_columns : ℕ → Result (Unit {0}) KeypadError
check_idle_columns idr =
    if bit_and idr col_mask == col_mask then ok tt else err (columns_stuck_low idr)

-- `bitmap & (1 << i) != 0`
unfoldable pub test_bit : ℕ → ℕ → Bool
test_bit bitmap i = bitmap / 2 ^ i % 2 == 1

-- The bits set among the lowest `width`.
unfoldable pub count_ones : ℕ → ℕ → ℕ
count_ones zero bitmap = 0
count_ones (suc width) bitmap = bitmap % 2 + count_ones width (bitmap / 2)

pub data Event : Type 0 where
  all_up : Event
  down : ℕ → Event
  multi_key unsettled : Event

pub record Debounce : Type 0 where
  pub history : List ℕ
  pub samples : ℕ
  pub multi : Bool

unfoldable pub new : Debounce
new = record { history = replicate key_count 0; samples = 0; multi = false }

-- The loop of `push` over the counts, from index `i`.
unfoldable pub count_keys : ℕ → ℕ → List ℕ → List ℕ
count_keys bitmap i [] = []
count_keys bitmap i (count ∷ counts) =
    (if test_bit bitmap i then sat_add8 count 1 else count) ∷ count_keys bitmap (suc i) counts

-- The loop of `verdict` over the counts from index `i`, with `down` and `any_contact` so far, and the
-- match that follows it.
unfoldable pub verdict_loop : ℕ → List ℕ → Option ℕ → Bool → Event
verdict_loop i [] (some key) any_contact = down key
verdict_loop i [] none true = unsettled
verdict_loop i [] none false = all_up
verdict_loop i (count ∷ counts) held any_contact =
    let skipped = verdict_loop (suc i) counts held any_contact in
    let touched = verdict_loop (suc i) counts held true in
    let taken = verdict_loop (suc i) counts (get_elem? decoder i) true in
    if count == 0
    then skipped
    else if leb debounce_samples count
    then elim held [ some _ ↦ multi_key | none ↦ taken ]
    else touched

unfoldable pub verdict : Debounce → Event
verdict d = if d.multi then multi_key else verdict_loop 0 d.history none false

unfoldable pub push : ℕ → Debounce → Option Event × Debounce
push bitmap d0 =
    let d : Debounce = record {
      multi = d0.multi || ltb 1 (count_ones 16 bitmap);
      history = count_keys bitmap 0 d0.history;
      samples = sat_add8 d0.samples 1;
    } in
    if ltb d.samples debounce_samples then (none, d) else (some (verdict d), new)

-- The shuffle of the rows, over a generator of 32-bit words.
module _ {S : Type 0} (next_u32 : S → ℕ × S) where
  -- The loop from `i` down to 2: a pass swaps the place `i - 1` with a place up to it.
  unfoldable pub shuffle_loop : ℕ → List ℕ → S → List ℕ × S
  shuffle_loop zero order s = (order, s)
  shuffle_loop (suc zero) order s = (order, s)
  shuffle_loop (suc (suc i)) order s =
      let (draw, s') = next_u32 s in
      shuffle_loop (suc i) (swap (suc i) (draw % (suc i + 1)) order) s'

  unfoldable pub shuffle_rows : S → List ℕ × S
  shuffle_rows = shuffle_loop num_rows (0 ∷ 1 ∷ 2 ∷ 3 ∷ [])

  -- `sample row` drives the row, lets it settle and reads the columns' word.
  module _ (sample : ℕ → S → ℕ × S) where
    unfoldable pub scan_loop : List ℕ → ℕ → S → ℕ × S
    scan_loop [] bitmap s = (bitmap, s)
    scan_loop (row ∷ rows) bitmap s =
        let (idr, s') = sample row s in
        scan_loop rows (bit_or bitmap (row_bits row (pressed_cols idr))) s'

    unfoldable pub scan_once : S → ℕ × S
    scan_once s = let (order, s') = shuffle_rows s in scan_loop order 0 s'

    -- The loop of `read_key`, for the scans that are left.
    unfoldable pub read_loop : ℕ → Debounce → S → Event × S
    read_loop zero d s = (unsettled, s)
    read_loop (suc left) d s =
        let (bitmap, s') = scan_once s in
        let rest = read_loop left (push bitmap d).1 s' in
        elim (push bitmap d).0 [ some event ↦ (event, s') | none ↦ rest ]

    unfoldable read_key : S → Event × S
    read_key = read_loop debounce_samples new
