-- ===== src/Tests/Upgrade.antt =====
-- firmware/src/upgrade.rs: an image of the least size, staged in the host's memory.
use mathlib.Core.List.{flatten}
use cold_snap.Prelude.{
  ℕ, ◌≡◌, ◌↔◌, refl, sym, ap, ◌∙◌, List, [], ◌∷◌, none, ok, arith, length, take, replicate,
  copy_into, length-replicate, length-copy_into, slice-copy_into,
}
use cold_snap.Prelude.Bytes.{from_le_bytes}
use cold_snap.Psram.Fake.{FakePsram, fake_psram, fake_laws}
use cold_snap.Psram.Burn.{IsBurnable}
use cold_snap.Firmware.{signed_range}
use cold_snap.Upgrade.{
  Stager, new, judge, staged, streaming, feed, feed_all, upload, prepare_upgrade2,
  enter_upgrade_mode,
}
use cold_snap.Upgrade.Judge.{judge_iff}
use cold_snap.Upgrade.Stream.{IsAdmissible, IsStreaming, feed-collect, collect, answered, ended}
use cold_snap.Upgrade.Upload.{IsReady, upload-judge, open_stream}
use cold_snap.Upgrade.Safety.{run, run-staged, upload-run, Call, admits, feeds}

-- A digest function for the examples.
abbrev short_digest : List ℕ → List ℕ
short_digest xs = take 32 xs

pub blank : List ℕ
blank = replicate 262144 0

pub length-blank : length blank ≡ 262144
unfolding blank
length-blank = length-replicate {A = ℕ} 262144 0

abbrev pub ram : FakePsram
ram = record { cells = blank; corrupt_at = none }

-- The length field is 0x40000.
field : List ℕ
field = 0 ∷ 0 ∷ 4 ∷ 0 ∷ []

pub image : List ℕ
image = copy_into blank 16280 field

length-image : length image ≡ 262144
unfolding image field
length-image = length-copy_into blank 16280 field (omega (arith, length-blank)) ∙ length-blank

pub image-IsBurnable : IsBurnable image 262144
unfolding image field from_le_bytes
image-IsBurnable = record {
  declared = sym (
      ap from_le_bytes {y = field}
        (slice-copy_into blank 16280 field (omega (arith, length-blank))));
  in_window = omega (arith, length-image);
  has_header = omega (arith, length-image);
  floor = omega arith;
  ceiling = omega arith;
  complete = omega (arith, length-image);
}

size-IsAdmissible : IsAdmissible 262144
size-IsAdmissible = record { aligned = refl; floor = omega arith; ceiling = omega arith }

announced : List ℕ
announced = short_digest (signed_range image 262144)

image-judged : judge short_digest announced 262144 image ≡ ok tt
unfolding announced
image-judged = (judge_iff short_digest announced 262144 image refl).1 (image-IsBurnable, refl)

start : Stager FakePsram
start = new ram

start-IsReady : IsReady fake_psram fake_laws short_digest 262144 start
unfolding start new replicate
start-IsReady = record { works = refl; array = refl; room = omega (arith, length-blank) }

judge_iff_example :
    (judge short_digest announced 262144 image ≡ ok tt)
    ↔ (IsBurnable image 262144 × (short_digest (signed_range image 262144) ≡ announced))
judge_iff_example = judge_iff short_digest announced 262144 image refl

upload-judge_example :
    (t : Stager FakePsram) × (upload fake_psram short_digest 262144 announced (image ∷ []) start
      ≡ (answered (judge short_digest announced 262144 image) 64, t))
    × (t.state ≡ ended (judge short_digest announced 262144 image) 262144)
unfolding flatten
upload-judge_example =
    upload-judge fake_psram fake_laws short_digest 262144 announced [] image start size-IsAdmissible
      start-IsReady (omega arith) (omega (arith, length-image))

stage_calls : List Call
stage_calls =
    admits (prepare_upgrade2 262144 announced) ∷ admits enter_upgrade_mode ∷ feeds image ∷ []

run-stage_calls : (run fake_psram short_digest (new ram) stage_calls).state ≡ staged 262144
unfolding stage_calls start
run-stage_calls =
    let (t, done, state) = upload-judge_example in
    let ran =
      upload-run fake_psram short_digest 262144 announced (image ∷ []) start 64 t
        (done ∙ ap (λ v. (answered v 64, t)) image-judged) in
    ap (λ s. s.state) ran ∙ (state ∙ ap (λ v. ended v 262144) image-judged)

run-staged_example :
    IsAdmissible 262144
    × ((view : List ℕ) × (fake_psram.view
            (run fake_psram short_digest (new ram) stage_calls).part
            262144
          ≡ ok view)
        × IsBurnable view 262144
        × (short_digest (signed_range view 262144)
            ≡ (run fake_psram short_digest (new ram) stage_calls).expected))
run-staged_example = run-staged fake_psram short_digest ram stage_calls 262144 run-stage_calls

opened :
    (t : Stager FakePsram) × (upload fake_psram short_digest 262144 announced (image ∷ []) start
      ≡ feed_all fake_psram short_digest (image ∷ []) t)
    × IsStreaming fake_psram fake_laws short_digest 262144 announced [] t
opened =
    open_stream fake_psram fake_laws short_digest 262144 announced (image ∷ []) start
      size-IsAdmissible start-IsReady

feed-collect_example :
    (t : Stager FakePsram) × (feed fake_psram short_digest field opened.0
      ≡ ((collect short_digest announced 262144 [] field).0, t))
    × (t.state ≡ (collect short_digest announced 262144 [] field).1)
    × (t.state ≡ streaming 262144 4
        → IsStreaming fake_psram fake_laws short_digest 262144 announced field t)
unfolding field
feed-collect_example =
    feed-collect fake_psram fake_laws short_digest 262144 announced [] field opened.0
      size-IsAdmissible opened.2
