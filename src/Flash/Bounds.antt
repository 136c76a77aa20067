-- ===== src/Flash/Bounds.antt =====
-- hal/src/flash.rs: the containment of the storage region.
use cold_snap.Prelude.{
  ℕ, ◌+◌, ◌/◌, ◌%◌, ◌≤◌, ◌<◌, ◌≡◌, ◌↔◌, ◌⊎◌, true, ok, arith, le→ltb, le→leb, ap₂, leb,
}
use cold_snap.Memmap.{flash_fs_base}
use cold_snap.Flash.{check_bounds, erase_page_of}

-- A span is accepted exactly where it is aligned, or no alignment is asked, and ends in the region.
pub check_bounds_iff :
    (offset len align : ℕ)
    → (check_bounds offset len align ≡ ok tt)
      ↔ ((align ≤ 1 ⊎ ((offset % align ≡ 0) × (len % align ≡ 0))) × (offset + len ≤ 524288))
unfolding check_bounds
check_bounds_iff offset len align = ground arith

-- Every page that an accepted erase names is a page of bank 2 from number 128 on, the one that holds
-- the offset: the pages below it, which the firmware and the bootloader occupy, cannot be named.
erase_page_of-inside :
    (offset len off : ℕ)
    → check_bounds offset len 4096 ≡ ok tt
    → offset ≤ off
    → off < offset + len
    → erase_page_of (flash_fs_base + off) ≡ ok (128 + off / 4096, true)
unfolding erase_page_of
erase_page_of-inside offset len off h from to =
    let (_, inside) = (check_bounds_iff offset len 4096).0 h in
    let page : (flash_fs_base + off) % 134217728 / 4096 ≡ 384 + off / 4096 = omega arith in
    let low : (384 + off / 4096) % 256 ≡ 128 + off / 4096 = omega arith in
    let bank2 : leb 256 ((flash_fs_base + off) % 134217728 / 4096) ≡ true =
      le→leb 256 ((flash_fs_base + off) % 134217728 / 4096) (omega arith) in
    rw (le→ltb (flash_fs_base + off) 134348800 (omega arith))
      (ap₂ (λ n b. ok (n, b)) (omega (arith, page, low)) bank2)
