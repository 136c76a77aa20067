-- ===== src/Memmap.antt =====
-- hal/src/lib.rs, module `memmap`: the addresses and sizes that the other parts use.
use cold_snap.Prelude.{ℕ, ◌+◌, ◌-◌, ◌*◌}

abbrev bl_flash_base : ℕ
bl_flash_base = 0x0800_0000

abbrev bl_flash_size : ℕ
bl_flash_size = 0x0001_c000

abbrev bl_nvrom_size : ℕ
bl_nvrom_size = 0x0000_4000

-- The lowest address that an erase or a program may touch.
abbrev pub flash_erase_floor : ℕ
flash_erase_floor = bl_flash_base + bl_flash_size + bl_nvrom_size

abbrev pub flash_fs_base : ℕ
flash_fs_base = 0x0818_0000

abbrev pub flash_fs_len : ℕ
flash_fs_len = 512 * 1024

abbrev pub fs_identity_offset : ℕ
fs_identity_offset = 0

abbrev pub fs_identity_len : ℕ
fs_identity_len = 8 * 1024

abbrev pub flash_isr_base : ℕ
flash_isr_base = 0x0802_0000

abbrev flash_isr_len : ℕ
flash_isr_len = 16 * 1024

abbrev pub fw_header_size : ℕ
fw_header_size = 128

abbrev pub fw_header_offset : ℕ
fw_header_offset = flash_isr_len - fw_header_size

abbrev pub fw_min_body_len : ℕ
fw_min_body_len = 256 * 1024

abbrev pub fw_body_align : ℕ
fw_body_align = 512

abbrev pub psram_len : ℕ
psram_len = 8 * 1024 * 1024

abbrev pub sram_base : ℕ
sram_base = 0x2000_0000

abbrev pub bl_sram_base : ℕ
bl_sram_base = 0x2009_e000
