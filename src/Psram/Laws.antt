-- ===== src/Psram/Laws.antt =====
-- What a working memory promises behind the trait `Psram` of hal/src/psram.rs. The client proofs
-- take these laws; `Psram.Fake` shows that they can be met.
use cold_snap.Prelude.{ℕ, ◌+◌, ◌%◌, ◌≤◌, ◌≡◌, ◌↔◌, List, ok, arith, length, slice, copy_into}
use cold_snap.Psram.{PsramOps, check_read, check_write}

-- `cells` is what the memory holds, and `IsSound` says of a state that the part works.
pub record PsramLaws {P : Type 0} (ps : PsramOps P) : Type 1 where
  pub cells : P → List ℕ
  pub IsSound : P → Type 0
  pub stored : P → ℕ → List ℕ → P
  pub write_lem :
      (p : P) (offset : ℕ) (bytes : List ℕ)
      → IsSound p
      → check_write offset (length bytes) ≡ ok tt
      → offset + length bytes ≤ length (cells p)
      → ps.write offset bytes p ≡ (ok tt, stored p offset bytes)
  pub cells-stored :
      (p : P) (offset : ℕ) (bytes : List ℕ)
      → IsSound p
      → cells (stored p offset bytes) ≡ copy_into (cells p) offset bytes
  pub stored-IsSound :
      (p : P) (offset : ℕ) (bytes : List ℕ) → IsSound p → IsSound (stored p offset bytes)
  pub read_lem :
      (p : P) (offset : ℕ) (buf : List ℕ)
      → IsSound p
      → check_read offset (length buf) ≡ ok tt
      → offset + length buf ≤ length (cells p)
      → ps.read offset buf p ≡ (ok (slice offset (offset + length buf) (cells p)), p)
  pub view_lem :
      (p : P) (n : ℕ)
      → IsSound p
      → check_read 0 n ≡ ok tt
      → n ≤ length (cells p)
      → ps.view p n ≡ ok (slice 0 n (cells p))

-- The span lies in the staging window.
pub check_read_iff : (offset n : ℕ) → (check_read offset n ≡ ok tt) ↔ (offset + n ≤ 4194304)
unfolding check_read
check_read_iff offset n = (λ h. ground arith, λ h. ground arith)

-- And a write is whole words at a word's address.
pub check_write_iff :
    (offset n : ℕ)
    → (check_write offset n ≡ ok tt) ↔ ((offset % 4 ≡ 0) × (n % 4 ≡ 0) × (offset + n ≤ 4194304))
unfolding check_write
check_write_iff offset n =
    (λ h. ground (arith, check_read_iff offset n), λ h. ground (arith, check_read_iff offset n))
