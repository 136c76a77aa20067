-- ===== src/Tests/Namestore.antt =====
-- firmware/src/lib.rs, `NameStore`, over a hash that begins with its check and a slot that keeps one record.
use cold_snap.Prelude.{ℕ, ◌≤◌, ◌<◌, ◌≡◌, ◌⊎◌, List, [], ◌∷◌, Option, none, ok, err, length}
use cold_snap.Store.{flash, too_big}
use cold_snap.Namestore.{save, load}
use cold_snap.Namestore.RoundTrip.{ChunkLaws, save-load}
use cold_snap.Tests.Store.{digest, digest_long, from_utf8, try_write, read, slot_laws}

abbrev cold : List ℕ
cold = 99 ∷ 111 ∷ 108 ∷ 100 ∷ []

chunk_laws : ChunkLaws try_write read
chunk_laws = record { refused_lem = λ r n f f' h e. absurd (cc e) }

save-load_example :
    ((56 < length cold) × (save digest try_write cold none ≡ (err too_big, none)))
    ⊎ ((length cold ≤ 56)
        × (((e : ℕ) × (f' : Option (List ℕ)) × (save digest try_write cold none
                ≡ (err (flash e), f'))
              × (load digest from_utf8 read f' ≡ load digest from_utf8 read none))
            ⊎ ((f' : Option (List ℕ)) × (save digest try_write cold none ≡ (ok tt, f'))
                × (load digest from_utf8 read f' ≡ from_utf8 cold))))
save-load_example =
    save-load digest digest_long from_utf8 try_write read cold none slot_laws chunk_laws
