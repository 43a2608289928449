-- ===== src/Segment/Failures.antt =====
-- Where the segment goes wrong: a mapping that failed, and a mapping that is moved.
use partake.Prelude.{ℕ, suc, ◌<◌, ◌≡◌, ◌≢◌, ◌∙◌, Bool, true, false, not, none, some, arith, ap, ◌∷◌}
use partake.Sizes.{round_up_or_check_size}
use partake.System.{Text, Call, Log, Host}
use partake.System.Balance.{mapping, released}
use partake.Shmem.Mmap.{
  Opened, Mapping, no_mapping, mapping_is_valid, create_posix_shmem, rounded, mmap_mapping,
  create_posix_mmap_shmem, unmap, move_construct,
}
use partake.Segment.{posix_mmap, name_or_generated, forced, make_method, make_segment, is_valid}

fd_opened :
    (h : Host) (name : Text) (force : Bool) (d : ℕ) (l : Log)
    → h.apple ≡ false
    → ((l : Log) → (h.reply l (Call.shm_open name (not force))).value ≡ some d)
    → (create_posix_shmem h name force l).0.fd ≡ some d
unfolding create_posix_shmem
fd_opened h name force d l e opened = ground (arith, e, opened l)

module _ (h : Host) (n d : ℕ) where
  mmap_mapping_failed :
      (l : Log)
      → 0 < n
      → ((l : Log) → (h.reply l (Call.ftruncate d n)).value ≡ some 0)
      → ((l : Log) → (h.reply l (Call.mmap d n)).value ≡ none)
      → mapping_is_valid (mmap_mapping h n (some d) l).0 ≡ true
  unfolding mmap_mapping
  mmap_mapping_failed l pos truncated failed =
      let c : Call = Call.ftruncate d n in
      ground (arith, truncated l, failed ((c, h.reply l c) ∷ l))

  rounded_failed :
      (o : Opened) (l : Log)
      → o.fd ≡ some d
      → 0 < n
      → ((l : Log) → (h.reply l (Call.ftruncate d n)).value ≡ some 0)
      → ((l : Log) → (h.reply l (Call.mmap d n)).value ≡ none)
      → mapping_is_valid (rounded h o (some n) l).0.mapped ≡ true
  rounded_failed o l e pos truncated failed =
      ap (λ fd. mapping_is_valid (mmap_mapping h n fd l).0) e
      ∙ mmap_mapping_failed l pos truncated failed

-- If `mmap` fails with MAP_FAILED, after the object was opened and got its size, the segment counts
-- as valid all the same.
pub make_segment_unmapped :
    (h : Host) (name : Text) (force : Bool) (size n d : ℕ) (l : Log)
    → h.windows ≡ false
    → h.apple ≡ false
    → round_up_or_check_size size h.page_size ≡ some n
    → 0 < n
    → ((l : Log)
        → (h.reply l (Call.shm_open (name_or_generated h name) (not (forced name force)))).value
          ≡ some d)
    → ((l : Log) → (h.reply l (Call.ftruncate d n)).value ≡ some 0)
    → ((l : Log) → (h.reply l (Call.mmap d n)).value ≡ none)
    → is_valid (make_segment h (record { method = posix_mmap name force; size = size }) l).0 ≡ true
unfolding make_segment is_valid create_posix_mmap_shmem
make_segment_unmapped h name force size n d l w e fits pos opened truncated failed =
    let o = create_posix_shmem h (name_or_generated h name) (forced name force) l in
    ap (λ b. is_valid (make_method h b (posix_mmap name force) size l).0) w
    ∙ ap (λ s. mapping_is_valid (rounded h o.0 s o.1).0.mapped) fits
    ∙ rounded_failed h n d o.0 o.1
        (fd_opened h (name_or_generated h name) (forced name force) d l e opened) pos truncated
        failed

-- The move constructor of a mapping gives the memory back, and yet leaves the new mapping with its
-- address, as if it were valid: when that ends, it gives back the same memory a second time.
pub move_construct_unmapped :
    (h : Host) (m : Mapping) (l : Log)
    → m.addr ≢ 0
    → (let ((new, old), l') = move_construct h m l in
        let (b, l'') = unmap h new l' in
        (new ≡ m)
        × (old ≡ no_mapping)
        × (released (mapping m.addr) l' ≡ suc (released (mapping m.addr) l))
        × (released (mapping m.addr) l'' ≡ suc (suc (released (mapping m.addr) l))))
unfolding move_construct unmap
move_construct_unmapped h m l e = ground arith
