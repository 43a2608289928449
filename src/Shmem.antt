-- ===== src/Shmem.antt =====
-- The classes that own what the system gives, and give it back (common/posix.hpp).
pub mod Mmap
pub mod Sysv
pub mod Win32
use partake.Prelude.{
  ℕ, ◌≡◌, ◌≢◌, ◌==◌, ◌+◌, Bool, true, false, Option, none, some, List, [], ◌∷◌, hit, ◌&&◌,
  if◌then◌else◌, arith, refl,
}
use partake.System.{Text, Call, Answer, Log, Host, M, ◌>>=◌, ◌>>◌, pure, invoke, succeeded}
use partake.Text.{same_text}
use partake.System.Balance.{
  Resource, descriptor, shm_name, file_name, mapping, shm_id, attachment, handle, view, IsReal,
  Loses, acquires, releases, acquires-quiet, is_quiet,
}

-- `file_descriptor`, by its number: `none` is -1.
abbrev pub FileDescriptor : Type 0
FileDescriptor = Option ℕ

unfoldable pub close : Host → FileDescriptor → M Bool
close h none = pure true
close h (some d) = do a ← invoke h (Call.close d); pure (succeeded a)

-- The function that an `unlinkable` is made with.
pub data UnlinkFn : Type 0 where
  with_shm_unlink with_unlink : UnlinkFn

-- `unlinkable`: a name, empty if there is nothing to unlink.
pub record Unlinkable : Type 0 where
  pub nm : Text
  pub unlink_fn : UnlinkFn

abbrev call_unlink : UnlinkFn → Text → Call
call_unlink with_shm_unlink n = Call.shm_unlink n
call_unlink with_unlink n = Call.unlink n

abbrev unlink_named : Host → UnlinkFn → Text → M Bool
unlink_named h f [] = pure true
unlink_named h f (c ∷ n) = do a ← invoke h (call_unlink f (c ∷ n)); pure (succeeded a)

unfoldable pub unlink : Host → Unlinkable → M Bool
unlink h u = unlink_named h u.unlink_fn u.nm

-- What the two classes are to give back.
abbrev pub owns_descriptor : Resource → FileDescriptor → ℕ
owns_descriptor r none = 0
owns_descriptor r (some d) = hit (releases r (Call.close d))

abbrev pub owns_name : Resource → Unlinkable → ℕ
owns_name r u = hit (releases r (call_unlink u.unlink_fn u.nm))

module _ (h : Host) (r : Resource) where
  pub close-Loses : (d : FileDescriptor) (l : Log) → Loses r (owns_descriptor r d) l (close h d l).1
  unfolding close
  close-Loses none l = omega arith
  close-Loses (some d) l =
      ground (arith, acquires-quiet r (Call.close d) (h.reply l (Call.close d)))

  -- What has no name is not unlinked.
  pub releases-unnamed : (f : UnlinkFn) → IsReal r → releases r (call_unlink f []) ≡ false
  unfolding same_text
  releases-unnamed f v = unnamed r f v
    where
      unnamed : (r' : Resource) (f : UnlinkFn) → IsReal r' → releases r' (call_unlink f []) ≡ false
      unnamed (descriptor d) f v = ground arith
      unnamed (shm_name []) f v = absurd (v refl)
      unnamed (shm_name (c ∷ m)) f v = ground arith
      unnamed (file_name []) f v = absurd (v refl)
      unnamed (file_name (c ∷ m)) f v = ground arith
      unnamed (mapping p) f v = ground arith
      unnamed (shm_id i) f v = ground arith
      unnamed (attachment p) f v = ground arith
      unnamed (handle p) f v = ground arith
      unnamed (view p) f v = ground arith

  quiet_unlink : (f : UnlinkFn) (n : Text) → is_quiet (call_unlink f n) ≡ true
  quiet_unlink f n = ground arith

  pub unlink-Loses :
      (u : Unlinkable) (l : Log) → IsReal r → Loses r (owns_name r u) l (unlink h u l).1
  unfolding unlink
  unlink-Loses u l v = named u.unlink_fn u.nm
    where
      named :
          (f : UnlinkFn) (n : Text)
          → Loses r (hit (releases r (call_unlink f n))) l (unlink_named h f n l).1
      named f [] = ground (arith, releases-unnamed f v)
      named f (c ∷ n) = ground (
        arith,
        quiet_unlink f (c ∷ n),
        acquires-quiet r (call_unlink f (c ∷ n)) (h.reply l (call_unlink f (c ∷ n))),
      )
